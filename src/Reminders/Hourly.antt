-- ===== src/Reminders/Hourly.antt =====
-- The reminders of the job when it runs each hour, as the scheduler is told to.
use gig_drive.Shared.{
  ℕ, zero, suc, ◌+◌, ◌*◌, ◌==◌, leb, ltb, ◌&&◌, Bool, ◌≡◌, refl, List, [], ◌∷◌, Mem, arith, sum_by,
  sum_by-ext, weight_at-Keyed, Keyed, if◌then◌else◌,
}
use gig_drive.Entities.{Trip, TripStatus, same_status}
use gig_drive.Errors.{ok}
use gig_drive.Repository.Queries.{sum_by-find}
use gig_drive.Service.{World, Env, Event}
use gig_drive.Reminders.{hour_ms, is_due, send_reminders, send_due_reminders}

-- Whether an event is a reminder of a trip.
abbrev reminds : ℕ → Event → ℕ
reminds id (Event.trip_reminder t) = if t.id == id then 1 else 0
reminds id _ = 0

-- How many reminders of a trip have gone out.
abbrev pub reminders_of : ℕ → World → ℕ
reminders_of id w = sum_by (reminds id) w.outbox

module _ (env : Env) where
  open env use {trips_repository}

  send_reminders-outbox :
      (id : ℕ) (ts : List Trip) (w : World)
      → let w' = (send_reminders env ts w).1 in
        (reminders_of id w' ≡ reminders_of id w + sum_by (λ t. if t.id == id then 1 else 0) ts)
        × (w'.trips ≡ w.trips)
  unfolding send_reminders
  send_reminders-outbox id [] w = (omega arith, refl)
  send_reminders-outbox id (t ∷ ts) w =
      let w1 = record w { outbox = Event.trip_reminder t ∷ w.outbox } in
      let (total, same) = send_reminders-outbox id ts w1 in (omega (arith, total), same)

  send_reminders-ok : (ts : List Trip) (w : World) → (send_reminders env ts w).0 ≡ ok tt
  unfolding send_reminders
  send_reminders-ok [] w = refl
  send_reminders-ok (t ∷ ts) w =
      send_reminders-ok ts record w { outbox = Event.trip_reminder t ∷ w.outbox }

  abbrev passes : ℕ → Trip → Bool
  passes now t = same_status t.status TripStatus.confirmed && is_due now t

  send_due_reminders-state :
      (now : ℕ) (w : World)
      → (send_due_reminders env now w).1
        ≡ (send_reminders env (trips_repository.find (passes now) w.trips) w).1
  unfolding send_due_reminders
  send_due_reminders-state now w =
      let done = send_reminders-ok (trips_repository.find (passes now) w.trips) w in ground arith

  -- One run reminds of a CONFIRMED trip once if its departure lies in the window.
  abbrev due : ℕ → Trip → ℕ
  due now t = if same_status t.status TripStatus.confirmed && is_due now t then 1 else 0

  send_due_reminders-once :
      (now : ℕ) (t : Trip) (w : World)
      → Keyed (λ t. t.id) w.trips
      → Mem t w.trips
      → let w' = (send_due_reminders env now w).1 in
        (reminders_of t.id w' ≡ reminders_of t.id w + due now t) × (w'.trips ≡ w.trips)
  send_due_reminders-once now t w k m =
      let (total, same) =
        send_reminders-outbox t.id (trips_repository.find (passes now) w.trips) w in
      let found =
        sum_by-find trips_repository (λ u. if u.id == t.id then 1 else 0) (passes now) w.trips in
      let swapped =
        sum_by-ext (λ u. if passes now u then (if u.id == t.id then 1 else 0) else 0)
          (λ u. if u.id == t.id then due now u else 0) (λ u. ground arith) w.trips in
      let own = weight_at-Keyed (λ (u : Trip). u.id) (due now) t w.trips k m in
      rw (send_due_reminders-state now w) (omega (arith, total, found, swapped, own), same)

  -- Runs of the job at `start` and each hour after that.
  abbrev pub run_hourly : ℕ → ℕ → World → World
  run_hourly zero start w = w
  run_hourly (suc n) start w = run_hourly n (start + hour_ms) (send_due_reminders env start w).1

  -- A CONFIRMED trip that departs at least a day after the first of `n` hourly runs, and before the window of
  -- the last of them ends, is reminded of exactly once, if the trips do not change meanwhile. Of any other
  -- trip no reminder goes out.
  pub run_hourly-once :
      (n start : ℕ) (t : Trip) (w : World)
      → Keyed (λ t. t.id) w.trips
      → Mem t w.trips
      → reminders_of t.id (run_hourly n start w)
        ≡ reminders_of t.id w
          + (if same_status t.status TripStatus.confirmed
                && (leb (start + 24 * hour_ms) t.departure_at
                    && ltb t.departure_at (start + 24 * hour_ms + n * hour_ms))
              then 1
              else 0)
  run_hourly-once zero start t w k m = ground arith
  run_hourly-once (suc n) start t w k m =
      let (once, same) = send_due_reminders-once start t w k m in
      let w1 = (send_due_reminders env start w).1 in
      let rest = run_hourly-once n (start + hour_ms) t w1 (rw same k) (rw same m) in
      ground (arith, once, rest)
