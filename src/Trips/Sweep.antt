-- ===== src/Trips/Sweep.antt =====
-- `sweepExpired` of backend/src/trips/trips.service.ts: its two loops, round by round.
use mathlib.Core.List.{mem-cons_self, mem-cons_of_mem}
use gig_drive.Shared.{
  ℕ, ◌≤◌, ◌<◌, true, ◌≡◌, refl, ◌⊎◌, inl, inr, List, [], ◌∷◌, Mem, arith, Keyed, Keyed-tail,
  Keyed-apart,
}
use gig_drive.Entities.{TripStatus, same_status, Trip}
use gig_drive.Errors.{is_ok}
use gig_drive.Repository.Queries.{mem-save_ne, mem-find, find-passes, Keyed-find, Keyed-save}
use gig_drive.Service.{World, Env}
use gig_drive.StateMachine.Lifecycle.{is_band, Move}
use gig_drive.Seats.{count_confirmed_seats}
use gig_drive.TripQueries.{status_in}
use gig_drive.Trips.{
  sweep_active, sweep_confirmed, sweep_expired, call_off, complete, active_statuses,
}
use gig_drive.Trips.Effects.{Moves, stays, moves, follows, with_status}

abbrev pub trip_id : Trip → ℕ
trip_id t = t.id

module _ (env : Env) where
  open env use {trips_repository}

  -- One round of the first loop goes on from the same state, or from that in which it has cancelled
  -- an overdue trip that lacks passengers.
  pub sweep_active-round :
      (t : Trip) (ts : List Trip) (w : World)
      → (((sweep_active env (t ∷ ts) w).1 ≡ (sweep_active env ts w).1)
          × ((w.now < t.confirmation_deadline)
              ⊎ (t.min_passengers ≤ count_confirmed_seats env t.id w)))
        ⊎ (((sweep_active env (t ∷ ts) w).1 ≡ (sweep_active env ts (call_off env t w).1).1)
            × (t.confirmation_deadline ≤ w.now)
            × (count_confirmed_seats env t.id w < t.min_passengers))
  unfolding sweep_active
  sweep_active-round t ts w = ground arith

  -- The second loop in the same way, for a trip that has departed.
  pub sweep_confirmed-round :
      (t : Trip) (ts : List Trip) (w : World)
      → (((sweep_confirmed env (t ∷ ts) w).1 ≡ (sweep_confirmed env ts w).1)
          × (w.now < t.departure_at))
        ⊎ (((sweep_confirmed env (t ∷ ts) w).1 ≡ (sweep_confirmed env ts (complete env t w).1).1)
            × (t.departure_at ≤ w.now))
  unfolding sweep_confirmed
  sweep_confirmed-round t ts w = ground arith

  pub sweep_active-nil : (w : World) → (sweep_active env [] w).1 ≡ w
  unfolding sweep_active
  sweep_active-nil w = refl

  pub sweep_confirmed-nil : (w : World) → (sweep_confirmed env [] w).1 ≡ w
  unfolding sweep_confirmed
  sweep_confirmed-nil w = refl

  -- The trips that a loop has still to look at are there.
  abbrev pub Pending : List Trip → World → Type 0
  Pending ts w = (u : Trip) → Mem u ts → Mem u w.trips

  pub Pending-save :
      (t : Trip) (ts : List Trip) (s : TripStatus) (w : World)
      → Keyed trip_id (t ∷ ts)
      → Pending (t ∷ ts) w
      → (u : Trip) → Mem u ts
      → Mem u (trips_repository.save (with_status s t) w.trips)
  Pending-save t ts s w k p u m =
      mem-save_ne trips_repository u (with_status s t) w.trips (p u (mem-cons_of_mem t m))
        (Keyed-apart trip_id t u ts k m)

  pub sweep_active-Moves :
      (ts : List Trip) (w : World)
      → Keyed trip_id ts
      → Pending ts w
      → ((u : Trip) → Mem u ts → is_band u.status ≡ true)
      → Moves env w (sweep_active env ts w).1
  sweep_active-Moves [] w k p b = rw sweep_active-nil (stays refl refl)
  sweep_active-Moves (t ∷ ts) w k p b =
      let k' = Keyed-tail trip_id t ts k in
      let b' = λ (u : Trip) (m : Mem u ts). b u (mem-cons_of_mem t m) in
      elim (sweep_active-round t ts w) [
        | inl (e, _) ↦ rw e (sweep_active-Moves ts w k' (λ u m. p u (mem-cons_of_mem t m)) b')
        | inr (e, _, _) ↦ rw e (
            follows
              (moves t TripStatus.cancelled (p t mem-cons_self)
                (Move.calls_off (inl (b t mem-cons_self)) refl) (λ h. ground arith) refl refl)
              (sweep_active-Moves ts (call_off env t w).1 k'
                (Pending-save t ts TripStatus.cancelled w k p) b'))
      ]

  sweep_confirmed-Moves :
      (ts : List Trip) (w : World)
      → Keyed trip_id ts
      → Pending ts w
      → ((u : Trip) → Mem u ts → u.status ≡ TripStatus.confirmed)
      → Moves env w (sweep_confirmed env ts w).1
  sweep_confirmed-Moves [] w k p b = rw sweep_confirmed-nil (stays refl refl)
  sweep_confirmed-Moves (t ∷ ts) w k p b =
      let k' = Keyed-tail trip_id t ts k in
      let b' = λ (u : Trip) (m : Mem u ts). b u (mem-cons_of_mem t m) in
      elim (sweep_confirmed-round t ts w) [
        | inl (e, _) ↦ rw e (sweep_confirmed-Moves ts w k' (λ u m. p u (mem-cons_of_mem t m)) b')
        | inr (e, _) ↦ rw e (
            follows
              (moves t TripStatus.completed (p t mem-cons_self)
                (Move.departs (b t mem-cons_self) refl) (λ h. ground arith) refl refl)
              (sweep_confirmed-Moves ts (complete env t w).1 k'
                (Pending-save t ts TripStatus.completed w k p) b'))
      ]

  sweep_active-ok : (ts : List Trip) (w : World) → is_ok (sweep_active env ts w).0 ≡ true
  unfolding sweep_active
  sweep_active-ok [] w = refl
  sweep_active-ok (t ∷ ts) w =
      ground (arith, sweep_active-ok ts w, sweep_active-ok ts (call_off env t w).1)

  sweep_confirmed-ok : (ts : List Trip) (w : World) → is_ok (sweep_confirmed env ts w).0 ≡ true
  unfolding sweep_confirmed
  sweep_confirmed-ok [] w = refl
  sweep_confirmed-ok (t ∷ ts) w =
      ground (arith, sweep_confirmed-ok ts w, sweep_confirmed-ok ts (complete env t w).1)

  abbrev pub active_trips : World → List Trip
  active_trips w = trips_repository.find (λ t. status_in active_statuses t.status) w.trips

  abbrev pub confirmed_trips : World → List Trip
  confirmed_trips w = trips_repository.find (λ t. same_status t.status TripStatus.confirmed) w.trips

  abbrev pub after_active : World → World
  after_active w = (sweep_active env (active_trips w) w).1

  -- The sweep is its two loops, one after the other.
  pub sweep_expired-loops :
      (w : World)
      → (sweep_expired env w).1
        ≡ (sweep_confirmed env (confirmed_trips (after_active w)) (after_active w)).1
  unfolding sweep_expired
  sweep_expired-loops w = ground (
    arith,
    sweep_active-ok (active_trips w) w,
    sweep_confirmed-ok (confirmed_trips (after_active w)) (after_active w),
  )

  pub Keyed-Moves : {w w' : World} → Moves env w w' → Keyed trip_id w.trips → Keyed trip_id w'.trips
  Keyed-Moves (stays e _) k = rw e k
  Keyed-Moves (moves t s m l d e _) k = rw e (Keyed-save trips_repository (with_status s t) _ k)
  Keyed-Moves (follows a b) k = Keyed-Moves b (Keyed-Moves a k)

  band_of_active : (u : Trip) → status_in active_statuses u.status ≡ true → is_band u.status ≡ true
  band_of_active u h = ground arith

  confirmed_of_same :
      (u : Trip)
      → same_status u.status TripStatus.confirmed ≡ true
      → u.status ≡ TripStatus.confirmed
  confirmed_of_same u h = ground arith

  pub after_active-Moves : (w : World) → Keyed trip_id w.trips → Moves env w (after_active w)
  after_active-Moves w k =
      let active = λ (t : Trip). status_in active_statuses t.status in
      sweep_active-Moves (active_trips w) w (Keyed-find trips_repository active w.trips k)
        (λ u. mem-find trips_repository active u w.trips)
        (λ u m. band_of_active u (find-passes trips_repository active u w.trips m))

  -- If the ids of the trips are unique, the sweep changes the trips only by moves of the lifecycle,
  -- each of a trip that is in the table, and no booking.
  pub sweep_expired-Moves :
      (w : World) → Keyed trip_id w.trips → Moves env w (sweep_expired env w).1
  sweep_expired-Moves w k =
      let confirmed = λ (t : Trip). same_status t.status TripStatus.confirmed in
      let first = after_active-Moves w k in
      let w1 = after_active w in
      rw (sweep_expired-loops w) (
        follows first (
          sweep_confirmed-Moves (confirmed_trips w1) w1
            (Keyed-find trips_repository confirmed w1.trips (Keyed-Moves first k))
            (λ u. mem-find trips_repository confirmed u w1.trips)
            (λ u m. confirmed_of_same u (find-passes trips_repository confirmed u w1.trips m))))
