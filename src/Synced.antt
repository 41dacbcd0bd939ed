-- ===== src/Synced.antt =====
-- The status of a trip against its confirmed seats, and `recomputeStatus` of
-- backend/src/trips/trips.service.ts.
use mathlib.Core.Logic.Or
use mathlib.Core.Bool.{Bool-set}
use gig_drive.Shared.{
  ℕ, ◌==◌, ==_iff, Bool, true, not, ◌||◌, ◌≡◌, ◌≢◌, refl, ap, ◌⊎◌, inl, inr, none, some, List, Mem,
  arith, Bool-cases, Option-cases, mem-key-eq, Keyed, if◌then◌else◌,
}
use gig_drive.Entities.{TripStatus, same_status, Trip, Booking}
use gig_drive.Repository.Queries.{mem-save, mem-save_self, Keyed-save}
use gig_drive.Service.{World, Env}
use gig_drive.StateMachine.{TripStateContext, derive_status}
use gig_drive.StateMachine.Lifecycle.{is_band, Move}
use gig_drive.Seats.{confirmed_total, count_confirmed_seats}
use gig_drive.Seats.Total.{count_confirmed_seats-total}
use gig_drive.TripChecks.{context}
use gig_drive.Trips.{recompute_status}
use gig_drive.Trips.Effects.{Moves, stays, moves, follows, with_status}

abbrev pub derived_for : List Booking → Trip → TripStatus
derived_for bookings t = derive_status (context t (confirmed_total t.id bookings))

abbrev pub in_sync : List Booking → Trip → Bool
in_sync bookings t = not (is_band t.status) || same_status t.status (derived_for bookings t)

abbrev pub Synced : World → Type 0
Synced w = (t : Trip) → Mem t w.trips → in_sync w.bookings t ≡ true

moved_status :
    (ctx : TripStateContext) (s : TripStatus)
    → Move ctx.status s
    → (is_band s ≡ true → s ≡ derive_status ctx)
    → (not (is_band s) || same_status s (derive_status (record ctx { status = s }))) ≡ true
unfolding derive_status
moved_status ctx s (Move.recomputes a b) d = let e = d b in ground arith
moved_status ctx s (Move.driver_confirms a b) d = ground arith
moved_status ctx s (Move.departs a b) d = ground arith
moved_status ctx s (Move.calls_off a b) d = ground arith

moved-in_sync :
    (t : Trip) (s : TripStatus) (bookings : List Booking)
    → Move t.status s
    → (is_band s ≡ true → s ≡ derived_for bookings t)
    → in_sync bookings (with_status s t) ≡ true
moved-in_sync t s bookings l d = moved_status (context t (confirmed_total t.id bookings)) s l d

settled_status :
    (ctx : TripStateContext)
    → (not (is_band (derive_status ctx))
        || same_status
            (derive_status ctx)
            (derive_status (record ctx { status = derive_status ctx })))
      ≡ true
unfolding derive_status
settled_status ctx = ground arith

same_status_sym :
    (s t : TripStatus) → same_status s t ≡ true → (not (is_band t) || same_status t s) ≡ true
same_status_sym s t h = ground arith

-- A call that only moves trips along the lifecycle keeps them in step with their bookings.
pub Moves-Synced : {env : Env} {w w' : World} → Moves env w w' → Synced w → Synced w'
Moves-Synced (stays e b) s = rw (e, b) s
Moves-Synced {env} (moves {w = w} t s m l d e b) synced =
    rw (e, b)
      λ u n.
        Or.elim (Bool-set _ _) (mem-save env.trips_repository u (with_status s t) w.trips n)
          (λ same. rw same (moved-in_sync t s w.bookings l d)) (λ old. synced u old)
Moves-Synced (follows a b) s = Moves-Synced b (Moves-Synced a s)

module _ (env : Env) where
  open env use {trips_repository}

  recomputed-found :
      (id : ℕ) (w : World) (t : Trip)
      → trips_repository.find_one (λ t. t.id == id) w.trips ≡ some t
      → let w' = (recompute_status env id w).1 in
        let next = derive_status (context t (count_confirmed_seats env id w)) in
        (w'.bookings ≡ w.bookings)
        × (((same_status next t.status ≡ true) × (w'.trips ≡ w.trips))
            ⊎ (w'.trips ≡ trips_repository.save (with_status next t) w.trips))
  unfolding recompute_status
  recomputed-found id w t e = ground arith

  recomputed-missing :
      (id : ℕ) (w : World)
      → trips_repository.find_one (λ t. t.id == id) w.trips ≡ none
      → (recompute_status env id w).1 ≡ w
  unfolding recompute_status
  recomputed-missing id w e = ground arith

  -- One trip in step makes the table in step, if all other rows of the table are in step already.
  Synced-row :
      (t : Trip) (w : World)
      → Keyed (λ (t : Trip). t.id) w.trips
      → Mem t w.trips
      → in_sync w.bookings t ≡ true
      → ((u : Trip) → Mem u w.trips → u.id ≢ t.id → in_sync w.bookings u ≡ true)
      → Synced w
  Synced-row t w k m own others u n = elim (Bool-cases (u.id == t.id)) [
    | inl e ↦
        let same =
          mem-key-eq (λ (t : Trip). t.id) (λ t. if in_sync w.bookings t then 0 else 1) u t w.trips k
            n m ((==_iff u.id t.id).0 e) in
        ground arith
    | inr e ↦ others u n (λ d. ground arith)
  ]

  in_step :
      {id : ℕ} (t : Trip) (w : World)
      → t.id ≡ id
      → same_status (derive_status (context t (count_confirmed_seats env id w))) t.status ≡ true
      → in_sync w.bookings t ≡ true
  in_step t w own h =
      same_status_sym _ t.status (rw (← own, count_confirmed_seats-total env t.id w) at h)

  settled :
      {id : ℕ} (t : Trip) (w : World)
      → t.id ≡ id
      → in_sync w.bookings
          (with_status (derive_status (context t (count_confirmed_seats env id w))) t)
        ≡ true
  settled t w own =
      rw (← own, count_confirmed_seats-total env t.id w)
        (settled_status (context t (confirmed_total t.id w.bookings)))

  -- If trip ids are unique and every other trip is in step with its bookings, the recomputation for a
  -- trip leaves all trips in step.
  pub recompute_status-Synced :
      (id : ℕ) (w : World)
      → Keyed (λ (t : Trip). t.id) w.trips
      → ((t : Trip) → Mem t w.trips → t.id ≢ id → in_sync w.bookings t ≡ true)
      → Synced (recompute_status env id w).1
  recompute_status-Synced id w k others =
      elim (Option-cases (trips_repository.find_one (λ t. t.id == id) w.trips)) [
        | inl e ↦ rw (recomputed-missing id w e) λ t m.
            others t m (λ d. ground (arith, trips_repository.find_one_miss _ w.trips e t m, d))
        | inr (t, e) ↦
            let (m, hit) = trips_repository.find_one_hit _ w.trips t e in
            let own : t.id ≡ id = (==_iff t.id id).0 hit in
            let (b, effect) = recomputed-found id w t e in
            elim effect [
              | inl (same, trips) ↦
                  rw (trips, b)
                    (Synced-row t w k m (in_step t w own same)
                      (λ u n d. others u n (λ c. d (rw (c, own) refl))))
              | inr trips ↦
                  let next = derive_status (context t (count_confirmed_seats env id w)) in
                  let v = with_status next t in
                  let w' = record w { trips = trips_repository.save v w.trips } in
                  rw (trips, b)
                    (Synced-row v w' (Keyed-save trips_repository v w.trips k)
                      (mem-save_self trips_repository v w.trips) (settled t w own)
                      (λ u n d.
                        Or.elim (Bool-set _ _) (mem-save trips_repository u v w.trips n)
                          (λ c. absurd (d (ap (λ (t : Trip). t.id) c)))
                          (λ old. others u old (λ c. d (rw (c, own) refl)))))
            ]
      ]
