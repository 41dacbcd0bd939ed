-- ===== src/Trips/Effects.antt =====
-- `recomputeStatus`, `confirm` and `cancel` of backend/src/trips/trips.service.ts: what they write.
use gig_drive.Shared.{ℕ, ◌==◌, ==_iff, true, false, ◌≡◌, refl, ◌⊎◌, inl, inr, some, Mem, arith}
use gig_drive.Entities.{TripStatus, same_status, Trip}
use gig_drive.Service.{World, Env}
use gig_drive.StateMachine.{TripStateContext, derive_status, assert_confirmable, assert_cancellable}
use gig_drive.StateMachine.Lifecycle.{is_band, Move}
use gig_drive.Seats.{count_confirmed_seats, confirmed_total}
use gig_drive.Seats.Total.{count_confirmed_seats-total}
use gig_drive.SignalGroups.{on_trip_confirmed}
use gig_drive.TripChecks.{context}
use gig_drive.TripQueries.{get_details}
use gig_drive.Trips.{recompute_status, confirm, cancel}

abbrev pub with_status : TripStatus → Trip → Trip
with_status s t = record t { status = s }

-- How a call may change the trips: it writes a new status to trips that are there, along the moves
-- of the lifecycle, and it leaves the bookings alone. A status in the booking band is the derived one.
pub data Moves (env : Env) : World → World → Type 0 where
  stays : {w w' : World} → w'.trips ≡ w.trips → w'.bookings ≡ w.bookings → Moves env w w'
  moves :
      {w w' : World} (t : Trip) (s : TripStatus)
      → Mem t w.trips
      → Move t.status s
      → (is_band s ≡ true → s ≡ derive_status (context t (confirmed_total t.id w.bookings)))
      → w'.trips ≡ env.trips_repository.save (with_status s t) w.trips
      → w'.bookings ≡ w.bookings
      → Moves env w w'
  follows : {w u w' : World} → Moves env w u → Moves env u w' → Moves env w w'

pub derive_status-band :
    (ctx : TripStateContext)
    → same_status (derive_status ctx) ctx.status ≡ false
    → (is_band ctx.status ≡ true) × (is_band (derive_status ctx) ≡ true)
unfolding derive_status
derive_status-band ctx h = ground arith

module _ (env : Env) where
  open env use {trips_repository}

  pub derived-total :
      (id : ℕ) (t : Trip) (w : World)
      → (t.id == id) ≡ true
      → derive_status (context t (count_confirmed_seats env id w))
        ≡ derive_status (context t (confirmed_total t.id w.bookings))
  derived-total id t w h = rw ((==_iff t.id id).0 h, count_confirmed_seats-total env id w) refl

  -- What the recomputation does to the tables: nothing, or it writes the derived status.

  pub recompute_status-effect :
      (id : ℕ) (w : World)
      → let w' = (recompute_status env id w).1 in
        (w'.bookings ≡ w.bookings)
        × ((w'.trips ≡ w.trips)
            ⊎ ((t : Trip) × (trips_repository.find_one (λ t. t.id == id) w.trips ≡ some t)
                × (same_status (derive_status (context t (count_confirmed_seats env id w))) t.status
                    ≡ false)
                × (w'.trips
                    ≡ trips_repository.save
                        (with_status (derive_status (context t (count_confirmed_seats env id w))) t)
                        w.trips)))
  unfolding recompute_status
  recompute_status-effect id w = ground arith

  pub recompute_status-Moves : (id : ℕ) (w : World) → Moves env w (recompute_status env id w).1
  recompute_status-Moves id w =
      let (b, effect) = recompute_status-effect id w in
      elim effect [
        | inl same ↦ stays same b
        | inr (t, found, changed, e) ↦
            moves t _ (trips_repository.find_one_hit _ w.trips t found).0
              (Move.recomputes (derive_status-band _ changed).0 (derive_status-band _ changed).1)
              (λ _. derived-total id t w (trips_repository.find_one_hit _ w.trips t found).1) e b
      ]

  pub get_details-same : (id : ℕ) (w : World) → (get_details env id w).1 ≡ w
  unfolding get_details
  get_details-same id w = ground arith

  on_trip_confirmed-effect :
      (t : Trip) (w : World)
      → let w' = (on_trip_confirmed env t w).1 in (w'.trips ≡ w.trips) × (w'.bookings ≡ w.bookings)
  unfolding on_trip_confirmed
  on_trip_confirmed-effect t w = ground arith

  pub confirm-effect :
      (id : ℕ) (w : World)
      → let w' = (confirm env id w).1 in
        (w'.bookings ≡ w.bookings)
        × ((w'.trips ≡ w.trips)
            ⊎ ((t : Trip) × (trips_repository.find_one (λ t. t.id == id) w.trips ≡ some t)
                × (t.status ≡ TripStatus.ready)
                × (w'.trips ≡ trips_repository.save (with_status TripStatus.confirmed t) w.trips)))
  unfolding confirm assert_confirmable on_trip_confirmed get_details
  confirm-effect id w = ground arith

  -- `confirm` changes the trips by a move of the lifecycle or not at all, and no booking.
  pub confirm-Moves : (id : ℕ) (w : World) → Moves env w (confirm env id w).1
  confirm-Moves id w =
      let (b, effect) = confirm-effect id w in
      elim effect [
        | inl same ↦ stays same b
        | inr (t, found, was_ready, e) ↦
            moves t _ (trips_repository.find_one_hit _ w.trips t found).0
              (Move.driver_confirms was_ready refl) (λ h. ground arith) e b
      ]

  pub cancel-effect :
      (id : ℕ) (w : World)
      → let w' = (cancel env id w).1 in
        (w'.bookings ≡ w.bookings)
        × ((w'.trips ≡ w.trips)
            ⊎ ((t : Trip) × (trips_repository.find_one (λ t. t.id == id) w.trips ≡ some t)
                × ((is_band t.status ≡ true) ⊎ (t.status ≡ TripStatus.confirmed))
                × (w'.trips ≡ trips_repository.save (with_status TripStatus.cancelled t) w.trips)))
  unfolding cancel assert_cancellable get_details
  cancel-effect id w = ground arith

  -- `cancel` changes the trips by a move of the lifecycle or not at all, and no booking.
  pub cancel-Moves : (id : ℕ) (w : World) → Moves env w (cancel env id w).1
  cancel-Moves id w =
      let (b, effect) = cancel-effect id w in
      elim effect [
        | inl same ↦ stays same b
        | inr (t, found, live, e) ↦
            moves t _ (trips_repository.find_one_hit _ w.trips t found).0 (Move.calls_off live refl)
              (λ h. ground arith) e b
      ]
