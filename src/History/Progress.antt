-- ===== src/History/Progress.antt =====
-- The row and the status of a trip over a history: which call may make which transition, and when.
use gig_drive.Shared.{
  ℕ, ==_iff, true, ◌≡◌, refl, sym, ap, ◌∙◌, ◌⊎◌, inl, inr, List, [], ◌∷◌, Mem, arith, All, subst,
}
use gig_drive.Entities.{TripStatus, Trip, Booking}
use gig_drive.Repository.Queries.{mem-save_ne}
use gig_drive.Service.{World, Env}
use gig_drive.StateMachine.{derive_status}
use gig_drive.StateMachine.Lifecycle.{is_band, IsFinished}
use gig_drive.Seats.{confirmed_total}
use gig_drive.TripChecks.{CreateTripDto, context}
use gig_drive.Capacity.{Valid}
use gig_drive.Trips.Effects.{
  with_status, confirm-effect, cancel-effect, recompute_status-effect, derived-total,
  derive_status-band,
}
use gig_drive.Trips.Rows.{Each, Written, Lapses, Departs, save-Written, sweep_expired-Each}
use gig_drive.Trips.Sweep.{trip_id}
use gig_drive.Trips.Keeps.{create-effect, created}
use gig_drive.Bookings.Effects.{
  Recomputed, after_save, confirmed_at, withdrawn, accept-effect,
  cancel-effect as cancel_booking-effect, reject-effect, request-effect, set_paid-effect,
}
use gig_drive.History.{Call, perform, run, IsChecked, Sound, perform-Sound, join-same, leave-same}

-- The call accepts or cancels a booking of the trip.
abbrev pub Decides : Call → World → Trip → Type 0
Decides c w t =
    (b : Booking) × Mem b w.bookings
    × (b.trip_id ≡ t.id)
    × ((c ≡ Call.accept_booking b.id) ⊎ (c ≡ Call.cancel_booking b.id))

-- What a call that leads from one world to another may make of the row of a trip: the arrows that
-- trip-state-machine.ts draws, each with the call that takes it and its condition. But for the status
-- the row stays as it is.
pub data Step (c : Call) (w w' : World) (t u : Trip) : Type 0 where
  remains : u ≡ t → Step c w w' t u
  -- OPEN, FULL and READY: the status that the confirmed seats after the call give.
  recomputes :
      Decides c w t
      → is_band t.status ≡ true
      → u ≡ with_status (derive_status (context t (confirmed_total t.id w'.bookings))) t
      → Step c w w' t u
  driver_confirms :
      c ≡ Call.confirm_trip t.id
      → t.status ≡ TripStatus.ready
      → u ≡ with_status TripStatus.confirmed t
      → Step c w w' t u
  driver_cancels :
      c ≡ Call.cancel_trip t.id
      → (is_band t.status ≡ true) ⊎ (t.status ≡ TripStatus.confirmed)
      → u ≡ with_status TripStatus.cancelled t
      → Step c w w' t u
  lapses : c ≡ Call.sweep → Lapses w.now w.bookings t u → Step c w w' t u
  departs : c ≡ Call.sweep → Departs w.now t u → Step c w w' t u

-- From a finished status no call leads on.
Step-finished :
    {c : Call} {w w' : World} {t u : Trip} → IsFinished t.status → Step c w w' t u → u ≡ t
Step-finished f (Step.remains e) = e
Step-finished f (Step.recomputes d b e) = absurd (ground arith)
Step-finished f (Step.driver_confirms d b e) = absurd (ground arith)
Step-finished f (Step.driver_cancels d b e) = absurd (ground arith)
Step-finished f (Step.lapses d (b, _, _, _)) = absurd (ground arith)
Step-finished f (Step.departs d (b, _, _)) = absurd (ground arith)

module _ (env : Env) where
  open env use {trips_repository, bookings_repository}

  abbrev Steps : Call → World → World → Type 0
  Steps c w w' = Each (Step c w w') w.trips w'.trips

  same-Steps : (c : Call) (w w' : World) → w'.trips ≡ w.trips → Steps c w w'
  same-Steps c w w' e t m = (t, rw e m, Step.remains refl)

  -- A call that writes one row.
  saved-Steps :
      (c : Call) (w w' : World) (t0 : Trip) (s : TripStatus)
      → Valid w
      → Mem t0 w.trips
      → w'.trips ≡ trips_repository.save (with_status s t0) w.trips
      → Step c w w' t0 (with_status s t0)
      → Steps c w w'
  saved-Steps c w w' t0 s v m0 e step t m =
      let (u, n, r) = save-Written env t0 s w.trips v.trips_keyed m0 t m in (u, rw e n, written r)
    where
      written : {u : Trip} → Written t0 s t u → Step c w w' t u
      written (inl same) = Step.remains same
      written {u} (inr (own, d)) =
          subst (λ x. Step c w w' t x) (sym d)
            (subst (λ x. Step c w w' x (with_status s x)) (sym own) step)

  -- A recomputation after a booking of the trip has been written.
  Recomputed-Steps :
      (c : Call) (b saved : Booking) (w w' : World)
      → Valid w
      → Mem b w.bookings
      → saved.trip_id ≡ b.trip_id
      → (c ≡ Call.accept_booking b.id) ⊎ (c ≡ Call.cancel_booking b.id)
      → Recomputed env saved w w'
      → Steps c w w'
  Recomputed-Steps c b saved w w' v m own call (trips, bookings) =
      let w1 = after_save env saved w in
      let (kept, effect) = recompute_status-effect env saved.trip_id w1 in
      elim effect [
        | inl same ↦ same-Steps c w w' (trips ∙ same)
        | inr (t, found, changed, e) ↦
            let (n, hit) = trips_repository.find_one_hit _ w1.trips t found in
            let total = derived-total env saved.trip_id t w1 hit in
            let now_booked =
              ap (λ bs. derive_status (context t (confirmed_total t.id bs)))
                (sym (bookings ∙ kept)) in
            saved-Steps c w w' t _ v n (trips ∙ e) (
              Step.recomputes (b, m, sym own ∙ sym ((==_iff t.id saved.trip_id).0 hit), call)
                (derive_status-band _ changed).0 (ap (λ s. with_status s t) (total ∙ now_booked)))
      ]

  publish-Steps :
      (driver_id : ℕ) (dto : CreateTripDto) (w : World)
      → Steps (Call.publish driver_id dto) w (perform env (Call.publish driver_id dto) w)
  unfolding perform
  publish-Steps driver_id dto w t m = elim (create-effect env driver_id dto w) [
    | inl same ↦ (t, rw same m, Step.remains refl)
    | inr (_, _, _, _, _, _, e) ↦ (
      t,
      rw e (
          mem-save_ne trips_repository t (created env driver_id dto w) w.trips m
            (trips_repository.new_id_unused w.trips t m)),
      Step.remains refl,
    )
  ]

  sweep-Steps : (w : World) → Valid w → Steps Call.sweep w (perform env Call.sweep w)
  unfolding perform
  sweep-Steps w v t m =
      let (u, n, r) = sweep_expired-Each env w v.trips_keyed t m in (u, n, swept r)
    where
      swept :
          {u : Trip}
          → (u ≡ t) ⊎ (Lapses w.now w.bookings t u ⊎ Departs w.now t u)
          → Step Call.sweep w (perform env Call.sweep w) t u
      swept (inl e) = Step.remains e
      swept (inr (inl late)) = Step.lapses refl late
      swept (inr (inr gone)) = Step.departs refl gone

  perform-Steps : (c : Call) (w : World) → Valid w → Steps c w (perform env c w)
  unfolding perform
  perform-Steps (Call.publish driver_id dto) w v = publish-Steps driver_id dto w
  perform-Steps (Call.confirm_trip id) w v = elim (confirm-effect env id w).1 [
    | inl same ↦ same-Steps _ w _ same
    | inr (t, found, was, e) ↦
        let (m, hit) = trips_repository.find_one_hit _ w.trips t found in
        saved-Steps _ w _ t TripStatus.confirmed v m e
          (Step.driver_confirms (ap Call.confirm_trip (sym ((==_iff t.id id).0 hit))) was refl)
  ]
  perform-Steps (Call.cancel_trip id) w v = elim (cancel-effect env id w).1 [
    | inl same ↦ same-Steps _ w _ same
    | inr (t, found, live, e) ↦
        let (m, hit) = trips_repository.find_one_hit _ w.trips t found in
        saved-Steps _ w _ t TripStatus.cancelled v m e
          (Step.driver_cancels (ap Call.cancel_trip (sym ((==_iff t.id id).0 hit))) live refl)
  ]
  perform-Steps Call.sweep w v = sweep-Steps w v
  perform-Steps (Call.ask trip_id passenger_id seats) w v =
      same-Steps _ w _ (request-effect env trip_id passenger_id seats w).0
  perform-Steps (Call.accept_booking id) w v = elim (accept-effect env id w) [
    | inl same ↦ same-Steps _ w _ (ap (λ x. x.trips) same)
    | inr (b, found, (_, _, saved)) ↦
        let (m, hit) = bookings_repository.find_one_hit _ w.bookings b found in
        Recomputed-Steps _ b (confirmed_at env w.now b) w _ v m refl
          (inl (ap Call.accept_booking (sym ((==_iff b.id id).0 hit)))) saved
  ]
  perform-Steps (Call.reject_booking id) w v = same-Steps _ w _ (reject-effect env id w).0
  perform-Steps (Call.cancel_booking id) w v = elim (cancel_booking-effect env id w) [
    | inl same ↦ same-Steps _ w _ (ap (λ x. x.trips) same)
    | inr (b, found, left) ↦ elim left [
      | inl (_, (trips, _)) ↦ same-Steps _ w _ trips
      | inr (_, saved) ↦
          let (m, hit) = bookings_repository.find_one_hit _ w.bookings b found in
          Recomputed-Steps _ b (withdrawn env w.now b) w _ v m refl
            (inr (ap Call.cancel_booking (sym ((==_iff b.id id).0 hit)))) saved
    ]
  ]
  perform-Steps (Call.mark_paid id paid) w v = same-Steps _ w _ (set_paid-effect env id paid w).0
  perform-Steps (Call.join_waitlist trip_id passenger_id seats) w v =
      same-Steps _ w _ (join-same env trip_id passenger_id seats w).0
  perform-Steps (Call.leave_waitlist trip_id passenger_id) w v =
      same-Steps _ w _ (leave-same env trip_id passenger_id w).0
  perform-Steps (Call.wait ms) w v = same-Steps _ w _ refl

  -- Call by call the row of a trip takes a step of that call, and the last row is in the last table.
  abbrev pub Follows : List Call → World → Trip → Type 0
  Follows [] w t = Mem t w.trips
  Follows (c ∷ calls) w t =
      (u : Trip) × Step c w (perform env c w) t u × Follows calls (perform env c w) u

  -- Over any history of calls from sound tables a trip keeps its row but for the status, and each call
  -- takes an arrow of the documented lifecycle or leaves the status: OPEN, FULL and READY follow the
  -- confirmed seats, and only where a booking of the trip is accepted or cancelled; the driver's call
  -- makes a READY trip CONFIRMED, and one that is not finished CANCELLED; the sweep makes a CONFIRMED trip
  -- that has departed COMPLETED, and CANCELLED one that is OPEN, FULL or READY, past its deadline, and
  -- short of its minimum. Each published payload has to ask for at least one passenger.
  pub run-Follows :
      (calls : List Call) (w : World)
      → All IsChecked calls
      → Sound env w
      → (t : Trip) → Mem t w.trips
      → Follows calls w t
  run-Follows [] w _ g t m = m
  run-Follows (c ∷ calls) w (h, rest) (v, s, one) t m =
      let (u, n, step) = perform-Steps c w v t m in
      (u, step, run-Follows calls (perform env c w) rest (perform-Sound env c w h (v, s, one)) u n)

  Follows-finished :
      (calls : List Call) (w : World) (t : Trip)
      → IsFinished t.status
      → Follows calls w t
      → Mem t (run env calls w).trips
  Follows-finished [] w t f m = m
  Follows-finished (c ∷ calls) w t f (u, step, rest) =
      let same = Step-finished f step in
      Follows-finished calls (perform env c w) t f
        (subst (λ x. Follows calls (perform env c w) x) same rest)

  -- A trip that is COMPLETED or CANCELLED keeps that status over any history of calls from sound tables,
  -- if each published payload asks for at least one passenger.
  pub run-finished :
      (calls : List Call) (w : World)
      → All IsChecked calls
      → Sound env w
      → (t : Trip) → Mem t w.trips
      → IsFinished t.status
      → (u : Trip) × Mem u (run env calls w).trips × (u.id ≡ t.id) × (u.status ≡ t.status)
  run-finished calls w h g t m f =
      (t, Follows-finished calls w t f (run-Follows calls w h g t m), refl, refl)
