-- ===== src/Bookings/Keeps.antt =====
-- The booking calls and the capacity invariant.
use gig_drive.Shared.{
  ℕ, ◌+◌, ◌≤◌, ◌==◌, ==_iff, Bool, ◌≡◌, refl, sym, inl, inr, arith, mem-count_key, mem-key-eq,
  Bool-cases,
}
use gig_drive.Entities.{BookingStatus, Trip, Booking}
use gig_drive.Service.{World, Env}
use gig_drive.Capacity.{Valid, save_booking-IsValid, save_seatless-IsValid, save_same-IsValid}
use gig_drive.Seats.{confirmed_total}
use gig_drive.Trips.{recompute_status}
use gig_drive.Trips.Effects.{recompute_status-Moves}
use gig_drive.Trips.Keeps.{Moves-Valid}
use gig_drive.Bookings.{
  decided, new_booking, request, accept_locked, accept, reject, cancel, set_paid,
}
use gig_drive.Bookings.Effects.{
  HasRoom, Recomputed, Same, after_save, confirmed_at, withdrawn, accept-effect,
  accept_locked-effect, cancel-effect, reject-effect, request-effect, set_paid-effect,
}

Same-Valid : (w w' : World) → Same w w' → Valid w → Valid w'
Same-Valid w w' (trips, bookings) v = rw (trips, bookings) v

module _ (env : Env) where
  open env use {trips_repository, bookings_repository}

  -- A booking with room on its trip can be confirmed.
  confirmed_at-Valid :
      (b : Booking) (t : Trip) (w : World)
      → HasRoom env b t w
      → Valid w
      → Valid (after_save env (confirmed_at env w.now b) w)
  confirmed_at-Valid b t w (found, _, room) v =
      let (m, e) = trips_repository.find_one_hit _ w.trips t found in
      let own : t.id ≡ b.trip_id = (==_iff t.id b.trip_id).0 e in
      save_booking-IsValid env w.trips w.bookings v (confirmed_at env w.now b)
        (λ u n. elim (Bool-cases (b.trip_id == u.id)) [
          | inl same ↦
              let trip : b.trip_id ≡ u.id = (==_iff b.trip_id u.id).0 same in
              let seats : t.max_passengers ≡ u.max_passengers =
                mem-key-eq (λ (t : Trip). t.id) (λ t. t.max_passengers) t u w.trips v.trips_keyed m
                  n (rw (own, trip) refl) in
              let free : confirmed_total u.id w.bookings + b.seats ≤ t.max_passengers =
                rw (← trip) room in
              ground arith
          | inr other ↦ let free = v.within u n in ground arith
        ])
        (λ k unused. elim (Bool-cases (b.trip_id == k)) [
          | inl same ↦
              let one = mem-count_key (λ (t : Trip). t.id) t w.trips m in
              let trip : k ≡ t.id = rw (own) (sym ((==_iff b.trip_id k).0 same)) in
              absurd (omega (arith, one, (rw trip at unused)))
          | inr other ↦ ground arith
        ])

  Recomputed-Valid :
      (b : Booking) (w w' : World) → Recomputed env b w w' → Valid (after_save env b w) → Valid w'
  Recomputed-Valid b w w' same v =
      Same-Valid (recompute_status env b.trip_id (after_save env b w)).1 w' same
        (Moves-Valid (recompute_status-Moves env b.trip_id (after_save env b w)) v)

  pub request-Valid :
      (trip_id passenger_id seats : ℕ) (w : World)
      → Valid w
      → Valid (request env trip_id passenger_id seats w).1
  request-Valid trip_id passenger_id seats w v =
      let (t, effect) = request-effect env trip_id passenger_id seats w in
      elim effect [
        | inl same ↦ rw (t, same) v
        | inr e ↦
            rw (t, e)
              (save_seatless-IsValid env w.trips w.bookings v
                (new_booking env trip_id passenger_id seats w) (λ k. ground arith))
      ]

  pub reject-Valid : (id : ℕ) (w : World) → Valid w → Valid (reject env id w).1
  reject-Valid id w v =
      let (t, effect) = reject-effect env id w in
      elim effect [
        | inl same ↦ rw (t, same) v
        | inr (b, _, _, e) ↦
            rw (t, e)
              (save_seatless-IsValid env w.trips w.bookings v
                (decided BookingStatus.rejected w.now b) (λ k. ground arith))
      ]

  pub set_paid-Valid :
      (id : ℕ) (paid : Bool) (w : World) → Valid w → Valid (set_paid env id paid w).1
  set_paid-Valid id paid w v =
      let (t, effect) = set_paid-effect env id paid w in
      elim effect [
        | inl same ↦ rw (t, same) v
        | inr (b, found, _, e) ↦
            rw (t, e)
              (save_same-IsValid env w.trips w.bookings v b (record b { paid = paid })
                (bookings_repository.find_one_hit _ w.bookings b found).0 refl (λ k. refl))
      ]

  -- The transaction of `accept` keeps the capacity invariant, whatever copy of a booking it holds.
  pub accept_locked-Valid : (b : Booking) (w : World) → Valid w → Valid (accept_locked env b w).1
  accept_locked-Valid b w v = elim (accept_locked-effect env b w) [
    | inl same ↦ rw same v
    | inr (t, room, saved) ↦
        Same-Valid (after_save env (confirmed_at env w.now b) w) (accept_locked env b w).1 saved
          (confirmed_at-Valid b t w room v)
  ]

  pub accept-Valid : (id : ℕ) (w : World) → Valid w → Valid (accept env id w).1
  accept-Valid id w v = elim (accept-effect env id w) [
    | inl same ↦ rw same v
    | inr (b, _, (_, (t, room), saved)) ↦
        Recomputed-Valid (confirmed_at env w.now b) w (accept env id w).1 saved
          (confirmed_at-Valid b t w room v)
  ]

  pub cancel-Valid : (id : ℕ) (w : World) → Valid w → Valid (cancel env id w).1
  cancel-Valid id w v = elim (cancel-effect env id w) [
    | inl same ↦ rw same v
    | inr (b, _, left) ↦
        let freed : Valid (after_save env (withdrawn env w.now b) w) =
          save_seatless-IsValid env w.trips w.bookings v (withdrawn env w.now b)
            (λ k. ground arith) in
        elim left [
          | inl (_, saved) ↦
              Same-Valid (after_save env (withdrawn env w.now b) w) (cancel env id w).1 saved freed
          | inr (_, saved) ↦
              Recomputed-Valid (withdrawn env w.now b) w (cancel env id w).1 saved freed
        ]
  ]
