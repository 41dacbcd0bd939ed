-- ===== src/Bookings/Status.antt =====
-- The booking calls, and the status of a trip against its confirmed seats.
use gig_drive.Shared.{ℕ, ◌==◌, Bool, true, false, ◌≡◌, ◌≢◌, refl, inl, inr, some, List, Mem, arith}
use gig_drive.Entities.{BookingStatus, Trip, Booking}
use gig_drive.Service.{World, Env}
use gig_drive.Capacity.{Valid, seats_taken, save_row-total, save_new-total}
use gig_drive.Seats.{confirmed_total}
use gig_drive.Trips.{recompute_status}
use gig_drive.Synced.{Synced, in_sync, recompute_status-Synced}
use gig_drive.Bookings.{decided, new_booking, request, accept, reject, cancel, set_paid}
use gig_drive.Bookings.Effects.{
  Recomputed, Same, after_save, confirmed_at, withdrawn, found_booking, accept-effect,
  cancel-effect, reject-effect, request-effect, set_paid-effect,
}

Same-Synced : (w w' : World) → Same w w' → Synced w → Synced w'
Same-Synced w w' (trips, bookings) s = rw (trips, bookings) s

in_sync-total :
    (t : Trip) (before after : List Booking)
    → confirmed_total t.id after ≡ confirmed_total t.id before
    → in_sync before t ≡ true
    → in_sync after t ≡ true
in_sync-total t before after e h = rw e h

module _ (env : Env) where
  open env use {trips_repository, bookings_repository}

  -- A row that keeps its trip and its seats leaves the trips in step, and one that keeps its trip
  -- leaves the others in step.
  save_same-Synced :
      (old b : Booking) (w : World)
      → Valid w
      → Synced w
      → Mem old w.bookings
      → old.id ≡ b.id
      → ((k : ℕ) → seats_taken k b ≡ seats_taken k old)
      → Synced (after_save env b w)
  save_same-Synced old b w v s m e same t n =
      let total = save_row-total env w.bookings v.bookings_keyed old b t.id m e in
      in_sync-total t w.bookings _ (omega (arith, total, same t.id)) (s t n)

  save_others :
      (old b : Booking) (w : World)
      → Valid w
      → Synced w
      → Mem old w.bookings
      → old.id ≡ b.id
      → old.trip_id ≡ b.trip_id
      → (t : Trip) → Mem t w.trips
      → t.id ≢ b.trip_id
      → in_sync (after_save env b w).bookings t ≡ true
  save_others old b w v s m e d t n other =
      let total = save_row-total env w.bookings v.bookings_keyed old b t.id m e in
      let apart : b.trip_id == t.id ≡ false = ground arith in
      let apart' : old.trip_id == t.id ≡ false = rw d apart in
      in_sync-total t w.bookings _ (ground arith) (s t n)

  Recomputed-Synced :
      (old b : Booking) (w w' : World)
      → Valid w
      → Synced w
      → Mem old w.bookings
      → old.id ≡ b.id
      → old.trip_id ≡ b.trip_id
      → Recomputed env b w w'
      → Synced w'
  Recomputed-Synced old b w w' v s m e d same =
      Same-Synced (recompute_status env b.trip_id (after_save env b w)).1 w' same (
        recompute_status-Synced env b.trip_id (after_save env b w) v.trips_keyed
          (save_others old b w v s m e d))

  found-Mem :
      (id : ℕ) (b : Booking) (w : World) → found_booking env id w ≡ some b → Mem b w.bookings
  found-Mem id b w e = (bookings_repository.find_one_hit _ w.bookings b e).0

  pub request-Synced :
      (trip_id passenger_id seats : ℕ) (w : World)
      → Valid w
      → Synced w
      → Synced (request env trip_id passenger_id seats w).1
  request-Synced trip_id passenger_id seats w v s =
      let (t, effect) = request-effect env trip_id passenger_id seats w in
      elim effect [
        | inl same ↦ rw (t, same) s
        | inr e ↦
            rw (t, e)
              λ u n.
                let b = new_booking env trip_id passenger_id seats w in
                let total = save_new-total env w.bookings v.bookings_keyed b u.id refl in
                in_sync-total u w.bookings _ (ground arith) (s u n)
      ]

  pub reject-Synced : (id : ℕ) (w : World) → Valid w → Synced w → Synced (reject env id w).1
  reject-Synced id w v s =
      let (t, effect) = reject-effect env id w in
      elim effect [
        | inl same ↦ rw (t, same) s
        | inr (b, found, pending, e) ↦
            Same-Synced (after_save env (decided BookingStatus.rejected w.now b) w)
              (reject env id w).1 (t, e)
              (save_same-Synced b (decided BookingStatus.rejected w.now b) w v s
                (found-Mem id b w found) refl (λ k. ground arith))
      ]

  pub set_paid-Synced :
      (id : ℕ) (paid : Bool) (w : World) → Valid w → Synced w → Synced (set_paid env id paid w).1
  set_paid-Synced id paid w v s =
      let (t, effect) = set_paid-effect env id paid w in
      elim effect [
        | inl same ↦ rw (t, same) s
        | inr (b, found, _, e) ↦
            Same-Synced (after_save env (record b { paid = paid }) w) (set_paid env id paid w).1
              (t, e)
              (save_same-Synced b (record b { paid = paid }) w v s (found-Mem id b w found) refl
                (λ k. refl))
      ]

  pub accept-Synced : (id : ℕ) (w : World) → Valid w → Synced w → Synced (accept env id w).1
  accept-Synced id w v s = elim (accept-effect env id w) [
    | inl same ↦ rw same s
    | inr (b, found, (_, _, saved)) ↦
        Recomputed-Synced b (confirmed_at env w.now b) w (accept env id w).1 v s
          (found-Mem id b w found) refl refl saved
  ]

  pub cancel-Synced : (id : ℕ) (w : World) → Valid w → Synced w → Synced (cancel env id w).1
  cancel-Synced id w v s = elim (cancel-effect env id w) [
    | inl same ↦ rw same s
    | inr (b, found, left) ↦
        let gone = withdrawn env w.now b in
        let m = found-Mem id b w found in
        elim left [
          | inl (pending, saved) ↦
              Same-Synced (after_save env gone w) (cancel env id w).1 saved
                (save_same-Synced b gone w v s m refl (λ k. ground arith))
          | inr (_, saved) ↦ Recomputed-Synced b gone w (cancel env id w).1 v s m refl refl saved
        ]
  ]
