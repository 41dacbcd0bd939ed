-- ===== src/Bookings/Single.antt =====
-- The booking calls, and the number of requests and bookings that a passenger holds on a trip.
use mathlib.Core.List.{mem-cons_self, mem-cons_of_mem}
use gig_drive.Shared.{
  ℕ, ◌+◌, ◌≤◌, Bool, true, false, ◌≡◌, refl, inl, inr, some, List, [], ◌∷◌, Mem, arith, sum_by,
  weight_at, weight_at-Keyed, if◌then◌else◌,
}
use gig_drive.Entities.{BookingStatus, Booking}
use gig_drive.Repository.Queries.{sum_by-save, sum_by-save-le}
use gig_drive.Service.{World, Env}
use gig_drive.Capacity.{Valid}
use gig_drive.Waitlist.{holds_booking, is_active_booking}
use gig_drive.Trips.Effects.{Moves, stays, moves, follows, recompute_status-effect}
use gig_drive.Bookings.{request, new_booking, decided, accept, reject, cancel, set_paid}
use gig_drive.Bookings.Effects.{
  found_booking, after_save, Recomputed, confirmed_at, withdrawn, accept-effect, reject-effect,
  cancel-effect, set_paid-effect,
}
use gig_drive.Bookings.Requests.{request-checks}

-- The requests and bookings of a passenger on a trip.
abbrev pub held : ℕ → ℕ → List Booking → ℕ
held trip_id passenger_id = sum_by λ b. if holds_booking trip_id passenger_id b then 1 else 0

abbrev pub IsSingle : List Booking → Type 0
IsSingle bookings = (trip_id passenger_id : ℕ) → held trip_id passenger_id bookings ≤ 1

held-none :
    (trip_id passenger_id : ℕ) (bookings : List Booking)
    → ((b : Booking) → Mem b bookings → holds_booking trip_id passenger_id b ≡ false)
    → held trip_id passenger_id bookings ≡ 0
held-none trip_id passenger_id [] h = refl
held-none trip_id passenger_id (b ∷ bookings) h =
    let first = h b mem-cons_self in
    ground (arith, held-none trip_id passenger_id bookings (λ c m. h c (mem-cons_of_mem b m)))

inactive-le :
    (b c : Booking)
    → is_active_booking c.status ≡ false
    → (t p : ℕ) → (if holds_booking t p c then 1 else 0) ≤ (if holds_booking t p b then 1 else 0)
inactive-le b c h t p = ground arith

active-le :
    (b c : Booking)
    → is_active_booking b.status ≡ true
    → c.trip_id ≡ b.trip_id
    → c.passenger_id ≡ b.passenger_id
    → (t p : ℕ) → (if holds_booking t p c then 1 else 0) ≤ (if holds_booking t p b then 1 else 0)
active-le b c h d e t p = ground arith

-- A booking may be added if its passenger holds none on its trip.
room :
    (t p trip_id passenger_id : ℕ) (b : Booking)
    → b.trip_id ≡ trip_id
    → b.passenger_id ≡ passenger_id
    → (n : ℕ) → n ≤ 1
    → (t ≡ trip_id → p ≡ passenger_id → n ≡ 0)
    → (m : ℕ) → m ≤ n + (if holds_booking t p b then 1 else 0)
    → m ≤ 1
room t p trip_id passenger_id b d e n s free m h = ground arith

active-pending :
    (b : Booking) → b.status ≡ BookingStatus.pending → is_active_booking b.status ≡ true
unfolding is_active_booking
active-pending b h = ground arith

active-confirmed :
    (b : Booking) → b.status ≡ BookingStatus.confirmed → is_active_booking b.status ≡ true
unfolding is_active_booking
active-confirmed b h = ground arith

inactive-rejected : is_active_booking BookingStatus.rejected ≡ false
unfolding is_active_booking
inactive-rejected = refl

inactive-cancelled : is_active_booking BookingStatus.cancelled_by_passenger ≡ false
unfolding is_active_booking
inactive-cancelled = refl

pub Moves-Single :
    {env : Env} {w w' : World} → Moves env w w' → IsSingle w.bookings → IsSingle w'.bookings
Moves-Single (stays _ b) s = rw b s
Moves-Single (moves _ _ _ _ _ _ b) s = rw b s
Moves-Single (follows m n) s = Moves-Single n (Moves-Single m s)

module _ (env : Env) where
  open env use {bookings_repository}

  -- A row may be written again if it counts no more than before.
  save_row-Single :
      (old b : Booking) (w : World)
      → Valid w
      → IsSingle w.bookings
      → Mem old w.bookings
      → old.id ≡ b.id
      → ((t p : ℕ)
          → (if holds_booking t p b then 1 else 0) ≤ (if holds_booking t p old then 1 else 0))
      → IsSingle (bookings_repository.save b w.bookings)
  save_row-Single old b w v s m e less t p =
      let weight : Booking → ℕ = λ b. if holds_booking t p b then 1 else 0 in
      let replaced : weight_at (λ (x : Booking). x.id) weight b.id w.bookings ≡ weight old =
        rw (← e)
          (weight_at-Keyed (λ (x : Booking). x.id) weight old w.bookings v.bookings_keyed m) in
      omega (
        arith,
        s t p,
        less t p,
        replaced,
        sum_by-save bookings_repository weight b w.bookings v.bookings_keyed,
      )

  Recomputed-Single :
      (b : Booking) (w w' : World)
      → Recomputed env b w w'
      → IsSingle (after_save env b w).bookings
      → IsSingle w'.bookings
  Recomputed-Single b w w' (_, same) s =
      rw (same, (recompute_status-effect env b.trip_id (after_save env b w)).0) s

  found-Mem :
      (id : ℕ) (b : Booking) (w : World) → found_booking env id w ≡ some b → Mem b w.bookings
  found-Mem id b w e = (bookings_repository.find_one_hit _ w.bookings b e).0

  pub request-Single :
      (trip_id passenger_id seats : ℕ) (w : World)
      → IsSingle w.bookings
      → IsSingle (request env trip_id passenger_id seats w).1.bookings
  request-Single trip_id passenger_id seats w s =
      elim (request-checks env trip_id passenger_id seats w) [
        | inl same ↦ rw same s
        | inr (_, _, (_, _, free, _), e) ↦ rw e λ t p.
            let b = new_booking env trip_id passenger_id seats w in
            let none_held =
              held-none trip_id passenger_id w.bookings
                (bookings_repository.find_one_miss _ w.bookings free) in
            let grown =
              sum_by-save-le bookings_repository (λ b. if holds_booking t p b then 1 else 0) b
                w.bookings in
            room t p trip_id passenger_id b refl refl (held t p w.bookings) (s t p)
              (λ d e. rw (d, e) none_held) _ grown
      ]

  pub reject-Single :
      (id : ℕ) (w : World) → Valid w → IsSingle w.bookings → IsSingle (reject env id w).1.bookings
  reject-Single id w v s =
      let (t, effect) = reject-effect env id w in
      elim effect [
        | inl same ↦ rw same s
        | inr (b, found, pending, e) ↦ rw e (
            save_row-Single b (decided BookingStatus.rejected w.now b) w v s
              (found-Mem id b w found) refl
              (inactive-le b (decided BookingStatus.rejected w.now b) inactive-rejected))
      ]

  pub set_paid-Single :
      (id : ℕ) (paid : Bool) (w : World)
      → Valid w
      → IsSingle w.bookings
      → IsSingle (set_paid env id paid w).1.bookings
  set_paid-Single id paid w v s =
      let (t, effect) = set_paid-effect env id paid w in
      elim effect [
        | inl same ↦ rw same s
        | inr (b, found, confirmed, e) ↦ rw e (
            save_row-Single b (record b { paid = paid }) w v s (found-Mem id b w found) refl
              (active-le b (record b { paid = paid }) (active-confirmed b confirmed) refl refl))
      ]

  pub accept-Single :
      (id : ℕ) (w : World) → Valid w → IsSingle w.bookings → IsSingle (accept env id w).1.bookings
  accept-Single id w v s = elim (accept-effect env id w) [
    | inl same ↦ rw same s
    | inr (b, found, (pending, _, saved)) ↦
        let c = confirmed_at env w.now b in
        Recomputed-Single c w (accept env id w).1 saved (
          save_row-Single b c w v s (found-Mem id b w found) refl
            (active-le b c (active-pending b pending) refl refl))
  ]

  pub cancel-Single :
      (id : ℕ) (w : World) → Valid w → IsSingle w.bookings → IsSingle (cancel env id w).1.bookings
  cancel-Single id w v s = elim (cancel-effect env id w) [
    | inl same ↦ rw same s
    | inr (b, found, left) ↦
        let gone = withdrawn env w.now b in
        let freed =
          save_row-Single b gone w v s (found-Mem id b w found) refl
            (inactive-le b gone inactive-cancelled) in
        elim left [
          | inl (_, (_, saved)) ↦ rw saved freed
          | inr (_, saved) ↦ Recomputed-Single gone w (cancel env id w).1 saved freed
        ]
  ]
