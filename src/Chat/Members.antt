-- ===== src/Chat/Members.antt =====
-- The members of a trip chat: the driver of the trip, and the passengers with a confirmed booking on it.

use gig_drive.Shared.{
  ℕ, ◌==◌, ==_iff, true, false, ◌≡◌, refl, ◌∙◌, ◌⊎◌, inl, inr, Mem, arith, Option-cases, Bool-cases,
}
use gig_drive.Entities.{Trip, Booking, BookingStatus}
use gig_drive.Errors.{HttpError, ok, err, not_found, forbidden, Reason}
use gig_drive.Reviews.{is_passenger}
use gig_drive.Service.{World, Env}
use gig_drive.Chat.{is_trip_member, is_member, assert_member}

-- The driver of the trip, or the passenger of a confirmed booking, by the tables.
abbrev pub BelongsTo : ℕ → ℕ → World → Type 0
BelongsTo trip_id user_id w =
    (t : Trip) × Mem t w.trips
    × (t.id ≡ trip_id)
    × ((t.driver_id ≡ user_id)
        ⊎ ((b : Booking) × Mem b w.bookings
            × (b.trip_id ≡ trip_id)
            × (b.passenger_id ≡ user_id)
            × (b.status ≡ BookingStatus.confirmed)))

module _ (env : Env) where
  open env use {trips_repository, bookings_repository}

  -- `assertMember` passes for a member, it throws for anybody else, and it writes nothing.
  pub assert_member-cases :
      (trip_id user_id : ℕ) (w : World)
      → ((assert_member env trip_id user_id w ≡ (ok tt, w))
          × (is_member env trip_id user_id w ≡ true))
        ⊎ ((e : HttpError) × (assert_member env trip_id user_id w ≡ (err e, w))
            × (is_member env trip_id user_id w ≡ false))
  unfolding assert_member is_member
  assert_member-cases trip_id user_id w =
      elim (Option-cases (trips_repository.find_one (λ t. t.id == trip_id) w.trips)) [
        | inl e ↦ inr (not_found Reason.trip_not_found, rw e refl, rw e refl)
        | inr (t, e) ↦ elim (Bool-cases (is_trip_member env t user_id w)) [
          | inl m ↦ inl (rw (e, m) refl, rw (e, m) refl)
          | inr m ↦ inr (forbidden Reason.not_a_chat_member, rw (e, m) refl, rw (e, m) refl)
        ]
      ]

  passenger-columns :
      (trip_id user_id : ℕ) (b : Booking)
      → is_passenger trip_id user_id b ≡ true
      → (b.trip_id ≡ trip_id) × (b.passenger_id ≡ user_id) × (b.status ≡ BookingStatus.confirmed)
  passenger-columns trip_id user_id b h = ground arith

  -- Whoever `isMember` accepts belongs to the trip.
  pub is_member-BelongsTo :
      (trip_id user_id : ℕ) (w : World)
      → is_member env trip_id user_id w ≡ true
      → BelongsTo trip_id user_id w
  unfolding is_member is_trip_member
  is_member-BelongsTo trip_id user_id w h =
      elim (Option-cases (trips_repository.find_one (λ t. t.id == trip_id) w.trips)) [
        | inl e ↦ absurd (ground arith)
        | inr (t, e) ↦
            let (m, own) = trips_repository.find_one_hit _ w.trips t e in
            let id = (==_iff _ _).0 own in
            elim (Bool-cases (t.driver_id == user_id)) [
              | inl drives ↦ (t, m, id, inl ((==_iff _ _).0 drives))
              | inr other ↦
                  elim (Option-cases
                    (bookings_repository.find_one (is_passenger t.id user_id) w.bookings)) [
                      | inl d ↦ absurd (ground arith)
                      | inr (b, d) ↦
                          let (n, columns) = bookings_repository.find_one_hit _ w.bookings b d in
                          let (on, by, confirmed) = passenger-columns t.id user_id b columns in
                          (t, m, id, inr (b, n, on ∙ id, by, confirmed))
                    ]
            ]
      ]
