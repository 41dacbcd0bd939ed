-- ===== src/Capacity.antt =====
-- The capacity of trips as an invariant of the tables, and the writes of rows.
use mathlib.Core.Logic.Or
use native.Mathlib.Bridge.{le_prop}
use gig_drive.Shared.{
  ℕ, ◌+◌, ◌≤◌, ◌≡◌, List, Mem, arith, Keyed, count_key, count_key-unused, mem-weight_at, weight_at,
  weight_at-none, weight_at-Keyed, if◌then◌else◌,
}
use gig_drive.Entities.{Trip, Booking}
use gig_drive.Repository.Queries.{
  mem-save, sum_by-save, sum_by-save-le, Keyed-save, count_key-save-ge,
}
use gig_drive.Service.{World, Env}
use gig_drive.Seats.{confirmed_on, confirmed_total}

-- What a booking takes of the seats of a trip.
abbrev pub seats_taken : ℕ → Booking → ℕ
seats_taken trip_id b = if confirmed_on trip_id b then b.seats else 0

pub record IsValid (trips : List Trip) (bookings : List Booking) : Type 0 where
  pub within : (t : Trip) → Mem t trips → confirmed_total t.id bookings ≤ t.max_passengers
  pub trips_keyed : Keyed (λ (t : Trip). t.id) trips
  pub bookings_keyed : Keyed (λ (b : Booking). b.id) bookings
  -- The foreign key: there are no bookings of a trip that is not there.
  pub booked : (k : ℕ) → count_key (λ (t : Trip). t.id) k trips ≡ 0 → confirmed_total k bookings ≡ 0

abbrev pub Valid : World → Type 0
Valid w = IsValid w.trips w.bookings

module _ (env : Env) (trips : List Trip) (bookings : List Booking)
    (v : IsValid trips bookings) where
  open env use {trips_repository, bookings_repository}

  -- A booking may be written if every trip has room for it, whatever it replaces.
  pub save_booking-IsValid :
      (b : Booking)
      → ((t : Trip)
          → Mem t trips
          → confirmed_total t.id bookings + seats_taken t.id b ≤ t.max_passengers)
      → ((k : ℕ) → count_key (λ (t : Trip). t.id) k trips ≡ 0 → seats_taken k b ≡ 0)
      → IsValid trips (bookings_repository.save b bookings)
  save_booking-IsValid b room known = record {
    within = λ t m.
        omega (arith, room t m, sum_by-save-le bookings_repository (seats_taken t.id) b bookings);
    trips_keyed = v.trips_keyed;
    bookings_keyed = Keyed-save bookings_repository b bookings v.bookings_keyed;
    booked = λ k none. omega (
      arith,
      known k none,
      v.booked k none,
      sum_by-save-le bookings_repository (seats_taken k) b bookings,
    );
  }

  -- A booking that takes no seat can be written at any time.
  pub save_seatless-IsValid :
      (b : Booking)
      → ((k : ℕ) → seats_taken k b ≡ 0)
      → IsValid trips (bookings_repository.save b bookings)
  save_seatless-IsValid b free =
      save_booking-IsValid b (λ t m. omega (arith, free t.id, v.within t m)) (λ k none. free k)

  -- So can one that takes the seats of the row which it replaces.
  pub save_same-IsValid :
      (old b : Booking)
      → Mem old bookings
      → old.id ≡ b.id
      → ((k : ℕ) → seats_taken k b ≡ seats_taken k old)
      → IsValid trips (bookings_repository.save b bookings)
  save_same-IsValid old b m e same = record {
    within = λ t n. omega (arith, kept t.id, v.within t n);
    trips_keyed = v.trips_keyed;
    bookings_keyed = Keyed-save bookings_repository b bookings v.bookings_keyed;
    booked = λ k none. omega (arith, kept k, v.booked k none);
  }
    where
      kept :
          (k : ℕ)
          → confirmed_total k (bookings_repository.save b bookings) ≤ confirmed_total k bookings
      kept k =
          let replaced : seats_taken k old
              ≤ weight_at (λ (x : Booking). x.id) (seats_taken k) b.id bookings =
            rw (← e) (mem-weight_at (λ (x : Booking). x.id) (seats_taken k) old bookings m) in
          omega (
            arith,
            same k,
            replaced,
            sum_by-save bookings_repository (seats_taken k) b bookings v.bookings_keyed,
          )

  -- A trip may be written if it offers the seats that are confirmed on it.
  pub save_trip-IsValid :
      (t : Trip)
      → confirmed_total t.id bookings ≤ t.max_passengers
      → IsValid (trips_repository.save t trips) bookings
  save_trip-IsValid t room = record {
    within = λ u m.
        Or.elim le_prop (mem-save trips_repository u t trips m) (λ e. rw e room)
          (λ n. v.within u n);
    trips_keyed = Keyed-save trips_repository t trips v.trips_keyed;
    bookings_keyed = v.bookings_keyed;
    booked =
        λ k none. v.booked k (omega (arith, none, count_key-save-ge trips_repository k t trips));
  }

-- What the write of a booking does to the seats of every trip.
module _ (env : Env) (bookings : List Booking) (k : Keyed (λ (b : Booking). b.id) bookings) where
  open env use {bookings_repository}

  pub save_row-total :
      (old b : Booking) (trip_id : ℕ)
      → Mem old bookings
      → old.id ≡ b.id
      → confirmed_total trip_id (bookings_repository.save b bookings) + seats_taken trip_id old
        ≡ confirmed_total trip_id bookings + seats_taken trip_id b
  save_row-total old b trip_id m e =
      let replaced : weight_at (λ (x : Booking). x.id) (seats_taken trip_id) b.id bookings
          ≡ seats_taken trip_id old =
        rw (← e) (weight_at-Keyed (λ (x : Booking). x.id) (seats_taken trip_id) old bookings k m) in
      omega (arith, replaced, sum_by-save bookings_repository (seats_taken trip_id) b bookings k)

  pub save_new-total :
      (b : Booking) (trip_id : ℕ)
      → b.id ≡ bookings_repository.new_id bookings
      → confirmed_total trip_id (bookings_repository.save b bookings)
        ≡ confirmed_total trip_id bookings + seats_taken trip_id b
  save_new-total b trip_id e =
      let unused =
        count_key-unused (λ (x : Booking). x.id) (bookings_repository.new_id bookings) bookings
          (bookings_repository.new_id_unused bookings) in
      let replaced =
        weight_at-none (λ (x : Booking). x.id) (seats_taken trip_id) b.id bookings (rw e unused) in
      omega (arith, replaced, sum_by-save bookings_repository (seats_taken trip_id) b bookings k)
