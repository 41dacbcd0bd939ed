-- ===== src/Reviews/Offered.antt =====
-- `reviewableTripIds` against the guard and the check of `create`, in backend/src/reviews.
use mathlib.Core.List.{mem-cons_self, mem-cons_of_mem, mem-cons, not-mem-nil}
use mathlib.Core.Logic.Or
use mathlib.Core.Bool.{Bool-set}
use gig_drive.Shared.{
  ℕ, ◌==◌, ==_iff, ltb, Bool, true, false, not, ◌&&◌, ◌≡◌, ◌∙◌, sym, ap, ◌⊎◌, inl, inr, none, some,
  List, [], ◌∷◌, Mem, arith, Bool-cases, Option-cases, Keyed, mem-key-eq, includes, map, unique,
  filter, filter-passes, mem-filter,
}
use gig_drive.Entities.{BookingStatus, same_booking_status, Trip, Concert, Booking, Review, Text}
use gig_drive.Errors.{ok, err, conflict, Reason}
use gig_drive.Repository.Queries.{mem-find, find-passes, mem-find_true}
use gig_drive.Service.{World, Env}
use gig_drive.Reviewable.{confirmed_ids, reviewed_ids, past_concert_ids, reviewable_trip_ids}
use gig_drive.Reviews.{create, new_review, can_activate, existing_review, is_passenger}

-- A number that is found among the values of a list is the value of one of its elements.
includes-map :
    {A : Type 0} (f : A → ℕ) (k : ℕ) (xs : List A)
    → includes k (map f xs) ≡ true
    → (x : A) × Mem x xs × (f x ≡ k)
includes-map f k [] h = cc
includes-map f k (x ∷ xs) h = elim (Bool-cases (f x == k)) [
  | inl e ↦ (x, mem-cons_self, (==_iff (f x) k).0 e)
  | inr e ↦ let (y, m, d) = includes-map f k xs (ground arith) in (y, mem-cons_of_mem x m, d)
]

mem-includes-map :
    {A : Type 0} (f : A → ℕ) (a : A) (xs : List A) → Mem a xs → includes (f a) (map f xs) ≡ true
mem-includes-map f a [] m = absurd (not-mem-nil m)
mem-includes-map f a (x ∷ xs) m =
    Or.elim (Bool-set _ _) (mem-cons.0 m)
      (λ e. let same : f x == f a ≡ true = (==_iff (f x) (f a)).1 (sym (ap f e)) in ground arith)
      (λ n. let rest = mem-includes-map f a xs n in ground arith)

includes-filter :
    (p : ℕ → Bool) (k : ℕ) (xs : List ℕ)
    → includes k (filter p xs) ≡ true
    → (p k ≡ true) × (includes k xs ≡ true)
includes-filter p k [] h = cc
includes-filter p k (x ∷ xs) h = elim (Bool-cases (p x)) [
  | inl e ↦ elim (Bool-cases (x == k)) [
    | inl d ↦ let same : x ≡ k = (==_iff x k).0 d in (rw same at e, ground arith)
    | inr d ↦ let (a, b) = includes-filter p k xs (rw (e, d) at h) in (a, ground arith)
  ]
  | inr e ↦ let (a, b) = includes-filter p k xs (rw e at h) in (a, ground arith)
]

module _ (env : Env) where
  open env use {trips_repository, concerts_repository, bookings_repository, reviews_repository}

  confirmed_ids-booking :
      (author_id : ℕ) (ids : List ℕ) (w : World) (k : ℕ)
      → includes k (confirmed_ids env author_id ids w) ≡ true
      → (b : Booking) × Mem b w.bookings × (is_passenger k author_id b ≡ true)
  confirmed_ids-booking author_id ids w k h =
      let p = λ (b : Booking).
        b.passenger_id == author_id
        && (includes b.trip_id (unique ids)
            && same_booking_status b.status BookingStatus.confirmed) in
      let (b, m, e) =
        includes-map (λ (b : Booking). b.trip_id) k (bookings_repository.find p w.bookings) h in
      (
        b,
        mem-find bookings_repository p b w.bookings m,
        ground (arith, find-passes bookings_repository p b w.bookings m),
      )

  past_concert_ids-concert :
      (ids : List ℕ) (w : World) (k : ℕ)
      → includes k (past_concert_ids env ids w) ≡ true
      → (c : Concert) × Mem c w.concerts × (c.id ≡ k) × (ltb c.start_at w.now ≡ true)
  past_concert_ids-concert ids w k h =
      let p = λ (c : Concert). includes c.id ids in
      let past = λ (c : Concert). ltb c.start_at w.now in
      let found = concerts_repository.find p w.concerts in
      let (c, m, e) = includes-map (λ (c : Concert). c.id) k (filter past found) h in
      (
        c,
        mem-find concerts_repository p c w.concerts (mem-filter past c found m),
        e,
        filter-passes past c found m,
      )

  not_reviewed :
      (author_id : ℕ) (ids : List ℕ) (w : World) (k : ℕ)
      → includes k ids ≡ true
      → includes k (reviewed_ids env author_id ids w) ≡ false
      → existing_review env k author_id w ≡ none
  not_reviewed author_id ids w k asked h = elim (Option-cases (existing_review env k author_id w)) [
    | inl e ↦ e
    | inr (r, e) ↦
        let (m, hit) = reviews_repository.find_one_hit _ w.reviews r e in
        let own : r.trip_id ≡ k = ground arith in
        let p = λ (r : Review). r.author_id == author_id && includes r.trip_id ids in
        let there =
          mem-includes-map (λ (r : Review). r.trip_id) r (reviews_repository.find p w.reviews)
            (mem-find_true reviews_repository p r w.reviews m (rw own (ground arith))) in
        ground (arith, (rw own at there))
  ]

  trip_found :
      (t : Trip) (w : World)
      → Keyed (λ (t : Trip). t.id) w.trips
      → Mem t w.trips
      → (u : Trip) × (trips_repository.find_one (λ x. x.id == t.id) w.trips ≡ some u)
        × (u.concert_id ≡ t.concert_id)
  trip_found t w k m = elim (Option-cases (trips_repository.find_one (λ x. x.id == t.id) w.trips)) [
    | inl e ↦ ground (arith, trips_repository.find_one_miss _ w.trips e t m)
    | inr (u, e) ↦
        let (n, hit) = trips_repository.find_one_hit _ w.trips u e in
        (
          u,
          e,
          mem-key-eq (λ (t : Trip). t.id) (λ t. t.concert_id) u t w.trips k n m
              ((==_iff u.id t.id).0 hit),
        )
  ]

  concert_found :
      (c : Concert) (w : World)
      → Keyed (λ (c : Concert). c.id) w.concerts
      → Mem c w.concerts
      → (d : Concert) × (concerts_repository.find_one (λ x. x.id == c.id) w.concerts ≡ some d)
        × (d.start_at ≡ c.start_at)
  concert_found c w k m =
      elim (Option-cases (concerts_repository.find_one (λ x. x.id == c.id) w.concerts)) [
        | inl e ↦ ground (arith, concerts_repository.find_one_miss _ w.concerts e c m)
        | inr (d, e) ↦
            let (n, hit) = concerts_repository.find_one_hit _ w.concerts d e in
            (
              d,
              e,
              mem-key-eq (λ (c : Concert). c.id) (λ c. c.start_at) d c w.concerts k n m
                  ((==_iff d.id c.id).0 hit),
            )
      ]

  can_activate-passes :
      (author_id k : ℕ) (w : World) (u : Trip) (d : Concert) (b : Booking)
      → trips_repository.find_one (λ t. t.id == k) w.trips ≡ some u
      → concerts_repository.find_one (λ c. c.id == u.concert_id) w.concerts ≡ some d
      → ltb d.start_at w.now ≡ true
      → Mem b w.bookings
      → is_passenger k author_id b ≡ true
      → can_activate env (some author_id) k w ≡ (ok tt, w)
  unfolding can_activate
  can_activate-passes author_id k w u d b e f past m p =
      elim (Option-cases (bookings_repository.find_one (is_passenger k author_id) w.bookings)) [
        | inl none_found ↦
            ground (arith, bookings_repository.find_one_miss _ w.bookings none_found b m)
        | inr (c, found) ↦ ground arith
      ]

  -- If the ids of the trips and of the concerts are unique, then each trip that a passenger is offered to
  -- review lets the passenger through the guard, and has no review of the passenger yet.
  pub reviewable_trip_ids-accepted :
      (author_id : ℕ) (ids : List ℕ) (w : World) (k : ℕ)
      → Keyed (λ (t : Trip). t.id) w.trips
      → Keyed (λ (c : Concert). c.id) w.concerts
      → includes k (reviewable_trip_ids env author_id ids w) ≡ true
      → (can_activate env (some author_id) k w ≡ (ok tt, w))
        × (existing_review env k author_id w ≡ none)
  unfolding reviewable_trip_ids
  reviewable_trip_ids-accepted author_id ids w k trips concerts h =
      let confirmed = confirmed_ids env author_id ids w in
      let fresh = λ (id : ℕ). not (includes id (reviewed_ids env author_id confirmed w)) in
      let p = λ (t : Trip). includes t.id (filter fresh confirmed) in
      let found = trips_repository.find p w.trips in
      let past = past_concert_ids env (unique (map (λ (t : Trip). t.concert_id) found)) w in
      let q = λ (t : Trip). includes t.concert_id past in
      let (t, m, own) = includes-map (λ (t : Trip). t.id) k (filter q found) h in
      let n = mem-filter q t found m in
      let (c, o, at_concert, is_past) =
        past_concert_ids-concert _ w t.concert_id (filter-passes q t found m) in
      let (not_yet, booked) =
        includes-filter fresh t.id confirmed (find-passes trips_repository p t w.trips n) in
      let (b, r, passenger) = confirmed_ids-booking author_id ids w t.id booked in
      let (u, found_trip, same_concert) =
        trip_found t w trips (mem-find trips_repository p t w.trips n) in
      let (d, found_concert, same_start) = concert_found c w concerts o in
      rw (← own) (
        can_activate-passes author_id t.id w u d b found_trip
            (rw (same_concert ∙ sym at_concert) found_concert) (rw same_start is_past) r passenger,
        not_reviewed author_id confirmed w t.id booked (ground arith),
      )

  -- A passenger who has reviewed a trip is refused and nothing is written, and otherwise the review is
  -- written, with its comment trimmed.
  pub create-once :
      (trip_id author_id rating : ℕ) (comment : Text) (w : World)
      → ((existing_review env trip_id author_id w ≡ none)
          × ((create env trip_id author_id rating comment w).1 ≡ record w {
            reviews =
                reviews_repository.save
                  (new_review env trip_id author_id rating comment w)
                  w.reviews;
          }))
        ⊎ (create env trip_id author_id rating comment w
            ≡ (err (conflict Reason.already_reviewed), w))
  unfolding create
  create-once trip_id author_id rating comment w = ground arith
