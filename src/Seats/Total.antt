-- ===== src/Seats/Total.antt =====
-- The two counts of confirmed seats against the sum over the table.
use gig_drive.Shared.{
  ℕ, ◌+◌, ◌==◌, true, ◌≡◌, List, [], ◌∷◌, foldl, lookup, lookup-insert, includes, get_or, sum_by,
  sum_by-ext, Bool-cases, ==_iff, inl, inr, foldl-sum_by, sum_by-ext, Bool-cases, ==_iff, inl, inr,
  arith, if◌then◌else◌,
}
use gig_drive.Entities.{Booking}
use gig_drive.Service.{World, Env}
use gig_drive.Repository.Queries.{sum_by-find}
use gig_drive.Seats.{
  confirmed_on, confirmed_total, count_confirmed_seats, confirmed_on_any, add_seats,
  count_confirmed_seats_for,
}

lookup-foldl :
    (k : ℕ) (m : List (ℕ × ℕ)) (bs : List Booking)
    → get_or (lookup k (foldl add_seats m bs)) 0
      ≡ get_or (lookup k m) 0 + sum_by (λ b. if b.trip_id == k then b.seats else 0) bs
lookup-foldl k m [] = omega arith
lookup-foldl k m (b ∷ bs) = ground (
  arith,
  lookup-foldl k (add_seats m b) bs,
  lookup-insert b.trip_id k (get_or (lookup b.trip_id m) 0 + b.seats) m,
)

seats_asked :
    (k : ℕ) (ids : List ℕ)
    → includes k ids ≡ true
    → (b : Booking)
    → (if confirmed_on_any ids b then (if b.trip_id == k then b.seats else 0) else 0)
      ≡ (if confirmed_on k b then b.seats else 0)
seats_asked k ids h b = elim (Bool-cases (b.trip_id == k)) [
  | inl e ↦
      let same : b.trip_id ≡ k = (==_iff b.trip_id k).0 e in
      let asked : includes b.trip_id ids ≡ true = rw same h in ground arith
  | inr e ↦ ground arith
]

module _ (env : Env) where
  -- `countConfirmedSeats` is the sum of the seats of the trip's confirmed bookings.
  pub count_confirmed_seats-total :
      (trip_id : ℕ) (w : World)
      → count_confirmed_seats env trip_id w ≡ confirmed_total trip_id w.bookings
  unfolding count_confirmed_seats
  count_confirmed_seats-total trip_id w = omega (
    arith,
    foldl-sum_by {A = Booking} (λ b. b.seats) 0
        (env.bookings_repository.find (confirmed_on trip_id) w.bookings),
    sum_by-find env.bookings_repository (λ b. b.seats) (confirmed_on trip_id) w.bookings,
  )

  -- The batch gives, for each trip that is asked for, the sum of the seats of its confirmed bookings.
  pub count_confirmed_seats_for-total :
      (trip_ids : List ℕ) (trip_id : ℕ) (w : World)
      → includes trip_id trip_ids ≡ true
      → get_or (lookup trip_id (count_confirmed_seats_for env trip_ids w)) 0
        ≡ confirmed_total trip_id w.bookings
  unfolding count_confirmed_seats_for
  count_confirmed_seats_for-total [] trip_id w h = cc
  count_confirmed_seats_for-total (id ∷ ids) trip_id w h =
      let asked = confirmed_on_any (id ∷ ids) in
      omega (
        arith,
        lookup-foldl trip_id [] (env.bookings_repository.find asked w.bookings),
        sum_by-find env.bookings_repository (λ b. if b.trip_id == trip_id then b.seats else 0) asked
            w.bookings,
        sum_by-ext _ (λ b. if confirmed_on trip_id b then b.seats else 0)
            (seats_asked trip_id (id ∷ ids) h) w.bookings,
      )
