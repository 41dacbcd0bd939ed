-- ===== src/Reviewable.antt =====
-- `reviewableTripIds` of backend/src/reviews/reviews.service.ts: the trips a passenger may still review.
use gig_drive.Shared.{ℕ, ◌==◌, ltb, not, ◌&&◌, List, includes, map, unique, filter}
use gig_drive.Entities.{BookingStatus, same_booking_status}
use gig_drive.Service.{World, Env}

module _ (env : Env) where
  -- The trips among `trip_ids` on which the passenger has a confirmed booking.
  abbrev pub confirmed_ids : ℕ → List ℕ → World → List ℕ
  confirmed_ids author_id trip_ids w =
      map (λ b. b.trip_id)
        (env.bookings_repository.find
          (λ b.
            b.passenger_id == author_id
            && (includes b.trip_id (unique trip_ids)
                && same_booking_status b.status BookingStatus.confirmed))
          w.bookings)

  abbrev pub reviewed_ids : ℕ → List ℕ → World → List ℕ
  reviewed_ids author_id trip_ids w =
      map (λ r. r.trip_id)
        (env.reviews_repository.find (λ r. r.author_id == author_id && includes r.trip_id trip_ids)
          w.reviews)

  abbrev pub past_concert_ids : List ℕ → World → List ℕ
  past_concert_ids concert_ids w =
      map (λ c. c.id)
        (filter (λ c. ltb c.start_at w.now)
          (env.concerts_repository.find (λ c. includes c.id concert_ids) w.concerts))

  unfoldable pub reviewable_trip_ids : ℕ → List ℕ → World → List ℕ
  reviewable_trip_ids author_id trip_ids w =
      let confirmed = confirmed_ids author_id trip_ids w in
      let reviewed = reviewed_ids author_id confirmed w in
      let candidates = filter (λ id. not (includes id reviewed)) confirmed in
      let trips = env.trips_repository.find (λ t. includes t.id candidates) w.trips in
      let past = past_concert_ids (unique (map (λ t. t.concert_id) trips)) w in
      map (λ t. t.id) (filter (λ t. includes t.concert_id past) trips)
