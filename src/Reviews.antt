-- ===== src/Reviews.antt =====
-- backend/src/reviews/reviews.service.ts and guards/review-eligibility.guard.ts: writing a review of the
-- driver of a trip, and the reviews of a driver. An id that is no uuid is in no table.
pub mod Offered
use gig_drive.Shared.{ℕ, ◌==◌, leb, ltb, not, ◌&&◌, Bool, Option, none, some, List, is_some, map}
use gig_drive.Shared.Sort.{sort_by}
use gig_drive.Entities.{Text, BookingStatus, same_booking_status, Review, Booking}
use gig_drive.Errors.{HttpError, forbidden, not_found, conflict, unauthorized, Reason}
use gig_drive.Service.{
  World, Env, codes, Action, pure, gets, or_throw, throw_if, modify, ◌>>=◌, ◌>>◌,
}
use gig_drive.Ratings.{reviews_driver}
use gig_drive.TripViews.{field}
use gig_drive.TripQueries.{display_name}
use gig_drive.Manifest.{trim}

pub record ReviewDto : Type 0 where
  pub id : ℕ
  pub trip_id : ℕ
  pub author_id : ℕ
  pub author_name : Text
  pub rating : ℕ
  pub comment : Text
  pub created_at : ℕ

abbrev review_dto : Review → Text → ReviewDto
review_dto review author_name = record {
  id = review.id;
  trip_id = review.trip_id;
  author_id = review.author_id;
  author_name = author_name;
  rating = review.rating;
  comment = review.comment;
  created_at = review.created_at;
}

-- `where: { tripId, passengerId, status: CONFIRMED }`
abbrev pub is_passenger : ℕ → ℕ → Booking → Bool
is_passenger trip_id user_id b =
    b.trip_id == trip_id
    && (b.passenger_id == user_id && same_booking_status b.status BookingStatus.confirmed)

module _ (env : Env) where
  -- The guard, for the user of the request and the id in its path.
  unfoldable pub can_activate : Option ℕ → ℕ → Action (Unit {0})
  can_activate user trip_id = do
    user_id ← or_throw user unauthorized
    trip ←
        or_throw (← gets (λ w. env.trips_repository.find_one (λ t. t.id == trip_id) w.trips))
          (not_found Reason.trip_not_found)
    concert ←
        or_throw
          (← gets (λ w. env.concerts_repository.find_one (λ c. c.id == trip.concert_id) w.concerts))
          (not_found Reason.trip_not_found)
    now ← gets (λ w. w.now)
    throw_if (leb now concert.start_at) (forbidden Reason.concert_not_past)
    booking ← gets (λ w. env.bookings_repository.find_one (is_passenger trip_id user_id) w.bookings)
    throw_if (not (is_some booking)) (forbidden Reason.not_a_passenger)

  abbrev pub existing_review : ℕ → ℕ → World → Option Review
  existing_review trip_id author_id w =
      env.reviews_repository.find_one (λ r. r.trip_id == trip_id && r.author_id == author_id)
        w.reviews

  abbrev author_display_name : Review → World → Text
  author_display_name review w =
      field (env.users_repository.find_one (λ u. u.id == review.author_id) w.users) display_name
        (codes "Unknown passenger")

  abbrev pub new_review : ℕ → ℕ → ℕ → Text → World → Review
  new_review trip_id author_id rating comment w = record {
    id = env.reviews_repository.new_id w.reviews;
    trip_id = trip_id;
    author_id = author_id;
    rating = rating;
    comment = trim comment;
    created_at = w.now;
  }

  unfoldable pub create : ℕ → ℕ → ℕ → Text → Action ReviewDto
  create trip_id author_id rating comment = do
    existing ← gets (existing_review trip_id author_id)
    throw_if (is_some existing) (conflict Reason.already_reviewed)
    saved ← gets (new_review trip_id author_id rating comment)
    modify (λ w. record w { reviews = env.reviews_repository.save saved w.reviews })
    found ←
        or_throw (← gets (λ w. env.reviews_repository.find_one (λ r. r.id == saved.id) w.reviews))
          (not_found Reason.review_not_found)
    gets (λ w. review_dto found (author_display_name found w))

  unfoldable pub list_for_driver : ℕ → Action (List ReviewDto)
  list_for_driver driver_id = do
    driver ←
        or_throw (← gets (λ w. env.users_repository.find_one (λ u. u.id == driver_id) w.users))
          (not_found Reason.user_not_found)
    gets (λ w.
        map (λ r. review_dto r (author_display_name r w))
          (sort_by (λ a b. leb b.created_at a.created_at)
            (env.reviews_repository.find (reviews_driver driver_id w.trips) w.reviews)))
