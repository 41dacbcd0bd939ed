-- ===== src/Ratings.antt =====
-- backend/src/reviews/driver-rating.ts, and the aggregation of reviews.service.ts: the rating of a
-- driver. An average is kept in tenths: `Math.round(value * 10)`.
use gig_drive.Shared.{
  ℕ, ◌+◌, ◌*◌, ◌/◌, ◌==◌, Bool, true, false, Option, none, some, List, [], ◌∷◌, lookup, get_or, map,
  unique, filter, sum_by, if◌then◌else◌, of_entries,
}
use gig_drive.Entities.{Review, Trip}
use gig_drive.Service.{World}

pub record DriverRating : Type 0 where
  pub average_rating : Option ℕ
  pub review_count : ℕ

abbrev pub empty_driver_rating : DriverRating
empty_driver_rating = record { average_rating = none; review_count = 0 }

-- `roundToOneDecimal(sum / count)` in tenths, halves up, for a positive count.
abbrev pub round_to_one_decimal : ℕ → ℕ → ℕ
round_to_one_decimal sum count = (20 * sum + count) / (2 * count)

-- `innerJoin('review.trip') … WHERE trip.driverId = …`
abbrev pub reviews_driver : ℕ → List Trip → Review → Bool
reviews_driver driver_id [] r = false
reviews_driver driver_id (t ∷ ts) r =
    if t.id == r.trip_id then t.driver_id == driver_id else reviews_driver driver_id ts r

abbrev rating_sum : ℕ → World → ℕ
rating_sum driver_id w =
    sum_by (λ r. if reviews_driver driver_id w.trips r then r.rating else 0) w.reviews

abbrev rating_count : ℕ → World → ℕ
rating_count driver_id w =
    sum_by (λ r. if reviews_driver driver_id w.trips r then 1 else 0) w.reviews

-- A row of the grouped query. A driver with no reviews has no group.
abbrev rating_entry : ℕ → World → ℕ × DriverRating
rating_entry driver_id w = (
  driver_id,
  record {
    average_rating =
        some (round_to_one_decimal (rating_sum driver_id w) (rating_count driver_id w));
    review_count = rating_count driver_id w;
  },
)

abbrev has_reviews : World → ℕ → Bool
has_reviews w driver_id = if rating_count driver_id w == 0 then false else true

unfoldable pub aggregate_by_driver_ids : List ℕ → World → List (ℕ × DriverRating)
aggregate_by_driver_ids driver_ids w =
    of_entries (map (λ id. rating_entry id w) (filter (has_reviews w) (unique driver_ids)))

unfoldable pub aggregate_for_driver : ℕ → World → DriverRating
unfolding aggregate_by_driver_ids
aggregate_for_driver driver_id w =
    get_or (lookup driver_id (aggregate_by_driver_ids (driver_id ∷ []) w)) empty_driver_rating
