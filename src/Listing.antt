-- ===== src/Listing.antt =====
-- backend/src/trips/trip-listing.ts, and the comparators of the listings in trips.service.ts.
-- `before a b` says that the comparator does not put `b` first.
pub mod Order
use gig_drive.Shared.{ℕ, Bool, true, false, List, [], ◌∷◌, ◌||◌, if◌then◌else◌, leb, ltb}
use gig_drive.Entities.{TripStatus, same_status}

abbrev pub browse_hidden_statuses : List TripStatus
browse_hidden_statuses = TripStatus.cancelled ∷ TripStatus.completed ∷ []

unfoldable pub is_terminal_trip_status : TripStatus → Bool
is_terminal_trip_status status =
    same_status status TripStatus.cancelled || same_status status TripStatus.completed

-- What the comparator reads of a trip.
pub record Listed : Type 0 where
  pub status : TripStatus
  pub departure_at : ℕ

unfoldable pub compare_trips_active_first : Listed → Listed → Bool
unfolding is_terminal_trip_status
compare_trips_active_first a b =
    if is_terminal_trip_status a.status
    then (if is_terminal_trip_status b.status then leb a.departure_at b.departure_at else false)
    else (if is_terminal_trip_status b.status then true else leb a.departure_at b.departure_at)
