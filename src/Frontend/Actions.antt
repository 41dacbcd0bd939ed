-- ===== src/Frontend/Actions.antt =====
-- frontend/src/app/features: the actions of the stores of bookings and trips, and the actions that follow
-- the responses of the API (bookings/store/bookings.effects.ts and trips/store/trips.effects.ts).
use gig_drive.Shared.{ℕ, ◌==◌, Bool, Option, none, some, List, [], ◌∷◌, ◌++◌, map, if◌then◌else◌}
use gig_drive.Entities.{Text}
use gig_drive.Service.{codes}
use gig_drive.TripViews.{TripDto}
use gig_drive.Bookings.{BookingDto}

-- The group `BookingsActions`, and the group `TripsActions`.
pub data StoreAction : Type 0 where
  load_mine load_for_driver : StoreAction
  load_mine_success load_for_driver_success : List BookingDto → StoreAction
  load_mine_failure load_for_driver_failure : Text → StoreAction
  accept reject cancel : ℕ → StoreAction
  set_paid : ℕ → Bool → StoreAction
  mutation_success : BookingDto → StoreAction
  mutation_failure : Text → StoreAction
  load_my_trips : StoreAction
  load_my_trips_success : List TripDto → StoreAction
  load_my_trips_failure : Text → StoreAction
  upsert_trip : TripDto → StoreAction
  upsert_trips : List TripDto → StoreAction

-- What a request ends with: a value, or an error with its status if it is an `HttpErrorResponse`.
pub data Response (A : Type 0) : Type 0 where
  success : A → Response A
  failure : Option ℕ → Response A

-- `mutationError`
unfoldable pub mutation_error : Text → Option ℕ → Text
mutation_error verb none = codes "Could not " ++ verb ++ codes "."
mutation_error verb (some status) =
    if status == 409
    then codes "Could not " ++ verb ++ codes ": no seats left for this trip."
    else if status == 403
    then codes "Could not " ++ verb ++ codes ": you are not allowed to perform this action."
    else if status == 404
    then codes "Could not " ++ verb ++ codes ": the booking no longer exists."
    else codes "Could not " ++ verb ++ codes "."

abbrev pub hydrate_from_bookings : List BookingDto → List StoreAction
hydrate_from_bookings bookings =
    StoreAction.load_mine_success bookings
    ∷ StoreAction.upsert_trips (map (λ booking. booking.trip) bookings)
    ∷ []

abbrev pub hydrate_from_driver_bookings : List BookingDto → List StoreAction
hydrate_from_driver_bookings bookings =
    StoreAction.load_for_driver_success bookings
    ∷ StoreAction.upsert_trips (map (λ booking. booking.trip) bookings)
    ∷ []

abbrev pub hydrate_mutation : BookingDto → List StoreAction
hydrate_mutation booking =
    StoreAction.mutation_success booking ∷ StoreAction.upsert_trip booking.trip ∷ []

-- The actions that follow the response to a mutation.
unfoldable pub run_mutation : Text → Response BookingDto → List StoreAction
run_mutation verb (Response.success booking) = hydrate_mutation booking
run_mutation verb (Response.failure status) =
    StoreAction.mutation_failure (mutation_error verb status) ∷ []

-- The actions that follow the responses to the two loads of bookings, and to the load of trips.
unfoldable pub after_load_mine : Response (List BookingDto) → List StoreAction
after_load_mine (Response.success bookings) = hydrate_from_bookings bookings
after_load_mine (Response.failure status) =
    StoreAction.load_mine_failure (codes "Could not load your bookings.") ∷ []

unfoldable pub after_load_for_driver : Response (List BookingDto) → List StoreAction
after_load_for_driver (Response.success bookings) = hydrate_from_driver_bookings bookings
after_load_for_driver (Response.failure status) =
    StoreAction.load_for_driver_failure (codes "Could not load incoming requests.") ∷ []

unfoldable pub after_load_my_trips : Response (List TripDto) → List StoreAction
after_load_my_trips (Response.success trips) = StoreAction.load_my_trips_success trips ∷ []
after_load_my_trips (Response.failure status) =
    StoreAction.load_my_trips_failure (codes "Could not load your trips.") ∷ []
