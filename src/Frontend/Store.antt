-- ===== src/Frontend/Store.antt =====
-- frontend/src/app/features: the stores of bookings and trips, and their selectors. The entity adapter of NgRx is a parameter, with what it documents.
pub mod Shown
pub mod Listed
use gig_drive.Shared.{
  ℕ, ◌==◌, not, ◌||◌, Bool, true, false, ◌≡◌, Option, none, some, List, [], ◌∷◌, ◌++◌, Mem, map,
  filter, foldl, head?, get_or, Keyed, if◌then◌else◌,
}
use gig_drive.Entities.{Text, BookingStatus, same_booking_status}
use gig_drive.Service.{codes}
use gig_drive.TripViews.{TripDto}
use gig_drive.Bookings.{BookingDto}
use gig_drive.Frontend.Actions.{StoreAction}
use gig_drive.Frontend.Earnings.{CurrencyEarnings, aggregate_earnings}

-- `createEntityAdapter<E>()`, for entities with an id. A list of entities is written with one of those that
-- have an id in it.
pub record EntityAdapter (E : Type 0) (id : E → ℕ) : Type 1 where
  pub State : Type 0
  pub initial : State
  pub set_all : List E → State → State
  pub upsert_one : E → State → State
  pub upsert_many : List E → State → State
  pub select_all : State → List E
  -- `selectEntities`, at an id
  pub entity : State → ℕ → Option E
  pub select_all-initial : select_all initial ≡ []
  pub select_all-set_all : (es : List E) (s : State) → Keyed id es → select_all (set_all es s) ≡ es
  pub entity-select_all :
      (s : State) (k : ℕ) → entity s k ≡ head? (filter (λ e. id e == k) (select_all s))
  pub entity-upsert_one :
      (e : E) (s : State) (k : ℕ)
      → entity (upsert_one e s) k ≡ (if id e == k then some e else entity s k)
  pub entity-upsert_many :
      (es : List E) (s : State) (e : E)
      → Mem e es
      → (f : E) × Mem f es × (id f ≡ id e) × (entity (upsert_many es s) (id e) ≡ some f)
  pub entity-upsert_many-other :
      (es : List E) (s : State) (k : ℕ)
      → ((e : E) → Mem e es → (id e == k) ≡ false)
      → entity (upsert_many es s) k ≡ entity s k

module _ (bookings_adapter : EntityAdapter BookingDto (λ b. b.id))
    (trips_adapter : EntityAdapter TripDto (λ t. t.id)) where
  pub record BookingsState : Type 0 where
    pub entities : bookings_adapter.State
    pub loading : Bool
    pub loaded : Bool
    pub error : Option Text
    pub pending_id : Option ℕ

  pub record TripsState : Type 0 where
    pub entities : trips_adapter.State
    pub loading : Bool
    pub loaded : Bool
    pub error : Option Text

  pub record AppState : Type 0 where
    pub bookings : BookingsState
    pub trips : TripsState

  abbrev pub initial_state : AppState
  initial_state = record {
    bookings = record {
      entities = bookings_adapter.initial;
      loading = false;
      loaded = false;
      error = none;
      pending_id = none;
    };
    trips = record {
      entities = trips_adapter.initial;
      loading = false;
      loaded = false;
      error = none;
    };
  }

  abbrev all_loaded : List BookingDto → BookingsState → BookingsState
  all_loaded bookings state = record state {
    entities = bookings_adapter.set_all bookings state.entities;
    loading = false;
    loaded = true;
    pending_id = none;
  }

  abbrev started : ℕ → BookingsState → BookingsState
  started id state = record state { pending_id = some id; error = none }

  abbrev pub reduce_bookings : StoreAction → BookingsState → BookingsState
  reduce_bookings StoreAction.load_mine state = record state { loading = true; error = none }
  reduce_bookings StoreAction.load_for_driver state = record state { loading = true; error = none }
  reduce_bookings (StoreAction.load_mine_success bookings) state = all_loaded bookings state
  reduce_bookings (StoreAction.load_for_driver_success bookings) state = all_loaded bookings state
  reduce_bookings (StoreAction.load_mine_failure error) state = record state {
    loading = false;
    error = some error;
  }
  reduce_bookings (StoreAction.load_for_driver_failure error) state = record state {
    loading = false;
    error = some error;
  }
  reduce_bookings (StoreAction.accept id) state = started id state
  reduce_bookings (StoreAction.reject id) state = started id state
  reduce_bookings (StoreAction.cancel id) state = started id state
  reduce_bookings (StoreAction.set_paid id paid) state = started id state
  reduce_bookings (StoreAction.mutation_success booking) state = record state {
    entities = bookings_adapter.upsert_one booking state.entities;
    pending_id = none;
  }
  reduce_bookings (StoreAction.mutation_failure error) state = record state {
    pending_id = none;
    error = some error;
  }
  reduce_bookings _ state = state

  abbrev pub reduce_trips : StoreAction → TripsState → TripsState
  reduce_trips StoreAction.load_my_trips state = record state { loading = true; error = none }
  reduce_trips (StoreAction.load_my_trips_success trips) state = record state {
    entities = trips_adapter.set_all trips state.entities;
    loading = false;
    loaded = true;
  }
  reduce_trips (StoreAction.load_my_trips_failure error) state = record state {
    loading = false;
    error = some error;
  }
  reduce_trips (StoreAction.upsert_trip trip) state = record state {
    entities = trips_adapter.upsert_one trip state.entities;
  }
  reduce_trips (StoreAction.upsert_trips trips) state = record state {
    entities = trips_adapter.upsert_many trips state.entities;
  }
  reduce_trips _ state = state

  abbrev pub dispatch : AppState → StoreAction → AppState
  dispatch state action = record {
    bookings = reduce_bookings action state.bookings;
    trips = reduce_trips action state.trips;
  }

  abbrev pub dispatch_all : List StoreAction → AppState → AppState
  dispatch_all actions state = foldl dispatch state actions

  -- `trips[booking.tripId] ?? booking.trip`
  abbrev pub with_trip : AppState → BookingDto → BookingDto
  with_trip state booking = record booking {
    trip = get_or (trips_adapter.entity state.trips.entities booking.trip_id) booking.trip;
  }

  abbrev pub select_bookings_with_trips : AppState → List BookingDto
  select_bookings_with_trips state =
      map (with_trip state) (bookings_adapter.select_all state.bookings.entities)

  abbrev select_dashboard_error : AppState → Option Text
  select_dashboard_error state = elim state.bookings.error [
    | none ↦ state.trips.error
    | some error ↦ some error
  ]

  abbrev select_driver_loading : AppState → Bool
  select_driver_loading state =
      state.trips.loading
      || (state.bookings.loading || (not state.trips.loaded || not state.bookings.loaded))

  abbrev select_passenger_loading : AppState → Bool
  select_passenger_loading state = state.bookings.loading || not state.bookings.loaded

  abbrev select_pending_requests : AppState → List BookingDto
  select_pending_requests state =
      filter (λ booking. same_booking_status booking.status BookingStatus.pending)
        (select_bookings_with_trips state)

  abbrev select_earnings : AppState → List CurrencyEarnings
  select_earnings state =
      aggregate_earnings (bookings_adapter.select_all state.bookings.entities)
        (trips_adapter.entity state.trips.entities)
