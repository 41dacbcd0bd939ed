-- ===== src/Concerts.antt =====
-- backend/src/concerts/concerts.service.ts: the cache of concerts, its search, and the concerts that users
-- submit and admins hide. PostgreSQL's reading of a timestamp and the upsert of TypeORM are parameters.
pub mod Sync
pub mod Pages
pub mod Search
use gig_drive.Shared.{
  ℕ, ◌*◌, ◌+◌, ◌==◌, ◌≡◌, leb, ltb, not, ◌&&◌, ◌||◌, Bool, true, false, Option, none, some, List,
  [], ◌∷◌, ◌++◌, get_or, map, filter, foldl, Perm, if◌then◌else◌,
}
use gig_drive.Shared.Sort.{sort_by}
use gig_drive.Entities.{Text, Concert, Trip, TripStatus, User}
use gig_drive.Errors.{HttpError, internal, not_found, Reason, Result, ok, err}
use gig_drive.Service.{
  World, Env, Action, pure, gets, lift, or_throw, modify, map_each, codes, ◌>>=◌, ◌>>◌,
}
use gig_drive.Listing.{Listed, compare_trips_active_first}
use gig_drive.TripViews.{field}
use gig_drive.TripQueries.{is_empty, display_name, take}
use gig_drive.Users.{same_text, skip, like_term}
use gig_drive.Ticketmaster.{ProviderConcert, Provider, SearchConcertsDto, filled, search_events}
use gig_drive.Forecast.{OpenMeteo, DailyForecast, ForecastLookup, get_forecast_for_date}

pub record ConcertDto : Type 0 where
  pub id : ℕ
  pub external_id : Option Text
  pub user_submitted : Bool
  pub hidden : Bool
  pub artist : Text
  pub title : Text
  pub venue : Text
  pub city : Text
  pub country : Text
  pub lat : Option ℕ
  pub lng : Option ℕ
  pub start_at : ℕ
  pub image_url : Option Text
  pub genre : Option Text
  pub ticket_url : Option Text

abbrev pub concert_dto : Concert → ConcertDto
concert_dto concert = record {
  id = concert.id;
  external_id = concert.external_id;
  user_submitted = concert.user_submitted;
  hidden = concert.hidden;
  artist = concert.artist;
  title = concert.title;
  venue = concert.venue;
  city = concert.city;
  country = concert.country;
  lat = concert.lat;
  lng = concert.lng;
  start_at = concert.start_at;
  image_url = concert.image_url;
  genre = concert.genre;
  ticket_url = concert.ticket_url;
}

-- `startAt` has been parsed.
pub record CreateConcertDto : Type 0 where
  pub artist : Text
  pub title : Text
  pub venue : Text
  pub city : Text
  pub country : Text
  pub start_at : ℕ
  pub lat : Option ℕ
  pub lng : Option ℕ
  pub image_url : Option Text
  pub genre : Option Text
  pub ticket_url : Option Text

pub record ConcertTripDto : Type 0 where
  pub id : ℕ
  pub status : TripStatus
  pub departure_at : ℕ
  pub min_passengers : ℕ
  pub max_passengers : ℕ
  pub driver_id : ℕ
  pub driver_name : Text

abbrev pub concert_trip_dto : Trip → User → ConcertTripDto
concert_trip_dto trip driver = record {
  id = trip.id;
  status = trip.status;
  departure_at = trip.departure_at;
  min_passengers = trip.min_passengers;
  max_passengers = trip.max_passengers;
  driver_id = trip.driver_id;
  driver_name = display_name driver;
}

pub data ConcertWeatherDto : Type 0 where
  available : DailyForecast → ConcertWeatherDto
  no_coordinates date_out_of_range provider_unavailable : ConcertWeatherDto

abbrev same_flag : Bool → Bool → Bool
same_flag a b = if a then b else not b

abbrev pub concerts_page_size : ℕ
concerts_page_size = 20

abbrev pub upcoming_concerts_limit : ℕ
upcoming_concerts_limit = 100

-- The columns that a concert of the provider has, in a row that may be there.
abbrev pub synced : ProviderConcert → Concert → Concert
synced p concert = record concert {
  external_id = some p.external_id;
  user_submitted = false;
  artist = p.artist;
  title = p.title;
  venue = p.venue;
  city = p.city;
  country = p.country;
  lat = p.lat;
  lng = p.lng;
  start_at = p.start_at;
  image_url = p.image_url;
  genre = p.genre;
  ticket_url = p.ticket_url;
}

-- A new row of a concert of the provider. The column hidden has its default.
abbrev pub imported : ℕ → ℕ → ProviderConcert → Concert
imported id now p = record {
  id = id;
  external_id = some p.external_id;
  user_submitted = false;
  hidden = false;
  artist = p.artist;
  title = p.title;
  venue = p.venue;
  city = p.city;
  country = p.country;
  lat = p.lat;
  lng = p.lng;
  start_at = p.start_at;
  image_url = p.image_url;
  genre = p.genre;
  ticket_url = p.ticket_url;
  created_at = now;
}

abbrev pub has_external_id : Text → Concert → Bool
has_external_id external_id concert =
    field concert.external_id (λ id. same_text id external_id) false

-- One row of `INSERT … ON CONFLICT (externalId) DO UPDATE`.
abbrev pub put : ℕ → ℕ → ProviderConcert → List Concert → List Concert
put id now p [] = imported id now p ∷ []
put id now p (c ∷ cs) =
    if has_external_id p.external_id c then synced p c ∷ cs else c ∷ put id now p cs

abbrev any_same : Text → List ProviderConcert → Bool
any_same id [] = false
any_same id (q ∷ qs) = same_text q.external_id id || any_same id qs

-- No two of them have one external id.
abbrev pub distinct_ids : List ProviderConcert → Bool
distinct_ids [] = true
distinct_ids (p ∷ ps) = not (any_same p.external_id ps) && distinct_ids ps

abbrev pub put_all : (List Concert → ℕ) → ℕ → List ProviderConcert → List Concert → List Concert
put_all new_id now ps rows = foldl (λ acc p. put (new_id acc) now p acc) rows ps

pub record Cache : Type 0 where
  -- A text read as a timestamp, `none` where PostgreSQL reports an error.
  pub timestamp : Text → Option ℕ
  -- The values of `SELECT MIN(c) … GROUP BY LOWER(c) ORDER BY MIN(c)`
  pub grouped : List Text → List Text
  -- `repository.upsert(rows, ['externalId'])` at an instant, `none` where PostgreSQL reports that one
  -- statement would write a row twice.
  pub upsert : ℕ → List ProviderConcert → List Concert → Option (List Concert)
  pub new_id : List Concert → ℕ
  pub upsert_rows :
      (now : ℕ) (ps : List ProviderConcert) (rows : List Concert)
      → distinct_ids ps ≡ true
      → (rows' : List Concert) × (upsert now ps rows ≡ some rows')
        × Perm rows' (put_all new_id now ps rows)
  pub upsert_twice :
      (now : ℕ) (ps : List ProviderConcert) (rows : List Concert)
      → distinct_ids ps ≡ false
      → upsert now ps rows ≡ none

-- The order in which one query meets its rows, which the database chooses anew for each query. Rows that
-- ORDER BY does not tell apart come in that order.
pub record RowOrder : Type 0 where
  pub arrange : List Concert → List Concert
  pub arrange_rows : (cs : List Concert) → Perm (arrange cs) cs

module _ (env : Env) (cache : Cache) where
  -- `LOWER(column) LIKE '%term%'` where the term is given.
  abbrev like : Option Text → Text → Bool
  like term column = field (filled term) (λ t. env.lower_like column (like_term env t)) true

  -- A NULL is LIKE nothing.
  abbrev like_genre : Option Text → Option Text → Bool
  like_genre term column =
      field (filled term) (λ t. field column (λ c. env.lower_like c (like_term env t)) false) true

  abbrev not_before : Option ℕ → Concert → Bool
  not_before from concert = field from (λ t. leb t concert.start_at) true

  abbrev not_after : Option ℕ → Concert → Bool
  not_after until concert = field until (λ t. leb concert.start_at t) true

  abbrev pub matches : SearchConcertsDto → Option ℕ → Option ℕ → Concert → Bool
  matches dto from until concert =
      not concert.hidden
      && ((like dto.q concert.artist || like dto.q concert.title)
          && (like dto.city concert.city
              && (not_before from concert
                  && (not_after until concert && like_genre dto.genre concert.genre))))

  -- The bound that a date gives: the text with a time of the day, read by the database.
  abbrev pub bound : Option Text → Text → Result (Option ℕ)
  bound date time = elim (filled date) [
    | none ↦ ok none
    | some day ↦ elim (cache.timestamp (day ++ time)) [ none ↦ err internal | some t ↦ ok (some t) ]
  ]

  abbrev pub page_of : RowOrder → SearchConcertsDto → Option ℕ → Option ℕ → World → List Concert
  page_of order dto from until w = take concerts_page_size (
      skip (dto.page * concerts_page_size) (
        sort_by (λ a b. leb a.start_at b.start_at)
          (order.arrange (env.concerts_repository.find (matches dto from until) w.concerts))))

  unfoldable pub search_cache : RowOrder → SearchConcertsDto → Action (List Concert)
  search_cache order dto = do
    from ← lift (bound dto.date_from (codes "T00:00:00Z"))
    until ← lift (bound dto.date_to (codes "T23:59:59.999Z"))
    gets (page_of order dto from until)

  unfoldable pub upsert_provider_concerts : List ProviderConcert → Action (Unit {0})
  upsert_provider_concerts ps = do
    now ← gets (λ w. w.now)
    rows ← or_throw (← gets (λ w. cache.upsert now ps w.concerts)) internal
    modify (λ w. record w { concerts = rows })

  -- The part of `search` after a miss.
  unfoldable pub sync_and_search :
      RowOrder → SearchConcertsDto → Option (List ProviderConcert) → Action (List ConcertDto)
  unfolding upsert_provider_concerts
  sync_and_search order dto none = pure []
  sync_and_search order dto (some []) = pure []
  sync_and_search order dto (some (p ∷ ps)) = do
    upsert_provider_concerts (p ∷ ps)
    after ← search_cache order dto
    pure (map concert_dto after)

  -- The two orders are those of the first query, and of the second if there is one.
  unfoldable pub search :
      RowOrder → RowOrder → Provider → SearchConcertsDto → Action (List ConcertDto)
  unfolding sync_and_search
  search first second provider dto = do
    cached ← search_cache first dto
    elim cached [
      | [] ↦ sync_and_search second dto (search_events provider dto)
      | c ∷ cs ↦ pure (map concert_dto (c ∷ cs))
    ]

  unfoldable pub list_upcoming : World → List ConcertDto
  list_upcoming w = map concert_dto (
      take upcoming_concerts_limit (
        sort_by (λ a b. leb a.start_at b.start_at)
          (env.concerts_repository.find (λ c. leb w.now c.start_at && not c.hidden) w.concerts)))

  -- `getFilterOptions`: the cities and the genres.
  unfoldable pub get_filter_options : World → List Text × List Text
  get_filter_options w =
      let visible = filter (λ c. not c.hidden) w.concerts in
      let full = filter (λ (t : Text). not (is_empty t)) in
      (
        full (cache.grouped (full (map (λ c. c.city) visible))),
        full (cache.grouped (full (map (λ c. get_or c.genre []) visible))),
      )

  abbrev find_concert : ℕ → Action Concert
  find_concert id = do
    or_throw (← gets (λ w. env.concerts_repository.find_one (λ c. c.id == id) w.concerts))
        (not_found Reason.concert_not_found)

  abbrev with_driver : World → Trip → Result ConcertTripDto
  with_driver w trip = elim (env.users_repository.find_one (λ u. u.id == trip.driver_id) w.users) [
    | none ↦ err internal
    | some driver ↦ ok (concert_trip_dto trip driver)
  ]

  abbrev listed_as : ConcertTripDto → Listed
  listed_as trip = record { status = trip.status; departure_at = trip.departure_at }

  unfoldable pub get_details : ℕ → Action (ConcertDto × List ConcertTripDto)
  get_details id = do
    concert ← find_concert id
    trips ← gets (λ w.
        sort_by (λ a b. leb a.departure_at b.departure_at)
          (env.trips_repository.find (λ t. t.concert_id == id) w.trips))
    w ← gets (λ w. w)
    dtos ← lift (map_each (with_driver w) trips)
    pure (
      concert_dto concert,
      sort_by (λ a b. compare_trips_active_first (listed_as a) (listed_as b)) dtos,
    )

  abbrev weather_of : ForecastLookup → ConcertWeatherDto
  weather_of (ForecastLookup.ok forecast) = ConcertWeatherDto.available forecast
  weather_of ForecastLookup.out_of_range = ConcertWeatherDto.date_out_of_range
  weather_of ForecastLookup.unavailable = ConcertWeatherDto.provider_unavailable

  -- `hasCoordinates`
  abbrev pub coordinates : OpenMeteo → Concert → Option (ℕ × ℕ)
  coordinates meteo concert = elim concert.lat [
    | none ↦ none
    | some lat ↦ elim concert.lng [
      | none ↦ none
      | some lng ↦ if meteo.is_finite lat && meteo.is_finite lng then some (lat, lng) else none
    ]
  ]

  unfoldable pub get_weather : OpenMeteo → ℕ → Action ConcertWeatherDto
  get_weather meteo id = do
    concert ← find_concert id
    elim (coordinates meteo concert) [
      | none ↦ pure ConcertWeatherDto.no_coordinates
      | some place ↦
          pure (weather_of (get_forecast_for_date meteo place.0 place.1 concert.start_at))
    ]

  abbrev new_concert : CreateConcertDto → World → Concert
  new_concert dto w = record {
    id = env.concerts_repository.new_id w.concerts;
    external_id = none;
    user_submitted = true;
    hidden = false;
    artist = dto.artist;
    title = dto.title;
    venue = dto.venue;
    city = dto.city;
    country = dto.country;
    lat = dto.lat;
    lng = dto.lng;
    start_at = dto.start_at;
    image_url = dto.image_url;
    genre = dto.genre;
    ticket_url = dto.ticket_url;
    created_at = w.now;
  }

  abbrev save_concert : Concert → Action ConcertDto
  save_concert concert = do
    modify (λ w. record w { concerts = env.concerts_repository.save concert w.concerts })
    pure (concert_dto concert)

  unfoldable pub create : CreateConcertDto → Action ConcertDto
  create dto = do concert ← gets (new_concert dto); save_concert concert

  unfoldable pub list_for_admin : Option Bool → Option Bool → World → List ConcertDto
  list_for_admin user_submitted hidden w = map concert_dto (
      take 100 (
        sort_by (λ a b. leb b.start_at a.start_at)
          (env.concerts_repository.find
            (λ c.
              field user_submitted (same_flag c.user_submitted) true
              && field hidden (same_flag c.hidden) true)
            w.concerts)))

  unfoldable pub set_hidden : ℕ → Bool → Action ConcertDto
  set_hidden id hidden = do
    concert ← find_concert id
    save_concert (record concert { hidden = hidden })
