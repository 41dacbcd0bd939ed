-- ===== src/Examples/Catalogue.antt =====
-- Concerts, their provider and their weather at concrete tables.
use mathlib.Core.List.Perm
use gig_drive.Shared.{
  ℕ, true, false, ◌≡◌, refl, ◌⊎◌, Option, none, some, List, [], ◌∷◌, Mem, Perm, sum_by, map, length,
  if◌then◌else◌,
}
use gig_drive.Entities.{Text, Concert}
use gig_drive.Errors.{ok}
use gig_drive.Repository.Listed.{above}
use gig_drive.Service.{World, codes}
use gig_drive.Users.{same_text}
use gig_drive.Ticketmaster.{
  TmImage, TmEvent, Picture, Provider, ProviderConcert, SearchConcertsDto, pick_image_url,
  search_events, to_provider_concert, parse_start, with_urls,
}
use gig_drive.Ticketmaster.Images.{IsBest, pick_image_url-IsBest}
use gig_drive.Forecast.{
  DailyForecast, ForecastLookup, DailyColumns, OpenMeteoDailyPayload, OpenMeteo, map_daily_forecast,
  nth,
}
use gig_drive.Forecast.Rows.{IsFirst, HasRow, local_day, map_daily_forecast-row}
use gig_drive.Concerts.{
  Cache, RowOrder, ConcertDto, concert_dto, search, distinct_ids, put_all, concerts_page_size,
  search_cache, sync_and_search, upsert_provider_concerts,
}
use gig_drive.Shared.Sort.{sort_by}
use gig_drive.Concerts.Sync.{hidden_at, search-keeps}
use gig_drive.Concerts.Pages.{IsPage}
use gig_drive.Concerts.Search.{search-IsPage, search-repeats}
use gig_drive.Examples.{env, world}

abbrev new_id : List Concert → ℕ
new_id = above (λ c. c.id)

abbrev upsert_distinct : ℕ → List ProviderConcert → List Concert → Option (List Concert)
upsert_distinct now ps rows = if distinct_ids ps then some (put_all new_id now ps rows) else none

pub upsert_distinct-rows :
    (now : ℕ) (ps : List ProviderConcert) (rows : List Concert)
    → distinct_ids ps ≡ true
    → (rows' : List Concert) × (upsert_distinct now ps rows ≡ some rows')
      × Perm rows' (put_all new_id now ps rows)
upsert_distinct-rows now ps rows h = (put_all new_id now ps rows, rw h refl, Perm.refl _)

pub upsert_distinct-twice :
    (now : ℕ) (ps : List ProviderConcert) (rows : List Concert)
    → distinct_ids ps ≡ false
    → upsert_distinct now ps rows ≡ none
upsert_distinct-twice now ps rows h = rw h refl

abbrev cache : Cache
cache = record {
  timestamp = λ text. some 0;
  grouped = λ texts. texts;
  upsert = upsert_distinct;
  new_id = new_id;
  upsert_rows = upsert_distinct-rows;
  upsert_twice = upsert_distinct-twice;
}

-- Two databases: one returns equal rows as they are stored, one the other way round for two of them.
abbrev as_stored : RowOrder
as_stored = record { arrange = λ cs. cs; arrange_rows = λ cs. Perm.refl cs }

abbrev swapped : List Concert → List Concert
swapped (c ∷ d ∷ cs) = d ∷ c ∷ cs
swapped cs = cs

swapped-rows : (cs : List Concert) → Perm (swapped cs) cs
swapped-rows [] = Perm.refl []
swapped-rows (c ∷ []) = Perm.refl (c ∷ [])
swapped-rows (c ∷ d ∷ cs) = Perm.swap c d cs

abbrev as_swapped : RowOrder
as_swapped = record { arrange = swapped; arrange_rows = swapped-rows }

abbrev small : TmImage
small = record { url = some (1 ∷ []); ratio = some (codes "4_3"); width = some 900 }

abbrev large : TmImage
large = record { url = some (2 ∷ []); ratio = some (codes "16_9"); width = some 640 }

abbrev show : TmEvent
show = record {
  id = some (7 ∷ []);
  name = some (8 ∷ []);
  url = none;
  start = some record { date_time = some (9 ∷ []); local_date = none; local_time = none };
  images = some (small ∷ large ∷ []);
  genres = none;
  attractions = none;
  venues = none;
}

abbrev provider : Provider
provider = record {
  is_configured = true;
  fetch_events = λ dto. some (some (show ∷ []));
  to_number = λ text. 0;
  parse_date = λ text. some 5000;
}

abbrev no_provider : Provider
no_provider = record provider { is_configured = false }

abbrev query : SearchConcertsDto
query = record { q = none; city = none; date_from = none; date_to = none; genre = none; page = 0 }

-- A table with no concerts.
abbrev empty : World
empty = record world { concerts = [] }

pick_image_url-IsBest_example :
    ((pick_image_url (some (small ∷ large ∷ [])) ≡ none) × (with_urls (small ∷ large ∷ []) ≡ []))
    ⊎ ((p : Picture) × (pick_image_url (some (small ∷ large ∷ [])) ≡ some p.url)
        × IsBest p (with_urls (small ∷ large ∷ [])))
pick_image_url-IsBest_example = pick_image_url-IsBest (some (small ∷ large ∷ []))

search-keeps_example :
    let w' = (search env cache as_stored as_stored provider query empty).1 in
    ((c : Concert) → c.external_id ≡ none → Mem c [] → Mem c w'.concerts)
    × ((id : ℕ) → sum_by (hidden_at id) w'.concerts ≡ 0)
search-keeps_example = search-keeps env cache as_stored as_stored provider query empty

abbrev shown : ConcertDto
shown = record {
  id = 0;
  external_id = some (7 ∷ []);
  user_submitted = false;
  hidden = false;
  artist = 8 ∷ [];
  title = 8 ∷ [];
  venue = codes "TBA";
  city = [];
  country = [];
  lat = none;
  lng = none;
  start_at = 5000;
  image_url = some (2 ∷ []);
  genre = none;
  ticket_url = none;
}

search_shows : (search env cache as_stored as_stored provider query empty).0 ≡ ok (shown ∷ [])
unfolding search search_cache sync_and_search upsert_provider_concerts search_events
    to_provider_concert pick_image_url parse_start sort_by
search_shows = refl

search-IsPage_example :
    (cs : List Concert) × ((shown ∷ []) ≡ map concert_dto cs)
    × IsPage concerts_page_size (search env cache as_stored as_stored provider query empty).1 cs
search-IsPage_example =
    search-IsPage env cache as_stored as_stored provider query (shown ∷ []) empty search_shows

search-repeats_example :
    let w' = (search env cache as_stored as_stored provider query empty).1 in
    (cs : List Concert) × (search_cache env cache as_swapped query w' ≡ (ok cs, w'))
    × (search env cache as_swapped as_stored no_provider query w' ≡ (ok (map concert_dto cs), w'))
    × (length cs ≡ 1)
search-repeats_example =
    search-repeats env cache as_stored as_stored as_swapped as_stored provider no_provider query
      shown [] empty search_shows

-- Two days, the first of them the day of the concert.
abbrev columns : DailyColumns
columns = record {
  time = some (codes "7-06-05" ∷ codes "7-06-06" ∷ []);
  weather_code = some (some 3 ∷ none ∷ []);
  temperature_2m_min = some (some 10 ∷ some 11 ∷ []);
  temperature_2m_max = some (some 20 ∷ some 21 ∷ []);
  precipitation_sum = some (some 0 ∷ some 1 ∷ []);
}

abbrev payload : OpenMeteoDailyPayload
payload = record { utc_offset_seconds = none; daily = some columns }

abbrev meteo : OpenMeteo
meteo = record {
  fetch_forecast = λ lat lng. some payload;
  utc_full_year = λ at. 7;
  utc_month = λ at. 5;
  utc_date = λ at. 5;
  is_finite = λ n. true;
}

map_daily_forecast-row_example :
    let day = local_day meteo payload 1000 in
    ((f : DailyForecast)
      → map_daily_forecast meteo payload 1000 ≡ ForecastLookup.ok f
      → (daily : DailyColumns) × (times : List Text) × (i : ℕ) × (payload.daily ≡ some daily)
        × (daily.time ≡ some times)
        × IsFirst day times i
        × HasRow meteo daily i f
        × (f.date ≡ day))
    × (map_daily_forecast meteo payload 1000 ≡ ForecastLookup.out_of_range
        → (daily : DailyColumns) × (t : Text) × (ts : List Text) × (payload.daily ≡ some daily)
          × (daily.time ≡ some (t ∷ ts))
          × ((j : ℕ) (u : Text) → nth (t ∷ ts) j ≡ some u → same_text u day ≡ false))
map_daily_forecast-row_example = map_daily_forecast-row meteo payload 1000
