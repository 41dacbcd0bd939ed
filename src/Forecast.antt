-- ===== src/Forecast.antt =====
-- backend/src/integrations/open-meteo: the forecast for the day of a concert. The request, the UTC calendar of
-- `Date` and `Number.isFinite` are parameters; a temperature is kept as the bit pattern of its double.
pub mod Rows
use gig_drive.Shared.{
  ℕ, zero, suc, ◌+◌, ◌-◌, ◌*◌, ◌==◌, leb, ltb, ◌&&◌, ◌||◌, Bool, true, false, Option, none, some,
  List, [], ◌∷◌, ◌++◌, get_or, length, if◌then◌else◌,
}
use gig_drive.Entities.{Text}
use gig_drive.Service.{codes}
use gig_drive.Manifest.{to_decimal}
use gig_drive.Users.{same_text}
use gig_drive.Ticketmaster.{bind}

pub record DailyForecast : Type 0 where
  pub date : Text
  pub weather_code : ℕ
  pub description : Text
  pub temp_min_c : ℕ
  pub temp_max_c : ℕ
  pub precipitation_mm : ℕ

pub data ForecastLookup : Type 0 where
  ok : DailyForecast → ForecastLookup
  out_of_range unavailable : ForecastLookup

-- An offset from UTC in seconds.
pub data Offset : Type 0 where
  ahead behind : ℕ → Offset

-- Any field may be missing, and a number may be `null`.
pub record DailyColumns : Type 0 where
  pub time : Option (List Text)
  pub weather_code : Option (List (Option ℕ))
  pub temperature_2m_min : Option (List (Option ℕ))
  pub temperature_2m_max : Option (List (Option ℕ))
  pub precipitation_sum : Option (List (Option ℕ))

pub record OpenMeteoDailyPayload : Type 0 where
  pub utc_offset_seconds : Option Offset
  pub daily : Option DailyColumns

pub record OpenMeteo : Type 0 where
  -- `fetch` for a latitude and a longitude, with `none` for every failure.
  pub fetch_forecast : ℕ → ℕ → Option OpenMeteoDailyPayload
  -- `getUTCFullYear`, `getUTCMonth` and `getUTCDate` of an instant
  pub utc_full_year : ℕ → ℕ
  pub utc_month : ℕ → ℕ
  pub utc_date : ℕ → ℕ
  pub is_finite : ℕ → Bool

-- `String(n).padStart(2, '0')`
abbrev pub pad_two : ℕ → Text
pad_two n = if ltb n 10 then codes "0" ++ to_decimal n else to_decimal n

abbrev shifted : ℕ → Offset → ℕ
shifted at (Offset.ahead seconds) = at + seconds * 1000
shifted at (Offset.behind seconds) = at - seconds * 1000

unfoldable pub describe_weather_code : ℕ → Text
describe_weather_code code =
    if code == 0
    then codes "Clear"
    else if code == 1 || code == 2
    then codes "Partly cloudy"
    else if code == 3
    then codes "Overcast"
    else if code == 45 || code == 48
    then codes "Fog"
    else if leb 51 code && leb code 57
    then codes "Drizzle"
    else if leb 61 code && leb code 67
    then codes "Rain"
    else if code == 71 || (code == 73 || (code == 75 || code == 77))
    then codes "Snow"
    else if leb 80 code && leb code 82
    then codes "Rain showers"
    else if code == 85 || code == 86
    then codes "Snow showers"
    else if code == 95 || (code == 96 || code == 99)
    then codes "Thunderstorm"
    else codes "Unknown"

-- `times.indexOf(date)`, with `none` for -1.
abbrev pub index_of : Text → List Text → Option ℕ
index_of date [] = none
index_of date (t ∷ ts) =
    if same_text t date then some 0 else bind (index_of date ts) (λ i. some (suc i))

-- `list[index]`
abbrev pub nth : {A : Type 0} → List A → ℕ → Option A
nth [] i = none
nth (x ∷ xs) zero = some x
nth (x ∷ xs) (suc i) = nth xs i

module _ (meteo : OpenMeteo) where
  unfoldable pub local_date_from_utc : ℕ → Offset → Text
  local_date_from_utc utc offset =
      let local = shifted utc offset in
      to_decimal (meteo.utc_full_year local)
      ++ codes "-"
      ++ pad_two (meteo.utc_month local + 1)
      ++ codes "-"
      ++ pad_two (meteo.utc_date local)

  -- A number of a column, if it is there and finite.
  abbrev pub number_at : Option (List (Option ℕ)) → ℕ → Option ℕ
  number_at column i =
      bind column
        (λ xs. bind (nth xs i) (λ x. bind x (λ n. if meteo.is_finite n then some n else none)))

  abbrev pub row_at : Text → DailyColumns → ℕ → ForecastLookup
  row_at date daily i = elim (number_at daily.weather_code i) [
    | none ↦ ForecastLookup.unavailable
    | some code ↦ elim (number_at daily.temperature_2m_min i) [
      | none ↦ ForecastLookup.unavailable
      | some temp_min ↦ elim (number_at daily.temperature_2m_max i) [
        | none ↦ ForecastLookup.unavailable
        | some temp_max ↦ elim (number_at daily.precipitation_sum i) [
          | none ↦ ForecastLookup.unavailable
          | some precipitation ↦ ForecastLookup.ok record {
            date = date;
            weather_code = code;
            description = describe_weather_code code;
            temp_min_c = temp_min;
            temp_max_c = temp_max;
            precipitation_mm = precipitation;
          }
        ]
      ]
    ]
  ]

  abbrev pub look_up : Text → DailyColumns → List Text → ForecastLookup
  look_up date daily times = elim (index_of date times) [
    | none ↦ ForecastLookup.out_of_range
    | some i ↦ row_at date daily i
  ]

  abbrev days_of : OpenMeteoDailyPayload → ℕ → DailyColumns → ForecastLookup
  days_of payload start_at daily = elim (get_or daily.time []) [
    | [] ↦ ForecastLookup.unavailable
    | t ∷ ts ↦
        look_up (local_date_from_utc start_at (get_or payload.utc_offset_seconds (Offset.ahead 0)))
          daily (t ∷ ts)
  ]

  unfoldable pub map_daily_forecast : OpenMeteoDailyPayload → ℕ → ForecastLookup
  map_daily_forecast payload start_at = elim payload.daily [
    | none ↦ ForecastLookup.unavailable
    | some daily ↦ days_of payload start_at daily
  ]

  unfoldable pub get_forecast_for_date : ℕ → ℕ → ℕ → ForecastLookup
  get_forecast_for_date lat lng at = elim (meteo.fetch_forecast lat lng) [
    | none ↦ ForecastLookup.unavailable
    | some payload ↦ map_daily_forecast payload at
  ]
