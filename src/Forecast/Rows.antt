-- ===== src/Forecast/Rows.antt =====
-- Which row of the payload `mapDailyForecast` of open-meteo.forecast.ts picks.
use gig_drive.Shared.{
  ℕ, zero, suc, ◌<◌, true, false, ◌≡◌, refl, ◌⊎◌, inl, inr, Option, none, some, List, [], ◌∷◌,
  arith, get_or, Bool-cases, Option-cases,
}
use gig_drive.Entities.{Text}
use gig_drive.Users.{same_text}
use gig_drive.Forecast.{
  DailyForecast, ForecastLookup, Offset, DailyColumns, OpenMeteoDailyPayload, OpenMeteo, index_of,
  nth, local_date_from_utc, number_at, row_at, look_up, map_daily_forecast, describe_weather_code,
}

-- The day at a position is the first that is the date.
abbrev pub IsFirst : Text → List Text → ℕ → Type 0
IsFirst date times i =
    ((t : Text) × (nth times i ≡ some t) × (same_text t date ≡ true))
    × ((j : ℕ) (t : Text) → j < i → nth times j ≡ some t → same_text t date ≡ false)

index_of-IsFirst :
    (date : Text) (times : List Text) (i : ℕ) → index_of date times ≡ some i → IsFirst date times i
index_of-IsFirst date [] i e = absurd (ground arith)
index_of-IsFirst date (t ∷ ts) zero e = elim (Bool-cases (same_text t date)) [
  | inl same ↦ ((t, refl, same), λ j u l d. absurd (omega arith))
  | inr other ↦ elim (Option-cases (index_of date ts)) [
    | inl d ↦ absurd (ground arith)
    | inr (k, d) ↦ absurd (ground arith)
  ]
]
index_of-IsFirst date (t ∷ ts) (suc i) e = elim (Bool-cases (same_text t date)) [
  | inl same ↦ absurd (ground arith)
  | inr other ↦ elim (Option-cases (index_of date ts)) [
    | inl d ↦ absurd (ground arith)
    | inr (k, d) ↦
        let (here, before) = index_of-IsFirst date ts i (ground arith) in
        (here, earlier t ts other before)
  ]
]
  where
    earlier :
        (t : Text) (ts : List Text)
        → same_text t date ≡ false
        → ((j : ℕ) (u : Text) → j < i → nth ts j ≡ some u → same_text u date ≡ false)
        → (j : ℕ) (u : Text) → j < suc i
        → nth (t ∷ ts) j ≡ some u
        → same_text u date ≡ false
    earlier t ts other before zero u l d = ground arith
    earlier t ts other before (suc j) u l d = before j u (omega arith) d

index_of-none :
    (date : Text) (times : List Text)
    → index_of date times ≡ none
    → (j : ℕ) (t : Text) → nth times j ≡ some t
    → same_text t date ≡ false
index_of-none date [] e j t d = absurd (ground arith)
index_of-none date (u ∷ us) e zero t d = elim (Bool-cases (same_text u date)) [
  | inl same ↦ absurd (ground arith)
  | inr other ↦ ground arith
]
index_of-none date (u ∷ us) e (suc j) t d = elim (Option-cases (index_of date us)) [
  | inl n ↦ index_of-none date us n j t d
  | inr (k, n) ↦ absurd (ground arith)
]

times_cases :
    (times : Option (List Text))
    → (get_or times [] ≡ []) ⊎ ((t : Text) × (ts : List Text) × (times ≡ some (t ∷ ts)))
times_cases none = inl refl
times_cases (some []) = inl refl
times_cases (some (t ∷ ts)) = inr (t, ts, refl)

module _ (meteo : OpenMeteo) where
  abbrev pub local_day : OpenMeteoDailyPayload → ℕ → Text
  local_day payload start_at =
      local_date_from_utc meteo start_at (get_or payload.utc_offset_seconds (Offset.ahead 0))

  -- The numbers of a row.
  abbrev pub HasRow : DailyColumns → ℕ → DailyForecast → Type 0
  HasRow daily i f =
      (number_at meteo daily.weather_code i ≡ some f.weather_code)
      × (number_at meteo daily.temperature_2m_min i ≡ some f.temp_min_c)
      × (number_at meteo daily.temperature_2m_max i ≡ some f.temp_max_c)
      × (number_at meteo daily.precipitation_sum i ≡ some f.precipitation_mm)

  row_at-HasRow :
      (date : Text) (daily : DailyColumns) (i : ℕ) (f : DailyForecast)
      → row_at meteo date daily i ≡ ForecastLookup.ok f
      → HasRow daily i f × (f.date ≡ date) × (f.description ≡ describe_weather_code f.weather_code)
  row_at-HasRow date daily i f e = elim (Option-cases (number_at meteo daily.weather_code i)) [
    | inl a ↦ absurd (ground arith)
    | inr (code, a) ↦ elim (Option-cases (number_at meteo daily.temperature_2m_min i)) [
      | inl b ↦ absurd (ground arith)
      | inr (low, b) ↦ elim (Option-cases (number_at meteo daily.temperature_2m_max i)) [
        | inl c ↦ absurd (ground arith)
        | inr (high, c) ↦ elim (Option-cases (number_at meteo daily.precipitation_sum i)) [
          | inl d ↦ absurd (ground arith)
          | inr (rain, d) ↦ ground arith
        ]
      ]
    ]
  ]

  row_at-shown :
      (date : Text) (daily : DailyColumns) (i : ℕ)
      → row_at meteo date daily i ≡ ForecastLookup.out_of_range
      → ⊥
  row_at-shown date daily i e = ground arith

  days_of-cases :
      (payload : OpenMeteoDailyPayload) (start_at : ℕ)
      → (map_daily_forecast meteo payload start_at ≡ ForecastLookup.unavailable)
        ⊎ ((daily : DailyColumns) × (t : Text) × (ts : List Text) × (payload.daily ≡ some daily)
            × (daily.time ≡ some (t ∷ ts))
            × (map_daily_forecast meteo payload start_at
                ≡ look_up meteo (local_day payload start_at) daily (t ∷ ts)))
  unfolding map_daily_forecast
  days_of-cases payload start_at = elim (Option-cases payload.daily) [
    | inl a ↦ inl (ground arith)
    | inr (daily, a) ↦ elim (times_cases daily.time) [
      | inl b ↦ inl (ground arith)
      | inr (t, ts, b) ↦ inr (daily, t, ts, a, b, ground arith)
    ]
  ]

  -- A forecast that is shown is the row of the first day of the payload that is the day of the concert at
  -- the venue, with all four numbers there and finite. A concert is out of the range of the forecast only if
  -- the payload has days, and none of them is that day.
  pub map_daily_forecast-row :
      (payload : OpenMeteoDailyPayload) (start_at : ℕ)
      → let day = local_day payload start_at in
        ((f : DailyForecast)
          → map_daily_forecast meteo payload start_at ≡ ForecastLookup.ok f
          → (daily : DailyColumns) × (times : List Text) × (i : ℕ) × (payload.daily ≡ some daily)
            × (daily.time ≡ some times)
            × IsFirst day times i
            × HasRow daily i f
            × (f.date ≡ day))
        × (map_daily_forecast meteo payload start_at ≡ ForecastLookup.out_of_range
            → (daily : DailyColumns) × (t : Text) × (ts : List Text) × (payload.daily ≡ some daily)
              × (daily.time ≡ some (t ∷ ts))
              × ((j : ℕ) (u : Text) → nth (t ∷ ts) j ≡ some u → same_text u day ≡ false))
  map_daily_forecast-row payload start_at = (
    λ f e. elim (days_of-cases payload start_at) [
      | inl no_days ↦ absurd (ground arith)
      | inr (daily, t, ts, a, b, days) ↦
          elim (Option-cases (index_of (local_day payload start_at) (t ∷ ts))) [
            | inl d ↦ absurd (ground arith)
            | inr (i, d) ↦
                let first = index_of-IsFirst (local_day payload start_at) (t ∷ ts) i d in
                let row : row_at meteo (local_day payload start_at) daily i ≡ ForecastLookup.ok f =
                  ground arith in
                let (numbers, date, _) = row_at-HasRow (local_day payload start_at) daily i f row in
                (daily, t ∷ ts, i, a, b, first, numbers, date)
          ]
    ],
    λ e. elim (days_of-cases payload start_at) [
      | inl no_days ↦ absurd (ground arith)
      | inr (daily, t, ts, a, b, days) ↦
          elim (Option-cases (index_of (local_day payload start_at) (t ∷ ts))) [
            | inl d ↦ (daily, t, ts, a, b, index_of-none (local_day payload start_at) (t ∷ ts) d)
            | inr (i, d) ↦ absurd (row_at-shown (local_day payload start_at) daily i (ground arith))
          ]
    ],
  )
