-- ===== src/Frontend/LocalDatetime.antt =====
-- frontend/src/app/core/utils/local-datetime.ts, toLocalInput: an instant as the text of a `datetime-local`
-- input. The getters of `Date` and its reading of texts are a parameter.
use gig_drive.Shared.{
  ℕ, ◌+◌, ◌-◌, ◌/◌, ◌%◌, ◌≤◌, ◌<◌, ltb, Bool, false, ◌≡◌, refl, ap, ◌∙◌, inl, inr, Option, none,
  some, ◌++◌, arith, Bool-cases,
}
use gig_drive.Entities.{Text}
use gig_drive.Service.{codes}
use gig_drive.Manifest.{to_decimal}
use gig_drive.Manifest.Digits.{
  two_digits, four_digits, to_decimal-one, to_decimal-two, to_decimal-four,
}
use gig_drive.Forecast.{pad_two}
use gig_drive.TripQueries.{is_empty}

abbrev pub minute_of : ℕ → ℕ
minute_of t = t - t % 60000

-- YYYY-MM-DDTHH:mm, the format of ECMAScript for a local date and time.
abbrev pub date_time_string : ℕ → ℕ → ℕ → ℕ → ℕ → Text
date_time_string year month day hours minutes =
    four_digits year
    ++ codes "-"
    ++ two_digits month
    ++ codes "-"
    ++ two_digits day
    ++ codes "T"
    ++ two_digits hours
    ++ codes ":"
    ++ two_digits minutes

-- The local times of `Date` for instants since 1970, in a zone whose offset is a number of minutes, with
-- `new Date(text).getTime()`, `none` for NaN. A local time is repeated if it occurs twice, as in the hour
-- after the clocks go back; the text of one that is not is read as the instant, without its seconds.
pub record LocalTime : Type 0 where
  pub get_full_year : ℕ → ℕ
  pub get_month : ℕ → ℕ
  pub get_date : ℕ → ℕ
  pub get_hours : ℕ → ℕ
  pub get_minutes : ℕ → ℕ
  pub get_time : Text → Option ℕ
  pub is_repeated : ℕ → Bool
  pub year_ge : (t : ℕ) → 1969 ≤ get_full_year t
  pub month_lt : (t : ℕ) → get_month t < 12
  pub date_le : (t : ℕ) → get_date t ≤ 31
  pub hours_lt : (t : ℕ) → get_hours t < 24
  pub minutes_lt : (t : ℕ) → get_minutes t < 60
  pub get_time-date_time_string :
      (t : ℕ)
      → is_repeated t ≡ false
      → get_full_year t ≤ 9999
      → get_time (
          date_time_string
            (get_full_year t)
            (get_month t + 1)
            (get_date t)
            (get_hours t)
            (get_minutes t))
        ≡ some (minute_of t)

pad_two-two_digits : (n : ℕ) → n < 100 → pad_two n ≡ two_digits n
pad_two-two_digits n h = elim (Bool-cases (ltb n 10)) [
  | inl e ↦
      let small : n < 10 = ground arith in
      let tens : n / 10 ≡ 0 = omega (arith, small) in
      let ones : n % 10 ≡ n = omega (arith, small) in
      rw (e, to_decimal-one n small, tens, ones) refl
  | inr e ↦ rw e (to_decimal-two n (ground arith) h)
]

module _ (local : LocalTime) where
  -- The fields of an invalid date are NaN.
  abbrev pub to_local_input : Option ℕ → Text
  to_local_input none = codes "NaN-NaN-NaNTNaN:NaN"
  to_local_input (some t) =
      to_decimal (local.get_full_year t)
      ++ codes "-"
      ++ pad_two (local.get_month t + 1)
      ++ codes "-"
      ++ pad_two (local.get_date t)
      ++ codes "T"
      ++ pad_two (local.get_hours t)
      ++ codes ":"
      ++ pad_two (local.get_minutes t)

  -- An instant whose local time occurs once, in a year of four digits.
  abbrev pub IsPlain : ℕ → Type 0
  IsPlain t = (local.is_repeated t ≡ false) × (local.get_full_year t ≤ 9999)

  to_local_input-date_time_string :
      (t : ℕ)
      → local.get_full_year t ≤ 9999
      → to_local_input (some t)
        ≡ date_time_string
            (local.get_full_year t)
            (local.get_month t + 1)
            (local.get_date t)
            (local.get_hours t)
            (local.get_minutes t)
  to_local_input-date_time_string t h =
      let year = to_decimal-four (local.get_full_year t) (omega (arith, local.year_ge t)) h in
      let month = pad_two-two_digits (local.get_month t + 1) (omega (arith, local.month_lt t)) in
      let day = pad_two-two_digits (local.get_date t) (omega (arith, local.date_le t)) in
      let hours = pad_two-two_digits (local.get_hours t) (omega (arith, local.hours_lt t)) in
      let minutes = pad_two-two_digits (local.get_minutes t) (omega (arith, local.minutes_lt t)) in
      rw (year, month, day, hours, minutes) refl

  -- The text of an instant is not empty, and is read as the minute of the instant.
  pub get_time-to_local_input :
      (t : ℕ)
      → IsPlain t
      → (is_empty (to_local_input (some t)) ≡ false)
        × (local.get_time (to_local_input (some t)) ≡ some (minute_of t))
  get_time-to_local_input t (once, year) =
      let same = to_local_input-date_time_string t year in
      (ap is_empty same, ap local.get_time same ∙ local.get_time-date_time_string t once year)
