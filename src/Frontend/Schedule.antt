-- ===== src/Frontend/Schedule.antt =====
-- frontend/src/app/features/trips/trip-create/trip-schedule.ts: the schedule that the form for a trip
-- suggests, and its check.
use gig_drive.Shared.{
  ℕ, ◌+◌, ◌-◌, ◌*◌, ◌<◌, leb, ltb, ◌||◌, ◌&&◌, not, Bool, false, ◌≡◌, ◌≢◌, ◌⊎◌, Option, none, some,
  if◌then◌else◌,
}
use gig_drive.Entities.{Text, Concert}
use gig_drive.Errors.{ok}
use gig_drive.TripChecks.{assert_valid_schedule}
use gig_drive.TripQueries.{is_empty}
use gig_drive.Frontend.LocalDatetime.{LocalTime, to_local_input}

abbrev pub departure_lead_ms : ℕ
departure_lead_ms = 3 * 60 * 60 * 1000

abbrev deadline_lead_ms : ℕ
deadline_lead_ms = 24 * 60 * 60 * 1000

abbrev fallback_deadline_lead_ms : ℕ
fallback_deadline_lead_ms = 60 * 60 * 1000

-- `a >= b` and `a > b`, which are false if one of them is NaN.
abbrev at_least : Option ℕ → Option ℕ → Bool
at_least none b = false
at_least (some x) none = false
at_least (some x) (some y) = leb y x

abbrev above : Option ℕ → Option ℕ → Bool
above none b = false
above (some x) none = false
above (some x) (some y) = ltb y x

pub record ScheduleErrors : Type 0 where
  pub deadline_after_departure : Bool
  pub deadline_after_concert : Bool
  pub departure_after_concert : Bool

abbrev any_error : ScheduleErrors → Bool
any_error e = e.deadline_after_departure || (e.deadline_after_concert || e.departure_after_concert)

abbrev reported : ScheduleErrors → Option ScheduleErrors
reported e = if any_error e then some e else none

-- `deadline`, with the part for departures that are soon.
abbrev pub chosen_deadline : ℕ → ℕ → ℕ
chosen_deadline departure now =
    let deadline = departure - deadline_lead_ms in
    if leb deadline now then now + fallback_deadline_lead_ms else deadline

module _ (local : LocalTime) where
  -- The deadline and the departure, for the instant of the concert, `none` an invalid one.
  unfoldable pub suggest_schedule : Option ℕ → ℕ → Option (Text × Text)
  suggest_schedule none now = some (to_local_input local none, to_local_input local none)
  suggest_schedule (some concert_start) now =
      let departure = concert_start - departure_lead_ms in
      let deadline = chosen_deadline departure now in
      if leb departure now || leb departure deadline
      then none
      else some (to_local_input local (some deadline), to_local_input local (some departure))

  abbrev errors_of : Option ℕ → Option ℕ → Option Text → ScheduleErrors
  errors_of deadline departure none = record {
    deadline_after_departure = at_least deadline departure;
    deadline_after_concert = false;
    departure_after_concert = false;
  }
  errors_of deadline departure (some concert_start) = record {
    deadline_after_departure = at_least deadline departure;
    deadline_after_concert =
        not (is_empty concert_start) && at_least deadline (local.get_time concert_start);
    departure_after_concert =
        not (is_empty concert_start) && above departure (local.get_time concert_start);
  }

  -- The validator of a group with two values, for the start of the concert that is chosen.
  unfoldable pub schedule_order_validator : Text → Text → Option Text → Option ScheduleErrors
  schedule_order_validator deadline departure concert_start =
      if is_empty deadline || is_empty departure
      then none
      else reported (errors_of (local.get_time deadline) (local.get_time departure) concert_start)

  -- Two texts that the form and the server accept for a concert, with a deadline that is in the future
  -- up to a minute, or two texts with one time, which the form refuses.
  abbrev pub Suggested : Concert → ℕ → Text → Text → Text → Type 0
  Suggested concert now start deadline departure =
      ((d : ℕ) × (p : ℕ) × (local.get_time deadline ≡ some d)
        × (local.get_time departure ≡ some p)
        × (now < d + 60000)
        × (assert_valid_schedule d p concert ≡ ok tt)
        × (schedule_order_validator deadline departure (some start) ≡ none))
      ⊎ ((t : ℕ) × (local.get_time deadline ≡ some t)
          × (local.get_time departure ≡ some t)
          × (schedule_order_validator deadline departure (some start) ≢ none))
