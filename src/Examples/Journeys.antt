-- ===== src/Examples/Journeys.antt =====
-- Vehicles, guards, reminders and emails at concrete tables.
use mathlib.Core.Logic.Or
use mathlib.Core.List.{mem-cons, mem-cons_self, not-mem-nil}
use native.Mathlib.Bridge.{le_prop}
use gig_drive.Shared.{
  ◌+◌, ◌*◌, leb, ltb, ◌&&◌, true, ◌≡◌, refl, none, some, List, [], ◌∷◌, arith, Keyed, if◌then◌else◌,
}
use gig_drive.Entities.{Text, Trip, TripStatus, VehicleType, same_status}
use gig_drive.Service.{World}
use gig_drive.TripChecks.{UpdateTripDto}
use gig_drive.History.{Call}
use gig_drive.Vehicles.{CreateVehicleDto, UpdateVehicleDto}
use gig_drive.Vehicles.Owned.{AllOwned, Linked}
use gig_drive.Vehicles.Histories.{Act, act_all, act_all-AllOwned}
use gig_drive.Guards.Owners.{RoutesGuarded, routes-Guarded}
use gig_drive.Reminders.{hour_ms}
use gig_drive.Reminders.Hourly.{reminders_of, run_hourly, run_hourly-once}
use gig_drive.Templates.{RenderedEmail, TripMailEvent, render_trip_email, escape_html}
use gig_drive.Templates.Escapes.{unescape_html, all_inert, unescape-escape_html}
use gig_drive.Emails.{Mailer, dispatch_trip, trip_context}
use gig_drive.Emails.Recipients.{mails_to, concerns, is_sent, dispatch_trip-once}
use gig_drive.Examples.{env, user, world, trip}

abbrev minibus : CreateVehicleDto
minibus = record {
  type = VehicleType.minibus;
  make = 1 ∷ [];
  model = 2 ∷ [];
  seats = 15;
  notes = none;
}

abbrev repaint : UpdateVehicleDto
repaint = record { type = none; make = some (3 ∷ []); model = none; seats = none; notes = none }

abbrev later_trip : UpdateTripDto
later_trip = record {
  vehicle_id = none;
  concert_id = none;
  pricing_mode = none;
  total_cost = none;
  currency = none;
  min_passengers = none;
  max_passengers = none;
  confirmation_deadline = none;
  departure_at = some 901;
  round_trip = none;
  notes = none;
  stops = none;
}

abbrev acts : List Act
acts =
    Act.adds_vehicle 1 minibus
    ∷ Act.edits_vehicle 1 repaint
    ∷ Act.removes_vehicle 1
    ∷ Act.edits_trip 1 later_trip
    ∷ Act.calls (Call.confirm_trip 1)
    ∷ []

world-Keyed : Keyed (λ t. t.id) world.trips
world-Keyed k = ground arith

world-Linked : Linked world
world-Linked = (
  λ k. ground arith,
  λ t m.
      Or.elim le_prop (mem-cons.0 m) (λ e. rw e (omega arith))
        (λ n.
          Or.elim le_prop (mem-cons.0 n) (λ e. rw e (omega arith)) (λ o. absurd (not-mem-nil o))),
)

act_all-AllOwned_example : let w' = act_all env acts world in AllOwned w'.trips w'.vehicles
act_all-AllOwned_example = act_all-AllOwned env acts world world-Keyed world-Linked

routes-Guarded_example : RoutesGuarded env (some (user 2)) (some 1) later_trip true repaint world
routes-Guarded_example = routes-Guarded env (some (user 2)) (some 1) later_trip true repaint world

-- A trip that departs a day and an hour after the clock starts.
abbrev tomorrow : Trip
tomorrow = record (trip 3 TripStatus.confirmed) { departure_at = 25 * hour_ms }

abbrev today : World
today = record world { trips = tomorrow ∷ [] }

run_hourly-once_example :
    reminders_of 3 (run_hourly env 4 0 today)
    ≡ reminders_of 3 today
      + (if same_status TripStatus.confirmed TripStatus.confirmed
            && (leb (0 + 24 * hour_ms) (25 * hour_ms)
                && ltb (25 * hour_ms) (0 + 24 * hour_ms + 4 * hour_ms))
          then 1
          else 0)
run_hourly-once_example = run_hourly-once env 4 0 tomorrow today (λ k. ground arith) mem-cons_self

unescape-escape_html_example :
    (unescape_html (escape_html (60 ∷ 38 ∷ 34 ∷ [])) ≡ 60 ∷ 38 ∷ 34 ∷ [])
    × (all_inert (escape_html (60 ∷ 38 ∷ 34 ∷ [])) ≡ true)
unescape-escape_html_example = unescape-escape_html (60 ∷ 38 ∷ 34 ∷ [])

abbrev mailer : Mailer
mailer = record { has_transport = true; takes = λ mail. true; format_time = λ at. at ∷ [] }

dispatch_trip-once_example :
    let render : Text → RenderedEmail = λ first_name.
      render_trip_email mailer.format_time TripMailEvent.cancelled
        (trip_context env mailer (trip 1 TripStatus.ready) none none first_name world) in
    mails_to 3 (dispatch_trip env mailer TripMailEvent.cancelled 1 none none world [])
    ≡ mails_to 3 []
      + (if concerns TripMailEvent.cancelled (trip 1 TripStatus.ready) 3 world
            && is_sent env mailer render (user 3)
          then 1
          else 0)
dispatch_trip-once_example =
    dispatch_trip-once env mailer 3 (user 3) world refl TripMailEvent.cancelled 1 none none
      (trip 1 TripStatus.ready) [] refl
