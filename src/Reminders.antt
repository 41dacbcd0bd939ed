-- ===== src/Reminders.antt =====
-- backend/src/notifications/trip-reminder.job.ts: the reminders that go out a day before departure.
pub mod Hourly
use gig_drive.Shared.{ℕ, ◌+◌, ◌*◌, leb, ltb, ◌&&◌, Bool, List, [], ◌∷◌, length}
use gig_drive.Entities.{Trip, TripStatus, same_status}
use gig_drive.Service.{World, Env, Event, Action, pure, gets, notify, for_each, ◌>>=◌, ◌>>◌}

abbrev pub hour_ms : ℕ
hour_ms = 3600000

-- `departureAt: And(MoreThanOrEqual(windowStart), LessThan(windowEnd))`
abbrev pub is_due : ℕ → Trip → Bool
is_due now trip =
    leb (now + 24 * hour_ms) trip.departure_at && ltb trip.departure_at (now + 25 * hour_ms)

module _ (env : Env) where
  -- The loop over the trips that are due.
  send_reminders : List Trip → Action (Unit {0})
  send_reminders [] = pure tt
  send_reminders (trip ∷ rest) = do notify (Event.trip_reminder trip); send_reminders rest

  unfoldable pub send_due_reminders : ℕ → Action ℕ
  unfolding send_reminders
  send_due_reminders now = do
    trips ← gets (λ w.
        env.trips_repository.find (λ t. same_status t.status TripStatus.confirmed && is_due now t)
          w.trips)
    send_reminders trips
    pure (length trips)
