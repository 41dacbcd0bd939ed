-- ===== src/SignalGroups.antt =====
-- backend/src/integrations/signal/signal-automation.service.ts: the hook that makes a Signal group
-- for a confirmed trip and mails its invite link. Every failure is logged and swallowed.
use gig_drive.Shared.{not, none, some, ◌++◌, ◌∷◌, ℕ, ◌==◌, if◌then◌else◌}
use gig_drive.Entities.{Text, Trip}
use gig_drive.Service.{World, Env, Event, codes, Action, pure, gets, ◌>>=◌, notify}
use gig_drive.TripViews.{field}

module _ (env : Env) where
  unfoldable pub signal_group_name : Text → Text → ℕ → Text
  signal_group_name artist city start_at =
      55356 ∷ 57269 ∷ codes " "
      ++ (artist ++ (codes " — " ++ (city ++ (codes ", " ++ env.format_day start_at))))

  group_name : Trip → World → Text
  unfolding signal_group_name
  group_name trip w =
      let concert = env.concerts_repository.find_one (λ c. c.id == trip.concert_id) w.concerts in
      signal_group_name (field concert (λ c. c.artist) (codes "Concert"))
        (field concert (λ c. c.city) (codes "Unknown"))
        (field concert (λ c. c.start_at) trip.departure_at)

  create_and_email : Trip → Action (Unit {0})
  unfolding group_name
  create_and_email trip = do
    group ← gets (λ w. env.create_group_with_invite (group_name trip w))
    elim group [ none ↦ pure tt | some g ↦ notify (Event.signal_invite trip g.invite_link g.name) ]

  unfoldable pub on_trip_confirmed : Trip → Action (Unit {0})
  unfolding create_and_email
  on_trip_confirmed trip =
      if not env.feature_signal
      then pure tt
      else if not env.signal_configured
      then pure tt
      else create_and_email trip
