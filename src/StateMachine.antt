-- ===== src/StateMachine.antt =====
-- backend/src/trips/trip-state-machine.ts: the trip lifecycle as a pure helper.
pub mod Lifecycle
pub mod Derived
use gig_drive.Shared.{ℕ, Bool, true, false, not, ◌||◌, if◌then◌else◌, leb}
use gig_drive.Entities.{TripStatus, same_status}
use gig_drive.Errors.{Result, ok, err, conflict, Reason}

pub record TripStateContext : Type 0 where
  pub status : TripStatus
  pub confirmed_seats : ℕ
  pub min_passengers : ℕ
  pub max_passengers : ℕ
  pub confirmation_deadline : ℕ
  pub departure_at : ℕ

unfoldable pub has_min_reached : TripStateContext → Bool
has_min_reached ctx = leb ctx.min_passengers ctx.confirmed_seats

unfoldable pub is_full : TripStateContext → Bool
is_full ctx = leb ctx.max_passengers ctx.confirmed_seats

unfoldable pub assert_editable : TripStatus → Result (Unit {0})
assert_editable status =
    if not (same_status status TripStatus.opened)
    then err (conflict Reason.only_open_editable)
    else ok tt

unfoldable pub assert_cancellable : TripStatus → Result (Unit {0})
assert_cancellable status =
    if same_status status TripStatus.completed || same_status status TripStatus.cancelled
    then err (conflict Reason.trip_already_finished)
    else ok tt

unfoldable pub assert_confirmable : TripStateContext → Result (Unit {0})
assert_confirmable ctx =
    if not (same_status ctx.status TripStatus.ready)
    then err (conflict Reason.only_ready_confirmable)
    else ok tt

derive_band : TripStateContext → TripStatus
unfolding is_full has_min_reached
derive_band ctx =
    if is_full ctx
    then TripStatus.full
    else if has_min_reached ctx
    then TripStatus.ready
    else TripStatus.opened

-- The `switch` on the current status.
abbrev derive_from : TripStatus → TripStateContext → TripStatus
derive_from TripStatus.opened ctx = derive_band ctx
derive_from TripStatus.full ctx = derive_band ctx
derive_from TripStatus.ready ctx = derive_band ctx
derive_from TripStatus.confirmed ctx = TripStatus.confirmed
derive_from TripStatus.completed ctx = TripStatus.completed
derive_from TripStatus.cancelled ctx = TripStatus.cancelled

unfoldable pub derive_status : TripStateContext → TripStatus
unfolding derive_band
derive_status ctx = derive_from ctx.status ctx
