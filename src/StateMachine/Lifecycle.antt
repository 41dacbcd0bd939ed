-- ===== src/StateMachine/Lifecycle.antt =====
-- The statuses of backend/src/trips/trip-state-machine.ts, by the part of the lifecycle that they are in.
use gig_drive.Shared.{Bool, true, false, ◌≡◌, ◌⊎◌}
use gig_drive.Entities.{TripStatus}

-- OPEN, FULL and READY, between which bookings move a trip.
abbrev pub is_band : TripStatus → Bool
is_band TripStatus.opened = true
is_band TripStatus.full = true
is_band TripStatus.ready = true
is_band _ = false

-- The pairs of statuses that a write to a trip may have. It forgets by which call and on what condition,
-- and lets a recomputation lead anywhere in the band, which is wider than the drawing in the source: the
-- conditions of each transition are those of History.Progress.Step.
pub data Move (s t : TripStatus) : Type 0 where
  recomputes : is_band s ≡ true → is_band t ≡ true → Move s t
  driver_confirms : s ≡ TripStatus.ready → t ≡ TripStatus.confirmed → Move s t
  departs : s ≡ TripStatus.confirmed → t ≡ TripStatus.completed → Move s t
  calls_off : (is_band s ≡ true) ⊎ (s ≡ TripStatus.confirmed) → t ≡ TripStatus.cancelled → Move s t

-- The statuses in which the lifecycle ends.
abbrev pub IsFinished : TripStatus → Type 0
IsFinished s = (s ≡ TripStatus.completed) ⊎ (s ≡ TripStatus.cancelled)
