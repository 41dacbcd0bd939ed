-- ===== src/StateMachine/Derived.antt =====
-- What `deriveStatus` makes of a trip whose seats change.
use gig_drive.Shared.{ℕ, ◌≤◌, ◌<◌, true, ◌≡◌, ◌↔◌, arith}
use gig_drive.Entities.{TripStatus}
use gig_drive.Errors.{ok}
use gig_drive.StateMachine.{TripStateContext, derive_status, assert_confirmable}
use gig_drive.StateMachine.Lifecycle.{is_band}

-- How far booking has brought a trip.
abbrev pub progress : TripStatus → ℕ
progress TripStatus.opened = 0
progress TripStatus.ready = 1
progress TripStatus.full = 2
progress _ = 3

-- Deriving the status again, with the derived status in place, changes nothing.
pub derive_status-idempotent :
    (ctx : TripStateContext)
    → derive_status (record ctx { status = derive_status ctx }) ≡ derive_status ctx
unfolding derive_status
derive_status-idempotent ctx = ground arith

-- For a trip that is open for booking, with a minimum up to its maximum, more confirmed seats never
-- bring the derived status back in the order OPEN, READY, FULL.
pub derive_status_mono :
    (ctx : TripStateContext) (seats : ℕ)
    → is_band ctx.status ≡ true
    → ctx.confirmed_seats ≤ seats
    → ctx.min_passengers ≤ ctx.max_passengers
    → progress (derive_status ctx)
      ≤ progress (derive_status (record ctx { confirmed_seats = seats }))
unfolding derive_status
derive_status_mono ctx seats b h k = ground arith

-- After a recomputation in the booking band the driver can confirm exactly if the minimum is
-- reached and a seat is still free. A trip with every seat taken cannot be confirmed.
pub derive_status-confirmable :
    (ctx : TripStateContext)
    → is_band ctx.status ≡ true
    → (assert_confirmable (record ctx { status = derive_status ctx }) ≡ ok tt)
      ↔ ((ctx.min_passengers ≤ ctx.confirmed_seats) × (ctx.confirmed_seats < ctx.max_passengers))
unfolding derive_status assert_confirmable
derive_status-confirmable ctx b = (λ h. ground arith, λ h. ground arith)
