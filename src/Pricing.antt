-- ===== src/Pricing.antt =====
-- backend/src/trips/pricing.service.ts, and its copy frontend/src/app/core/utils/pricing.ts: the
-- live price of a trip. Amounts are minor currency units. Seats and costs are 32-bit columns, so
-- that the double quotient of two of them rounds up to the exact integer.
pub mod Band
pub mod Client
use gig_drive.Shared.{ℕ, zero, suc, ◌+◌, ◌-◌, ◌/◌, if◌then◌else◌, leb}
use gig_drive.Entities.{PricingMode}

-- `Math.ceil(a / b)` on numbers of at least 0, with what a division by 0 gives.
pub data Amount : Type 0 where
  finite : ℕ → Amount
  infinity nan : Amount

-- `Math.ceil(a / b)` for a positive `b`.
abbrev pub ceil_div : ℕ → ℕ → ℕ
ceil_div a b = (a + (b - 1)) / b

abbrev pub ceil_quotient : ℕ → ℕ → Amount
ceil_quotient zero zero = Amount.nan
ceil_quotient (suc a) zero = Amount.infinity
ceil_quotient a (suc b) = Amount.finite (ceil_div a (suc b))

abbrev pub max : ℕ → ℕ → ℕ
max a b = if leb a b then b else a

pub record LivePrice : Type 0 where
  pub per_person : ℕ
  pub lower_bound : Amount
  pub upper_bound : Amount

unfoldable pub calculate : PricingMode → ℕ → ℕ → ℕ → ℕ → LivePrice
calculate PricingMode.fixed_per_seat total_cost min_passengers max_passengers confirmed_seats =
    record {
      per_person = total_cost;
      lower_bound = Amount.finite total_cost;
      upper_bound = Amount.finite total_cost;
    }
calculate PricingMode.shared_total total_cost min_passengers max_passengers confirmed_seats =
    let divisor = max (max min_passengers confirmed_seats) 1 in
    record {
      per_person = ceil_div total_cost divisor;
      lower_bound = ceil_quotient total_cost min_passengers;
      upper_bound = ceil_quotient total_cost max_passengers;
    }
