-- ===== src/Pricing/Client.antt =====
-- frontend/src/app/core/utils/pricing.ts: the client's copy of the price calculation.
use gig_drive.Shared.{ℕ, ◌≡◌, refl}
use gig_drive.Entities.{PricingMode}
use gig_drive.Pricing.{Amount, ceil_div, ceil_quotient, max, LivePrice, calculate}

unfoldable pub calculate_live_price : PricingMode → ℕ → ℕ → ℕ → ℕ → LivePrice
calculate_live_price PricingMode.fixed_per_seat total_cost min_passengers max_passengers seats =
    record {
      per_person = total_cost;
      lower_bound = Amount.finite total_cost;
      upper_bound = Amount.finite total_cost;
    }
calculate_live_price PricingMode.shared_total total_cost min_passengers max_passengers seats =
    let divisor = max (max min_passengers seats) 1 in
    record {
      per_person = ceil_div total_cost divisor;
      lower_bound = ceil_quotient total_cost min_passengers;
      upper_bound = ceil_quotient total_cost max_passengers;
    }

-- The client and the server compute the same live price.
pub calculate_live_price-calculate :
    (mode : PricingMode) (total_cost min_passengers max_passengers seats : ℕ)
    → calculate_live_price mode total_cost min_passengers max_passengers seats
      ≡ calculate mode total_cost min_passengers max_passengers seats
unfolding calculate_live_price calculate
calculate_live_price-calculate PricingMode.fixed_per_seat t a b s = refl
calculate_live_price-calculate PricingMode.shared_total t a b s = refl
