-- ===== src/Pricing/Band.antt =====
-- The price band: what the passengers pay together, and how the price moves with the seats.
use gig_drive.Shared.{ℕ, zero, suc, ◌+◌, ◌*◌, ◌≤◌, ◌<◌, ◌≡◌, refl, arith}
use gig_drive.Entities.{PricingMode}
use gig_drive.Pricing.{Amount, ceil_div, ceil_quotient, max, LivePrice, calculate}

-- Rounding up covers the whole, by less than one unit for each share.
ceil_div-covers : (a b : ℕ) → 1 ≤ b → (a ≤ ceil_div a b * b) × (ceil_div a b * b < a + b)
ceil_div-covers a b h = grind arith

ceil_div-anti : (a b c : ℕ) → 1 ≤ b → b ≤ c → ceil_div a c ≤ ceil_div a b
ceil_div-anti a b c h k = grind (arith, ceil_div-covers a b h, ceil_div-covers a c)

ceil_quotient-finite : (a b : ℕ) → 1 ≤ b → ceil_quotient a b ≡ Amount.finite (ceil_div a b)
ceil_quotient-finite a zero h = absurd (omega arith)
ceil_quotient-finite zero (suc b) h = refl
ceil_quotient-finite (suc a) (suc b) h = refl

module _ (total_cost min_passengers max_passengers : ℕ) where
  abbrev price : ℕ → LivePrice
  price seats = calculate PricingMode.shared_total total_cost min_passengers max_passengers seats

  -- With a minimum of at least one, up to the maximum, and no more seats confirmed than the maximum, a
  -- shared price lies in the band that the trip advertises, whose two ends are finite.
  pub calculate-in_band :
      (seats : ℕ)
      → 1 ≤ min_passengers
      → min_passengers ≤ max_passengers
      → seats ≤ max_passengers
      → (worst best : ℕ) × ((price seats).lower_bound ≡ Amount.finite worst)
        × ((price seats).upper_bound ≡ Amount.finite best)
        × (best ≤ (price seats).per_person)
        × ((price seats).per_person ≤ worst)
  unfolding calculate
  calculate-in_band seats h k m = (
    ceil_div total_cost min_passengers,
    ceil_div total_cost max_passengers,
    ceil_quotient-finite total_cost min_passengers h,
    ceil_quotient-finite total_cost max_passengers (omega arith),
    ceil_div-anti total_cost _ max_passengers (ground arith) (ground arith),
    ceil_div-anti total_cost min_passengers _ h (ground arith),
  )

  -- With at least one seat and the minimum confirmed, the passengers together pay at least the whole
  -- cost, and less than one unit per seat beyond it.
  pub calculate-covers :
      (seats : ℕ)
      → 1 ≤ seats
      → min_passengers ≤ seats
      → (total_cost ≤ (price seats).per_person * seats)
        × ((price seats).per_person * seats < total_cost + seats)
  unfolding calculate
  calculate-covers seats h k = ground (arith, ceil_div-covers total_cost seats)

  -- A shared price per person never rises when more seats are confirmed.
  pub calculate-anti :
      (seats more : ℕ) → seats ≤ more → (price more).per_person ≤ (price seats).per_person
  unfolding calculate
  calculate-anti seats more h =
      ceil_div-anti total_cost (max (max min_passengers seats) 1) (max (max min_passengers more) 1)
        (ground arith) (ground arith)
