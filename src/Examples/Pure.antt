-- ===== src/Examples/Pure.antt =====
-- The theorems on the pure helpers, at concrete trips and prices.
use gig_drive.Shared.{ℕ, ◌≤◌, ◌≡◌, arith}
use gig_drive.Entities.{TripStatus, PricingMode}
use gig_drive.StateMachine.{TripStateContext}
use gig_drive.Pricing.{Amount, calculate}
use gig_drive.Pricing.Band.{calculate-in_band}
use gig_drive.Shared.{none, true, [], ◌∷◌}
use gig_drive.Service.{codes}
use gig_drive.Manifest.{ManifestRow, csv_header, row_values, build_passenger_manifest_csv}
use gig_drive.Manifest.Reader.{Place, read}
use gig_drive.Manifest.RoundTrip.{read-build_passenger_manifest_csv}

-- A trip for two to four passengers, of whom three have a seat.
abbrev three_of_four : TripStateContext
three_of_four = record {
  status = TripStatus.opened;
  confirmed_seats = 3;
  min_passengers = 2;
  max_passengers = 4;
  confirmation_deadline = 500;
  departure_at = 900;
}

calculate-in_band_example :
    (worst best : ℕ) × ((calculate PricingMode.shared_total 100 2 4 3).lower_bound
      ≡ Amount.finite worst)
    × ((calculate PricingMode.shared_total 100 2 4 3).upper_bound ≡ Amount.finite best)
    × (best ≤ (calculate PricingMode.shared_total 100 2 4 3).per_person)
    × ((calculate PricingMode.shared_total 100 2 4 3).per_person ≤ worst)
calculate-in_band_example = calculate-in_band 100 2 4 3 (omega arith) (omega arith) (omega arith)

-- A passenger with a comma and quotes in the name.
abbrev row : ManifestRow
row = record {
  first_name = codes "Ann \"A, B\"";
  last_name = codes "Lee ";
  email = codes "ann@example.org";
  phone = none;
  seats = 12;
  paid = true;
  status = codes "CONFIRMED";
}

read-build_passenger_manifest_csv_example :
    read (build_passenger_manifest_csv (row ∷ [])) Place.record_start
    ≡ csv_header ∷ row_values row ∷ []
read-build_passenger_manifest_csv_example = read-build_passenger_manifest_csv (row ∷ [])
