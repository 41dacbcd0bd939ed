-- ===== src/Listing/Order.antt =====
-- The comparator of backend/src/trips/trip-listing.ts as an order.
use gig_drive.Shared.{true, false, ◌≡◌, arith}
use gig_drive.Shared.Sort.{IsConsistent}
use gig_drive.Listing.{Listed, compare_trips_active_first}

compare_total :
    (a b : Listed) → compare_trips_active_first a b ≡ false → compare_trips_active_first b a ≡ true
unfolding compare_trips_active_first
compare_total a b h = ground arith

compare_trans :
    (a b c : Listed)
    → compare_trips_active_first a b ≡ true
    → compare_trips_active_first b c ≡ true
    → compare_trips_active_first a c ≡ true
unfolding compare_trips_active_first
compare_trans a b c h k = ground arith

-- The comparator puts one of two trips first, and it is transitive.
pub compare_trips_active_first-IsConsistent : IsConsistent compare_trips_active_first
compare_trips_active_first-IsConsistent = record { total = compare_total; trans = compare_trans }
