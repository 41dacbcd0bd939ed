-- ===== src/Examples/Listings.antt =====
-- The theorems on listings and the waitlist, at the small database.
use gig_drive.Shared.{ℕ, ◌==◌, ◌≡◌, not, true, some, List, [], ◌∷◌, All, Perm, filter}
use gig_drive.Shared.Sort.{IsSorted}
use gig_drive.Entities.{WaitlistEntry}
use gig_drive.Service.{World}
use gig_drive.Listing.{is_terminal_trip_status}
use gig_drive.TripViews.{ListTripsDto, no_filters}
use gig_drive.TripQueries.{list}
use gig_drive.TripQueries.Shown.{IsShown, list-IsShown}
use gig_drive.Waitlist.{joined_before, notify_on_seat_freed}
use gig_drive.Waitlist.Notices.{seat_notices, notify_on_seat_freed-outbox}
use gig_drive.Examples.{env, world}
use gig_drive.Shared.{lookup, refl}
use gig_drive.Shared.Sort.{sort_by}
use gig_drive.Entities.{TripStatus}
use gig_drive.Waitlist.{positions_on_trips}
use gig_drive.Waitlist.Positions.{positions_on_trips-rank}
use gig_drive.Examples.{trip}

abbrev affordable : ListTripsDto
affordable = record no_filters { max_price = some 100; seats_min = some 2 }

list-IsShown_example :
    All
      (λ view. IsShown affordable world view × (not (is_terminal_trip_status view.status) ≡ true))
      (list env affordable world)
list-IsShown_example = list-IsShown env affordable world

abbrev waiting : ℕ → ℕ → WaitlistEntry
waiting id created_at = record {
  id = id;
  trip_id = 1;
  passenger_id = id;
  seats = 1;
  created_at = created_at;
}

abbrev queue : World
queue = record world { waitlist = waiting 4 20 ∷ waiting 5 10 ∷ [] }

notify_on_seat_freed-outbox_example :
    (entries : List WaitlistEntry) × Perm entries (filter (λ e. e.trip_id == 1) queue.waitlist)
    × IsSorted joined_before entries
    × ((notify_on_seat_freed env 1 queue).1.outbox ≡ seat_notices 1 entries [])
notify_on_seat_freed-outbox_example = notify_on_seat_freed-outbox env 1 queue

-- The entry with id 5 joined before the entry with id 4.
positions_on_trips-rank_example : lookup 4 (positions_on_trips env (1 ∷ []) queue) ≡ some 2
unfolding sort_by
positions_on_trips-rank_example =
    positions_on_trips-rank env (1 ∷ []) queue (waiting 5 10 ∷ []) [] (waiting 4 20) refl tt

-- The first trip is full.
abbrev sold_out : World
sold_out = record queue { trips = trip 1 TripStatus.full ∷ [] }
