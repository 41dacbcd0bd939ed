-- ===== src/Examples/Reviews.antt =====
-- The theorems on reviews, at the small database after the concert.
use gig_drive.Shared.{◌≡◌, refl, some, none, [], ◌∷◌, arith}
use gig_drive.Errors.{ok}
use gig_drive.Service.{World}
use gig_drive.Reviewable.{reviewable_trip_ids}
use gig_drive.Reviews.{can_activate, existing_review}
use gig_drive.Reviews.Offered.{reviewable_trip_ids-accepted}
use gig_drive.Examples.{env, world, world-Valid}

abbrev afterwards : World
afterwards = record world { now = 2000 }

reviewable_trip_ids-accepted_example :
    (can_activate env (some 2) 1 afterwards ≡ (ok tt, afterwards))
    × (existing_review env 1 2 afterwards ≡ none)
unfolding reviewable_trip_ids
reviewable_trip_ids-accepted_example =
    reviewable_trip_ids-accepted env 2 (1 ∷ 2 ∷ []) afterwards 1 world-Valid.trips_keyed
      (λ k. ground arith) refl
