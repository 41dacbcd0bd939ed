-- ===== src/Admin/Tally.antt =====
-- The statistics of backend/src/admin/admin.service.ts against the tables.
use gig_drive.Shared.{
  ℕ, ◌+◌, ◌≤◌, Bool, true, false, ◌≡◌, refl, ◌∙◌, ap, inl, inr, subst, none, some, List, [], ◌∷◌,
  arith, get_or, foldl, map, sum_by, if◌then◌else◌, Bool-cases, not,
}
use gig_drive.Entities.{
  TripStatus, same_status, BookingStatus, same_booking_status, Trip, Booking, Concert,
}
use gig_drive.Service.{World, Env}
use gig_drive.Users.Admins.{count-sum_by}
use gig_drive.Admin.{
  get, set, tally_by_status, all_trip_statuses, all_booking_statuses, GroupCount, get_stats,
}

module _ {S : Type 0} (same : S → S → Bool) (same-eq : (s t : S) → same s t ≡ true → s ≡ t)
    (same_refl : (s : S) → same s s ≡ true) where
  abbrev occurs : S → List (S × ℕ) → ℕ
  occurs s rows = sum_by (λ g. if same g.0 s then 1 else 0) rows

  abbrev weighs : S → List (S × ℕ) → ℕ
  weighs s rows = sum_by (λ g. if same g.0 s then g.1 else 0) rows

  get-set :
      (s t : S) (n : ℕ) (acc : List (S × ℕ))
      → get same s (set same acc t n) ≡ (if same t s then some n else get same s acc)
  get-set s t n [] = refl
  get-set s t n ((u, m) ∷ acc) = elim (Bool-cases (same u t)) [
    | inl e ↦ hit (same-eq u t e)
    | inr e ↦ miss (get-set s t n acc) e
  ]
    where
      hit :
          u ≡ t
          → get same s (set same ((u, m) ∷ acc) t n)
            ≡ (if same t s then some n else get same s ((u, m) ∷ acc))
      hit q = rw (q, same_refl t) (ground arith)

      miss :
          get same s (set same acc t n) ≡ (if same t s then some n else get same s acc)
          → same u t ≡ false
          → get same s (set same ((u, m) ∷ acc) t n)
            ≡ (if same t s then some n else get same s ((u, m) ∷ acc))
      miss rest e = elim (Bool-cases (same t s)) [
        | inl d ↦
            let eq = same-eq t s d in
            let other : same u s ≡ false = subst (λ x. same u x ≡ false) eq e in
            rw (e, other, d) (rw d at rest)
        | inr d ↦ rw (e, d) (ground (arith, rest, d))
      ]

  counted : List (S × ℕ) → List (S × ℕ) → List (S × ℕ)
  counted acc rows = foldl (λ acc row. set same acc row.0 row.1) acc rows

  counted-absent :
      (s : S) (acc rows : List (S × ℕ))
      → occurs s rows ≡ 0
      → get same s (counted acc rows) ≡ get same s acc
  unfolding counted
  counted-absent s acc [] h = refl
  counted-absent s acc ((t, n) ∷ rows) h =
      let rest = counted-absent s (set same acc t n) rows (ground arith) in
      ground (arith, rest, get-set s t n acc)

  weighs-absent : (s : S) (rows : List (S × ℕ)) → occurs s rows ≡ 0 → weighs s rows ≡ 0
  weighs-absent s [] h = refl
  weighs-absent s ((t, n) ∷ rows) h = let rest = weighs-absent s rows (ground arith) in ground arith

  -- A status that stands in at most one row has the count of that row.
  counted-once :
      (s : S) (acc rows : List (S × ℕ))
      → occurs s rows ≤ 1
      → get same s acc ≡ none
      → get_or (get same s (counted acc rows)) 0 ≡ weighs s rows
  unfolding counted
  counted-once s acc [] h e = ground arith
  counted-once s acc ((t, n) ∷ rows) h e = elim (Bool-cases (same t s)) [
    | inl d ↦
        let none_left : occurs s rows ≡ 0 = ground arith in
        let rest = counted-absent s (set same acc t n) rows none_left in
        ground (arith, rest, get-set s t n acc, weighs-absent s rows none_left)
    | inr d ↦
        let rest =
          counted-once s (set same acc t n) rows (ground arith) (rw d at (get-set s t n acc) ∙ e) in
        ground (arith, rest)
  ]

  -- The count of a status that is listed.
  abbrev count : S → List S → ℕ
  count s xs = sum_by (λ x. if same x s then 1 else 0) xs

  tally : List (S × ℕ) → List (S × ℕ) → List S → List (S × ℕ)
  tally rows acc statuses =
      foldl (λ acc status. set same acc status (get_or (get same status rows) 0)) acc statuses

  tally-kept :
      (s : S) (rows acc : List (S × ℕ)) (statuses : List S)
      → get same s acc ≡ some (get_or (get same s rows) 0)
      → get same s (tally rows acc statuses) ≡ some (get_or (get same s rows) 0)
  unfolding tally
  tally-kept s rows acc [] h = h
  tally-kept s rows acc (t ∷ statuses) h =
      tally-kept s rows (set same acc t (get_or (get same t rows) 0)) statuses
        (elim (Bool-cases (same t s)) [
          | inl d ↦
              get-set s t _ acc ∙ rw d (ap (λ x. some (get_or (get same x rows) 0)) (same-eq t s d))
          | inr d ↦ get-set s t _ acc ∙ rw d h
        ])

  tally-listed :
      (s : S) (rows acc : List (S × ℕ)) (statuses : List S)
      → 1 ≤ count s statuses
      → get same s (tally rows acc statuses) ≡ some (get_or (get same s rows) 0)
  unfolding tally
  tally-listed s rows acc [] h = absurd (ground arith)
  tally-listed s rows acc (t ∷ statuses) h = elim (Bool-cases (same t s)) [
    | inl d ↦
        tally-kept s rows (set same acc t (get_or (get same t rows) 0)) statuses
          (get-set s t _ acc ∙ rw d (ap (λ x. some (get_or (get same x rows) 0)) (same-eq t s d)))
    | inr d ↦
        tally-listed s rows (set same acc t (get_or (get same t rows) 0)) statuses (ground arith)
  ]

  -- The tally has the number of rows of the table under each status that is listed.
  tally_by_status-count :
      (g : GroupCount same) (xs statuses : List S) (s : S)
      → 1 ≤ count s statuses
      → get same s (tally_by_status same (g.groups xs) statuses) ≡ some (count s xs)
  unfolding tally_by_status tally counted
  tally_by_status-count g xs statuses s h =
      tally-listed s (counted [] (g.groups xs)) [] statuses h
      ∙ ap some (counted-once s [] (g.groups xs) (g.groups_once s xs) refl ∙ g.groups_total s xs)

same_status-eq : (s t : TripStatus) → same_status s t ≡ true → s ≡ t
same_status-eq s t h = ground arith

same_booking_status-eq : (s t : BookingStatus) → same_booking_status s t ≡ true → s ≡ t
same_booking_status-eq s t h = ground arith

sum_by-map :
    {A B : Type 0} (f : B → ℕ) (g : A → B) (xs : List A)
    → sum_by f (map g xs) ≡ sum_by (λ x. f (g x)) xs
sum_by-map f g [] = refl
sum_by-map f g (x ∷ xs) = omega (arith, sum_by-map f g xs)

halves :
    {A : Type 0} (p : A → Bool) (xs : List A)
    → sum_by (λ x. if not (p x) then 1 else 0) xs + sum_by (λ x. if p x then 1 else 0) xs
      ≡ sum_by (λ x. 1) xs
halves p [] = refl
halves p (x ∷ xs) = ground (arith, halves p xs)

-- The statistics name each status of trips and of bookings, with zero where there is none, and count the
-- rows of the table that have it. The cached concerts and those that users have submitted are all concerts.
pub get_stats-counts :
    (env : Env) (trip_groups : GroupCount same_status)
    (booking_groups : GroupCount same_booking_status) (w : World)
    → let stats = get_stats env trip_groups booking_groups w in
      ((s : TripStatus)
        → get same_status s stats.trips_by_status
          ≡ some (sum_by (λ t. if same_status t.status s then 1 else 0) w.trips))
      × ((s : BookingStatus)
          → get same_booking_status s stats.bookings_by_status
            ≡ some (sum_by (λ b. if same_booking_status b.status s then 1 else 0) w.bookings))
      × (stats.concerts.cached + stats.concerts.user_submitted ≡ stats.concerts.total)
unfolding get_stats
get_stats-counts env trip_groups booking_groups w = (
  λ s.
      tally_by_status-count same_status same_status-eq (λ s. ground arith) trip_groups
        (map (λ t. t.status) w.trips) all_trip_statuses s (ground arith)
      ∙ ap some
          (sum_by-map (λ x. if same_status x s then 1 else 0) (λ (t : Trip). t.status) w.trips),
  λ s.
      tally_by_status-count same_booking_status same_booking_status-eq (λ s. ground arith)
        booking_groups (map (λ b. b.status) w.bookings) all_booking_statuses s (ground arith)
      ∙ ap some (
          sum_by-map (λ x. if same_booking_status x s then 1 else 0) (λ (b : Booking). b.status)
            w.bookings),
  omega (
    arith,
    halves (λ (c : Concert). c.user_submitted) w.concerts,
    count-sum_by env.concerts_repository (λ c. not c.user_submitted) w.concerts,
    count-sum_by env.concerts_repository (λ c. c.user_submitted) w.concerts,
    count-sum_by env.concerts_repository (λ c. true) w.concerts,
  ),
)
