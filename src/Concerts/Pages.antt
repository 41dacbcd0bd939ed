-- ===== src/Concerts/Pages.antt =====
-- backend/src/concerts/concerts.service.ts, searchCache: a page of the cache, and its size in whatever order
-- the database returns concerts of one start.

use mathlib.Core.List.Perm
use gig_drive.Shared.{
  ℕ, zero, suc, ◌*◌, ◌≤◌, leb, Bool, true, false, ◌≡◌, refl, sym, ap, ◌∙◌, ◌⊎◌, inl, inr, Option,
  List, [], ◌∷◌, Mem, arith, All, All-of-mem, length, subst, Perm, sum_by, sum_by-perm,
}
use gig_drive.Shared.Sort.{
  sort_by, IsSorted, IsConsistent, sort_by-IsSorted, sort_by-perm, All-sort_by,
}
use gig_drive.Repository.Queries.{find-passes, mem-find}
use gig_drive.Entities.{Concert}
use gig_drive.Errors.{HttpError, Result, ok, err}
use gig_drive.Service.{World, Env, codes}
use gig_drive.TripQueries.{take}
use gig_drive.Users.{skip}
use gig_drive.Ticketmaster.{SearchConcertsDto}
use gig_drive.Concerts.{Cache, RowOrder, search_cache, matches, bound, page_of, concerts_page_size}

-- The parts of a page.
module _ {A : Type 0} where
  All-skip : (P : A → Type 0) (n : ℕ) (xs : List A) → All P xs → All P (skip n xs)
  All-skip P zero xs h = h
  All-skip P (suc n) [] h = tt
  All-skip P (suc n) (x ∷ xs) h = All-skip P n xs h.1

  All-take : (P : A → Type 0) (n : ℕ) (xs : List A) → All P xs → All P (take n xs)
  All-take P zero xs h = tt
  All-take P (suc n) [] h = tt
  All-take P (suc n) (x ∷ xs) h = (h.0, All-take P n xs h.1)

  length-take-le : (n : ℕ) (xs : List A) → length (take n xs) ≤ n
  length-take-le zero xs = omega arith
  length-take-le (suc n) [] = omega arith
  length-take-le (suc n) (x ∷ xs) = omega (arith, length-take-le n xs)

  -- A page of as many rows has as many rows.
  length-page :
      (m n : ℕ) (xs ys : List A)
      → length xs ≡ length ys
      → length (take n (skip m xs)) ≡ length (take n (skip m ys))
  length-page zero zero xs ys e = refl
  length-page zero (suc n) [] [] e = refl
  length-page zero (suc n) [] (y ∷ ys) e = absurd (omega (arith, e))
  length-page zero (suc n) (x ∷ xs) [] e = absurd (omega (arith, e))
  length-page zero (suc n) (x ∷ xs) (y ∷ ys) e =
      omega (arith, length-page zero n xs ys (omega (arith, e)))
  length-page (suc m) n [] [] e = refl
  length-page (suc m) n [] (y ∷ ys) e = absurd (omega (arith, e))
  length-page (suc m) n (x ∷ xs) [] e = absurd (omega (arith, e))
  length-page (suc m) n (x ∷ xs) (y ∷ ys) e = length-page m n xs ys (omega (arith, e))

  length-perm : {xs ys : List A} → Perm xs ys → length xs ≡ length ys
  length-perm {xs} {ys} p = sym (ones xs) ∙ sum_by-perm (λ _. 1) p ∙ ones ys
    where
      ones : (zs : List A) → sum_by (λ _. 1) zs ≡ length zs
      ones [] = refl
      ones (z ∷ zs) = omega (arith, ones zs)

  IsSorted-skip :
      (before : A → A → Bool) (n : ℕ) (xs : List A)
      → IsSorted before xs
      → IsSorted before (skip n xs)
  IsSorted-skip before zero xs h = h
  IsSorted-skip before (suc n) [] h = h
  IsSorted-skip before (suc n) (x ∷ xs) h = IsSorted-skip before n xs h.1

  IsSorted-take :
      (before : A → A → Bool) (n : ℕ) (xs : List A)
      → IsSorted before xs
      → IsSorted before (take n xs)
  IsSorted-take before zero xs h = tt
  IsSorted-take before (suc n) [] h = tt
  IsSorted-take before (suc n) (x ∷ xs) h =
      (All-take (λ y. before x y ≡ true) n xs h.0, IsSorted-take before n xs h.1)

Result-cases :
    {A : Type 0} (r : Result A) → ((a : A) × (r ≡ ok a)) ⊎ ((e : HttpError) × (r ≡ err e))
Result-cases (ok a) = inl (a, refl)
Result-cases (err e) = inr (e, refl)

abbrev pub earlier : Concert → Concert → Bool
earlier a b = leb a.start_at b.start_at

earlier-IsConsistent : IsConsistent earlier
earlier-IsConsistent = record { total = λ x y h. ground arith; trans = λ x y z h k. ground arith }

-- The concerts of a page: visible ones of the table, the earliest first.
abbrev pub IsPage : ℕ → World → List Concert → Type 0
IsPage size w cs =
    All (λ c. Mem c w.concerts × (c.hidden ≡ false)) cs × IsSorted earlier cs × (length cs ≤ size)

module _ (env : Env) (cache : Cache) where
  sorted-IsPage :
      (order : RowOrder) (passes : Concert → Bool) (offset size : ℕ) (w : World)
      → ((c : Concert) → passes c ≡ true → c.hidden ≡ false)
      → IsPage size w (
          take size (
            skip offset
              (sort_by earlier (order.arrange (env.concerts_repository.find passes w.concerts)))))
  sorted-IsPage order passes offset size w visible =
      let rows = env.concerts_repository.find passes w.concerts in
      let found = order.arrange rows in
      let Shown : Concert → Type 0 = λ c. Mem c w.concerts × (c.hidden ≡ false) in
      let all = All-of-mem Shown found (λ c m.
        let n = (Perm.mem_iff (order.arrange_rows rows)).0 m in
        (
          mem-find env.concerts_repository passes c w.concerts n,
          visible c (find-passes env.concerts_repository passes c w.concerts n),
        )) in
      (
        All-take Shown size _ (All-skip Shown offset _ (All-sort_by earlier Shown found all)),
        IsSorted-take earlier size _
            (IsSorted-skip earlier offset _ (sort_by-IsSorted earlier earlier-IsConsistent found)),
        length-take-le size (skip offset (sort_by earlier found)),
      )

  page_of-IsPage :
      (order : RowOrder) (dto : SearchConcertsDto) (from until : Option ℕ) (w : World)
      → IsPage concerts_page_size w (page_of env cache order dto from until w)
  page_of-IsPage order dto from until w =
      sorted-IsPage order (matches env cache dto from until) (dto.page * concerts_page_size)
        concerts_page_size w (λ c h. ground arith)

  pub search_cache-IsPage :
      (order : RowOrder) (dto : SearchConcertsDto) (cs : List Concert) (w : World)
      → search_cache env cache order dto w ≡ (ok cs, w)
      → IsPage concerts_page_size w cs
  unfolding search_cache
  search_cache-IsPage order dto cs w e =
      elim (Result-cases (bound env cache dto.date_from (codes "T00:00:00Z"))) [
        | inr (x, d) ↦ absurd (ground arith)
        | inl (from, d) ↦
            elim (Result-cases (bound env cache dto.date_to (codes "T23:59:59.999Z"))) [
              | inr (x, b) ↦ absurd (ground arith)
              | inl (until, b) ↦
                  let same : page_of env cache order dto from until w ≡ cs = ground arith in
                  subst (IsPage concerts_page_size w) same (page_of-IsPage order dto from until w)
            ]
      ]

  -- Two orders of equal rows: the pages have as many concerts.
  length-page_of :
      (first third : RowOrder) (dto : SearchConcertsDto) (from until : Option ℕ) (w : World)
      → length (page_of env cache first dto from until w)
        ≡ length (page_of env cache third dto from until w)
  length-page_of first third dto from until w =
      let rows = env.concerts_repository.find (matches env cache dto from until) w.concerts in
      length-page (dto.page * concerts_page_size) concerts_page_size _ _
        (length-sorted first rows ∙ sym (length-sorted third rows))
    where
      length-sorted :
          (order : RowOrder) (rows : List Concert)
          → length (sort_by earlier (order.arrange rows)) ≡ length rows
      length-sorted order rows =
          length-perm (sort_by-perm earlier (order.arrange rows))
          ∙ length-perm (order.arrange_rows rows)

  pub search_cache-again :
      (first third : RowOrder) (dto : SearchConcertsDto) (cs : List Concert) (w : World)
      → search_cache env cache first dto w ≡ (ok cs, w)
      → (ds : List Concert) × (search_cache env cache third dto w ≡ (ok ds, w))
        × (length ds ≡ length cs)
  unfolding search_cache
  search_cache-again first third dto cs w e =
      elim (Result-cases (bound env cache dto.date_from (codes "T00:00:00Z"))) [
        | inr (x, d) ↦ absurd (ground arith)
        | inl (from, d) ↦
            elim (Result-cases (bound env cache dto.date_to (codes "T23:59:59.999Z"))) [
              | inr (x, b) ↦ absurd (ground arith)
              | inl (until, b) ↦
                  let same : page_of env cache first dto from until w ≡ cs = ground arith in
                  (
                    page_of env cache third dto from until w,
                    ground arith,
                    length-page_of third first dto from until w ∙ ap length same,
                  )
            ]
      ]
