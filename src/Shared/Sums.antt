-- ===== src/Shared/Sums.antt =====
-- Sums over the rows of a table. They forget the order of the rows.
use Prim.Native.Nat.{ℕ, ◌+◌, ◌≤◌}
use mathlib.Core.Path.{◌≡◌, refl, ◌∙◌, ap}
use mathlib.Core.Bool.{Bool, true}
use mathlib.Core.Logic.{∥∥₁_elim}
use mathlib.Core.List.{List, [], ◌∷◌, foldl, Perm, Permᴰ}
use native.Mathlib.Omega.{arith}
use native.Mathlib.Nat.{ℕ_set}
use gig_drive.Shared.Tests.{if◌then◌else◌, ◌==◌, ==_iff, Bool-cases}
use mathlib.Core.Logic.{◌⊎◌, inl, inr}
use gig_drive.Shared.Lists.{filter, upsert}

module _ {A : Type 0} where
  abbrev pub sum_by : (A → ℕ) → List A → ℕ
  sum_by f [] = 0
  sum_by f (x ∷ xs) = f x + sum_by f xs

  sum_by-permᴰ : (f : A → ℕ) {xs ys : List A} → Permᴰ xs ys → sum_by f xs ≡ sum_by f ys
  sum_by-permᴰ f Permᴰ.nil = refl
  sum_by-permᴰ f (Permᴰ.cons e p) = omega (arith, ap f e, sum_by-permᴰ f p)
  sum_by-permᴰ f (Permᴰ.swap e d) = omega (arith, ap f e, ap f d)
  sum_by-permᴰ f (Permᴰ.trans p q) = sum_by-permᴰ f p ∙ sum_by-permᴰ f q

  pub sum_by-perm : (f : A → ℕ) {xs ys : List A} → Perm xs ys → sum_by f xs ≡ sum_by f ys
  sum_by-perm f {xs} {ys} p = ∥∥₁_elim p (ℕ_set _ _) (sum_by-permᴰ f)

  -- The sum over the rows that pass a test, as a sum over all rows.
  pub sum_by-filter :
      (f : A → ℕ) (p : A → Bool) (xs : List A)
      → sum_by f (filter p xs) ≡ sum_by (λ x. if p x then f x else 0) xs
  sum_by-filter f p [] = refl
  sum_by-filter f p (x ∷ xs) = ground (arith, sum_by-filter f p xs)

  -- `xs.reduce((sum, x) => sum + f(x), acc)`.
  pub foldl-sum_by :
      (f : A → ℕ) (acc : ℕ) (xs : List A) → foldl (λ s x. s + f x) acc xs ≡ acc + sum_by f xs
  foldl-sum_by f acc [] = omega arith
  foldl-sum_by f acc (x ∷ xs) = omega (arith, foldl-sum_by f (acc + f x) xs)

  pub sum_by-ext : (f g : A → ℕ) → ((x : A) → f x ≡ g x) → (xs : List A) → sum_by f xs ≡ sum_by g xs
  sum_by-ext f g h [] = refl
  sum_by-ext f g h (x ∷ xs) = omega (arith, h x, sum_by-ext f g h xs)

  pub sum_by_mono :
      (f g : A → ℕ) → ((x : A) → f x ≤ g x) → (xs : List A) → sum_by f xs ≤ sum_by g xs
  sum_by_mono f g h [] = omega arith
  sum_by_mono f g h (x ∷ xs) = omega (arith, h x, sum_by_mono f g h xs)

-- Rows by key: how often a key occurs, and tables in which each key occurs once.
module _ {A : Type 0} (key : A → ℕ) where
  abbrev pub count_key : ℕ → List A → ℕ
  count_key k xs = sum_by (λ x. if key x == k then 1 else 0) xs

  abbrev pub Keyed : List A → Type 0
  Keyed xs = (k : ℕ) → count_key k xs ≤ 1

  pub Keyed-tail : (x : A) (xs : List A) → Keyed (x ∷ xs) → Keyed xs
  Keyed-tail x xs h k = omega (arith, h k)

  pub Keyed-head : (x : A) (xs : List A) → Keyed (x ∷ xs) → count_key (key x) xs ≡ 0
  Keyed-head x xs h = ground (arith, h (key x))

  -- A write by key adds a row only to a key that has none, and to no other key.
  count_key-upsert :
      (k : ℕ) (e : A) (xs : List A)
      → (count_key k (upsert key e xs) ≤ count_key k xs)
        ⊎ ((count_key k (upsert key e xs) ≤ 1) × (key e ≡ k))
  count_key-upsert k e [] = ground arith
  count_key-upsert k e (x ∷ xs) = elim (Bool-cases (key x == key e)) [
    | inl q ↦ rw q (ground arith)
    | inr q ↦ rw q (ground (arith, count_key-upsert k e xs))
  ]

  pub count_key-upsert-ge :
      (k : ℕ) (e : A) (xs : List A) → count_key k xs ≤ count_key k (upsert key e xs)
  count_key-upsert-ge k e [] = omega arith
  count_key-upsert-ge k e (x ∷ xs) = elim (Bool-cases (key x == key e)) [
    | inl q ↦ rw q (ground arith)
    | inr q ↦ rw q (ground (arith, count_key-upsert-ge k e xs))
  ]

  pub Keyed-upsert : (e : A) (xs : List A) → Keyed xs → Keyed (upsert key e xs)
  Keyed-upsert e xs h k = ground (arith, count_key-upsert k e xs, h k)

-- Rows that are written by key.
module _ {A : Type 0} (key : A → ℕ) (f : A → ℕ) where
  -- A row that is written adds at most its own weight.
  pub sum_by-upsert-le : (e : A) (xs : List A) → sum_by f (upsert key e xs) ≤ sum_by f xs + f e
  sum_by-upsert-le e [] = omega arith
  sum_by-upsert-le e (x ∷ xs) = ground (arith, sum_by-upsert-le e xs)

  -- The weight of the rows with key `k`.
  abbrev pub weight_at : ℕ → List A → ℕ
  weight_at k xs = sum_by (λ x. if key x == k then f x else 0) xs

  pub weight_at-none : (k : ℕ) (xs : List A) → count_key key k xs ≡ 0 → weight_at k xs ≡ 0
  weight_at-none k [] h = refl
  weight_at-none k (x ∷ xs) h = ground (arith, weight_at-none k xs)

  -- In a keyed table the row that is written takes the place of the row with its key.
  pub sum_by-upsert :
      (e : A) (xs : List A)
      → Keyed key xs
      → sum_by f (upsert key e xs) + weight_at (key e) xs ≡ sum_by f xs + f e
  sum_by-upsert e [] k = omega arith
  sum_by-upsert e (x ∷ xs) k = elim (Bool-cases (key x == key e)) [
    | inl q ↦ rw q (omega (arith, same q))
    | inr q ↦ rw q (omega (arith, sum_by-upsert e xs (Keyed-tail key x xs k)))
  ]
    where
      same : (key x == key e) ≡ true → weight_at (key e) xs ≡ 0
      same q = weight_at-none (key e) xs (rw ((==_iff _ _).0 q) at (Keyed-head key x xs k))
