-- ===== src/Shared/Keys.antt =====
-- Tables in which each key stands in one row: a row is determined by its key.
use mathlib.Core.Logic.Or
use mathlib.Core.Logic.{◌≢◌, inl, inr}
use mathlib.Core.List.{mem-cons, mem-cons_self, mem-cons_of_mem, not-mem-nil}
use native.Mathlib.Bridge.{le_prop}
use native.Mathlib.Nat.{ℕ_set}
use Prim.Native.Nat.{ℕ, ◌≤◌}
use mathlib.Core.Path.{◌≡◌, refl, sym, ap, ◌∙◌}
use mathlib.Core.Bool.{true}
use mathlib.Core.List.{List, [], ◌∷◌, Mem}
use native.Mathlib.Omega.{arith}
use gig_drive.Shared.Tests.{◌==◌, ==_iff, if◌then◌else◌, Bool-cases}
use gig_drive.Shared.Sums.{
  weight_at-none, sum_by, count_key, Keyed, Keyed-head, Keyed-tail, weight_at,
}

-- A row weighs at most the sum.
pub mem-sum_by-le : {A : Type 0} (f : A → ℕ) (a : A) (xs : List A) → Mem a xs → f a ≤ sum_by f xs
mem-sum_by-le f a [] m = absurd (not-mem-nil m)
mem-sum_by-le f a (x ∷ xs) m =
    Or.elim le_prop (mem-cons.0 m) (λ e. omega (arith, ap f e))
      (λ r. omega (arith, mem-sum_by-le f a xs r))

module _ {A : Type 0} (key : A → ℕ) where
  pub mem-count_key : (a : A) (xs : List A) → Mem a xs → 1 ≤ count_key key (key a) xs
  mem-count_key a xs m =
      let own = mem-sum_by-le (λ x. if key x == key a then 1 else 0) a xs m in
      rw ((==_iff (key a) (key a)).1 refl) at own

  pub mem-weight_at :
      (f : A → ℕ) (a : A) (xs : List A) → Mem a xs → f a ≤ weight_at key f (key a) xs
  mem-weight_at f a xs m =
      let own = mem-sum_by-le (λ x. if key x == key a then f x else 0) a xs m in
      rw ((==_iff (key a) (key a)).1 refl) at own

  -- Rows with one key are one row, so that any column of them agrees.
  pub mem-key-column :
      {B : Type 0} (B_set : IsSet B) (f : A → B) (a b : A) (xs : List A)
      → Keyed key xs
      → Mem a xs
      → Mem b xs
      → key a ≡ key b
      → f a ≡ f b
  mem-key-column B_set f a b [] k m n e = absurd (not-mem-nil m)
  mem-key-column B_set f a b (x ∷ xs) k m n e =
      Or.elim (B_set _ _) (mem-cons.0 m)
        (λ p.
          Or.elim (B_set _ _) (mem-cons.0 n) (λ q. ap f p ∙ sym (ap f q))
            (λ q. absurd (apart b q (sym e ∙ ap key p))))
        (λ p.
          Or.elim (B_set _ _) (mem-cons.0 n) (λ q. absurd (apart a p (e ∙ ap key q)))
            (λ q. mem-key-column B_set f a b xs (Keyed-tail key x xs k) p q e))
    where
      apart : (c : A) → Mem c xs → key c ≡ key x → ⊥
      apart c p d =
          let one : 1 ≤ count_key key (key x) xs = rw d at (mem-count_key c xs p) in
          omega (arith, one, Keyed-head key x xs k)

  pub mem-key-eq :
      (f : A → ℕ) (a b : A) (xs : List A)
      → Keyed key xs
      → Mem a xs
      → Mem b xs
      → key a ≡ key b
      → f a ≡ f b
  mem-key-eq = mem-key-column ℕ_set

  pub count_key-unused :
      (k : ℕ) (xs : List A) → ((a : A) → Mem a xs → key a ≢ k) → count_key key k xs ≡ 0
  count_key-unused k [] h = refl
  count_key-unused k (x ∷ xs) h =
      let here = h x mem-cons_self in
      ground (arith, count_key-unused k xs (λ a m. h a (mem-cons_of_mem x m)))

  -- The rest of a keyed table does not hold the key of its first row.
  pub Keyed-apart : (x a : A) (xs : List A) → Keyed key (x ∷ xs) → Mem a xs → key a ≢ key x
  Keyed-apart x a xs k m e =
      let one : 1 ≤ count_key key (key x) xs = rw e at (mem-count_key a xs m) in
      omega (arith, one, Keyed-head key x xs k)

  -- The rows with the key of a row weigh what it weighs.
  pub weight_at-Keyed :
      (f : A → ℕ) (a : A) (xs : List A) → Keyed key xs → Mem a xs → weight_at key f (key a) xs ≡ f a
  weight_at-Keyed f a [] k m = absurd (not-mem-nil m)
  weight_at-Keyed f a (x ∷ xs) k m =
      Or.elim (ℕ_set _ _) (mem-cons.0 m)
        (λ e.
          let none = weight_at-none key f (key a) xs (rw e (Keyed-head key x xs k)) in
          let own : f a ≡ f x = ap f e in
          let same : key x == key a ≡ true = (==_iff (key x) (key a)).1 (sym (ap key e)) in
          ground arith)
        (λ n.
          let rest = weight_at-Keyed f a xs (Keyed-tail key x xs k) n in
          elim (Bool-cases (key x == key a)) [
            | inl e ↦ absurd (Keyed-apart x a xs k n (sym ((==_iff (key x) (key a)).0 e)))
            | inr e ↦ ground arith
          ])
