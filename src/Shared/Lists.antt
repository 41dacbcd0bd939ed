-- ===== src/Shared/Lists.antt =====
-- Lists with Boolean tests, and rows that are found and replaced by a numeric key.
use Prim.Native.Nat.{ℕ, suc}
use mathlib.Core.Path.{◌≡◌, sym, ◌∙◌, ap}
use mathlib.Core.Bool.{Bool, true, false, Bool-set}
use mathlib.Core.Option.{Option, none, some}
use mathlib.Core.Logic.{◌≢◌, inl, inr, ◌∨₁◌, ∨₁_prop}
use mathlib.Core.Logic.Or
use mathlib.Core.List.{
  List, [], ◌∷◌, Mem, Mem-prop, mem-cons, mem-cons_self, mem-cons_of_mem, not-mem-nil,
}
use gig_drive.Shared.Tests.{==_iff, if◌then◌else◌, ◌==◌, Bool-cases}

module _ {ℓ} {A : Type ℓ} where
  abbrev pub length : List A → ℕ
  length [] = 0
  length (x ∷ xs) = suc (length xs)

  abbrev pub filter : (A → Bool) → List A → List A
  filter p [] = []
  filter p (x ∷ xs) = if p x then x ∷ filter p xs else filter p xs

  abbrev pub head? : List A → Option A
  head? [] = none
  head? (x ∷ xs) = some x

  -- Every element satisfies `P`.
  abbrev pub All {κ} : (A → Type κ) → List A → Type κ
  All P [] = Unit
  All P (x ∷ xs) = P x × All P xs

  pub All-of-mem {κ} : (P : A → Type κ) (xs : List A) → ((x : A) → Mem x xs → P x) → All P xs
  All-of-mem P [] h = tt
  All-of-mem P (x ∷ xs) h = (h x mem-cons_self, All-of-mem P xs (λ y m. h y (mem-cons_of_mem x m)))

  -- The element of `filter p xs` stands in `xs` and satisfies `p`.
  pub mem-filter : (p : A → Bool) (a : A) (xs : List A) → Mem a (filter p xs) → Mem a xs
  mem-filter p a [] m = m
  mem-filter p a (x ∷ xs) m = elim (Bool-cases (p x)) [
    | inl e ↦
        Or.elim Mem-prop (mem-cons.0 (kept e)) (λ q. mem-cons.1 (Or.inl q))
          (λ r. mem-cons_of_mem x (mem-filter p a xs r))
    | inr e ↦ mem-cons_of_mem x (mem-filter p a xs (dropped e))
  ]
    where
      kept : p x ≡ true → Mem a (x ∷ filter p xs)
      kept e = rw e at m

      dropped : p x ≡ false → Mem a (filter p xs)
      dropped e = rw e at m

  pub mem-filter_true :
      (p : A → Bool) (a : A) (xs : List A) → Mem a xs → p a ≡ true → Mem a (filter p xs)
  mem-filter_true p a [] m h = m
  mem-filter_true p a (x ∷ xs) m h = elim (Bool-cases (p x)) [
    | inl e ↦ rw e (
        Or.elim Mem-prop (mem-cons.0 m) (λ d. mem-cons.1 (Or.inl d))
          (λ r. mem-cons_of_mem x (mem-filter_true p a xs r h)))
    | inr e ↦ rw e (
        Or.elim Mem-prop (mem-cons.0 m) (λ d. absurd (clash (sym h ∙ ap p d ∙ e)))
          (λ r. mem-filter_true p a xs r h))
  ]
    where
      clash : true ≡ false → ⊥
      clash q = cc

  pub filter-passes : (p : A → Bool) (a : A) (xs : List A) → Mem a (filter p xs) → p a ≡ true
  filter-passes p a [] m = absurd (not-mem-nil m)
  filter-passes p a (x ∷ xs) m = elim (Bool-cases (p x)) [
    | inl e ↦
        Or.elim (Bool-set _ _) (mem-cons.0 (kept e)) (λ q. ap p q ∙ e) (λ r. filter-passes p a xs r)
    | inr e ↦ filter-passes p a xs (dropped e)
  ]
    where
      kept : p x ≡ true → Mem a (x ∷ filter p xs)
      kept e = rw e at m

      dropped : p x ≡ false → Mem a (filter p xs)
      dropped e = rw e at m

-- Rows by key.
module _ {A : Type 0} (key : A → ℕ) where
  -- The row that has the key of `e` is replaced by `e`, and `e` is added where there is none.
  abbrev pub upsert : A → List A → List A
  upsert e [] = e ∷ []
  upsert e (x ∷ xs) = if key x == key e then e ∷ xs else x ∷ upsert e xs

  abbrev pub erase : A → List A → List A
  erase e [] = []
  erase e (x ∷ xs) = if key x == key e then xs else x ∷ erase e xs

  pub mem-upsert : (a e : A) (xs : List A) → Mem a (upsert e xs) → (a ≡ e) ∨₁ Mem a xs
  mem-upsert a e [] m = mem-cons.0 m
  mem-upsert a e (x ∷ xs) m = elim (Bool-cases (key x == key e)) [
    | inl q ↦ Or.imp (λ r. r) (mem-cons_of_mem x) (mem-cons.0 (hit q))
    | inr q ↦
        Or.elim ∨₁_prop (mem-cons.0 (miss q)) (λ r. Or.inr (mem-cons.1 (Or.inl r)))
          (λ r. Or.imp (λ s. s) (mem-cons_of_mem x) (mem-upsert a e xs r))
  ]
    where
      hit : (key x == key e) ≡ true → Mem a (e ∷ xs)
      hit q = rw q at m

      miss : (key x == key e) ≡ false → Mem a (x ∷ upsert e xs)
      miss q = rw q at m

  -- A row with another key is still there after a write.
  pub mem-upsert_ne : (a e : A) (xs : List A) → Mem a xs → key a ≢ key e → Mem a (upsert e xs)
  mem-upsert_ne a e [] m h = mem-cons_of_mem e m
  mem-upsert_ne a e (x ∷ xs) m h = elim (Bool-cases (key x == key e)) [
    | inl q ↦ rw q (
        Or.elim Mem-prop (mem-cons.0 m) (λ d. absurd (h (ap key d ∙ (==_iff _ _).0 q)))
          (mem-cons_of_mem e))
    | inr q ↦ rw q (
        Or.elim Mem-prop (mem-cons.0 m) (λ d. mem-cons.1 (Or.inl d))
          (λ r. mem-cons_of_mem x (mem-upsert_ne a e xs r h)))
  ]

  pub mem-upsert_self : (e : A) (xs : List A) → Mem e (upsert e xs)
  mem-upsert_self e [] = mem-cons_self
  mem-upsert_self e (x ∷ xs) = elim (Bool-cases (key x == key e)) [
    | inl q ↦ rw q mem-cons_self
    | inr q ↦ rw q (mem-cons_of_mem x (mem-upsert_self e xs))
  ]
