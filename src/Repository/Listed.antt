-- ===== src/Repository/Listed.antt =====
-- A table as a list in insertion order, as an instance of the repository.
use mathlib.Core.Logic.Or
use mathlib.Core.List.{mem-cons, mem-cons_of_mem, not-mem-nil}
use mathlib.Core.List.Perm
use gig_drive.Shared.{
  ℕ, suc, ◌+◌, ◌<◌, Bool, true, false, not, ◌≡◌, refl, sym, length, inl, inr, Option, none, some,
  List, [], ◌∷◌, Mem, arith, filter, upsert, erase, if◌then◌else◌, Bool-cases,
}
use mathlib.Core.Bool.{Bool-set}
use native.Mathlib.Bridge.{le_prop}
use gig_drive.Repository.{Repository}

module _ {E : Type 0} where
  abbrev pub first : (E → Bool) → List E → Option E
  first p [] = none
  first p (x ∷ xs) = if p x then some x else first p xs

  pub first-hit :
      (p : E → Bool) (xs : List E) (e : E) → first p xs ≡ some e → Mem e xs × (p e ≡ true)
  first-hit p [] e h = cc
  first-hit p (x ∷ xs) e h = elim (Bool-cases (p x)) [
    | inl q ↦ let e' : x ≡ e = ground arith in (mem-cons.1 (Or.inl (sym e')), rw (← e') q)
    | inr q ↦ let (m, t) = first-hit p xs e (ground arith) in (mem-cons_of_mem x m, t)
  ]

  pub first-miss :
      (p : E → Bool) (xs : List E) → first p xs ≡ none → (e : E) → Mem e xs → p e ≡ false
  first-miss p [] h e m = absurd (not-mem-nil m)
  first-miss p (x ∷ xs) h e m = elim (Bool-cases (p x)) [
    | inl q ↦ absurd (ground arith)
    | inr q ↦
        Or.elim (Bool-set _ _) (mem-cons.0 m) (λ d. rw d q)
          (λ n. first-miss p xs (ground arith) e n)
  ]

module _ {E : Type 0} (key : E → ℕ) where
  abbrev pub above : List E → ℕ
  above [] = 0
  above (x ∷ xs) = suc (key x + above xs)

  pub above-lt : (xs : List E) (e : E) → Mem e xs → key e < above xs
  above-lt [] e m = absurd (not-mem-nil m)
  above-lt (x ∷ xs) e m =
      Or.elim le_prop (mem-cons.0 m) (λ d. rw d (omega arith)) (λ n. omega (arith, above-lt xs e n))

  abbrev pub listed : Repository key
  listed = record {
    find = filter;
    find_one = first;
    count = λ p rows. length (filter p rows);
    save = upsert key;
    remove = erase key;
    delete = λ p. filter (λ e. not (p e));
    new_id = above;
    find_rows = λ p rows. Perm.refl _;
    find_one_hit = first-hit;
    find_one_miss = first-miss;
    count_rows = λ p rows. refl;
    save_rows = λ e rows. Perm.refl _;
    remove_rows = λ e rows. Perm.refl _;
    delete_rows = λ p rows. Perm.refl _;
    new_id_unused = λ rows e m d. omega (arith, above-lt rows e m);
  }
