-- ===== src/Repository/Queries.antt =====
-- What follows of the repository's laws for membership and for sums over the rows.
use mathlib.Core.List.Perm
use mathlib.Core.Logic.{◌∨₁◌}
use mathlib.Core.Logic.Or
use gig_drive.Shared.{
  ℕ, ◌+◌, ◌≤◌, Bool, true, ◌≡◌, ◌∙◌, List, Mem, arith, mem-filter, mem-filter_true, filter-passes,
  mem-upsert_ne, mem-upsert_self, sum_by_mono, ◌≢◌, mem-upsert, sum_by, sum_by-perm, sum_by-filter,
  sum_by-upsert, sum_by-upsert-le, weight_at, Keyed, Keyed-upsert, count_key, count_key-upsert-ge,
  ◌==◌, if◌then◌else◌, false, Option, some, sym, ap, inl, inr, Option-cases,
}
use gig_drive.Repository.{Repository}

clash : true ≡ false → ⊥
clash q = cc

module _ {E : Type 0} {key : E → ℕ} (r : Repository key) where
  open r use {find, find_one, save, find_rows, find_one_hit, find_one_miss, save_rows}

  pub sum_by-find :
      (f : E → ℕ) (p : E → Bool) (rows : List E)
      → sum_by f (find p rows) ≡ sum_by (λ x. if p x then f x else 0) rows
  sum_by-find f p rows = sum_by-perm f (find_rows p rows) ∙ sum_by-filter f p rows

  pub mem-find : (p : E → Bool) (e : E) (rows : List E) → Mem e (find p rows) → Mem e rows
  mem-find p e rows m = mem-filter p e rows ((Perm.mem_iff (find_rows p rows)).0 m)

  pub mem-save : (a e : E) (rows : List E) → Mem a (save e rows) → (a ≡ e) ∨₁ Mem a rows
  mem-save a e rows m = mem-upsert key a e rows ((Perm.mem_iff (save_rows e rows)).0 m)

  pub sum_by-save-le :
      (f : E → ℕ) (e : E) (rows : List E) → sum_by f (save e rows) ≤ sum_by f rows + f e
  sum_by-save-le f e rows =
      omega (arith, sum_by-perm f (save_rows e rows), sum_by-upsert-le key f e rows)

  pub sum_by-save :
      (f : E → ℕ) (e : E) (rows : List E)
      → Keyed key rows
      → sum_by f (save e rows) + weight_at key f (key e) rows ≡ sum_by f rows + f e
  sum_by-save f e rows k =
      omega (arith, sum_by-perm f (save_rows e rows), sum_by-upsert key f e rows k)

  pub Keyed-save : (e : E) (rows : List E) → Keyed key rows → Keyed key (save e rows)
  Keyed-save e rows k n = omega (
    arith,
    sum_by-perm (λ x. if key x == n then 1 else 0) (save_rows e rows),
    Keyed-upsert key e rows k n,
  )

  pub count_key-save-ge :
      (n : ℕ) (e : E) (rows : List E) → count_key key n rows ≤ count_key key n (save e rows)
  count_key-save-ge n e rows = omega (
    arith,
    sum_by-perm (λ x. if key x == n then 1 else 0) (save_rows e rows),
    count_key-upsert-ge key n e rows,
  )

  pub find-passes : (p : E → Bool) (e : E) (rows : List E) → Mem e (find p rows) → p e ≡ true
  find-passes p e rows m = filter-passes p e rows ((Perm.mem_iff (find_rows p rows)).0 m)

  pub mem-find_true :
      (p : E → Bool) (e : E) (rows : List E) → Mem e rows → p e ≡ true → Mem e (find p rows)
  mem-find_true p e rows m h = (Perm.mem_iff (find_rows p rows)).1 (mem-filter_true p e rows m h)

  pub mem-save_ne : (a e : E) (rows : List E) → Mem a rows → key a ≢ key e → Mem a (save e rows)
  mem-save_ne a e rows m h = (Perm.mem_iff (save_rows e rows)).1 (mem-upsert_ne key a e rows m h)

  pub mem-save_self : (e : E) (rows : List E) → Mem e (save e rows)
  mem-save_self e rows = (Perm.mem_iff (save_rows e rows)).1 (mem-upsert_self key e rows)

  pub Keyed-find : (p : E → Bool) (rows : List E) → Keyed key rows → Keyed key (find p rows)
  Keyed-find p rows k n = omega (
    arith,
    sum_by-find (λ x. if key x == n then 1 else 0) p rows,
    sum_by_mono (λ x. if p x then (if key x == n then 1 else 0) else 0)
        (λ x. if key x == n then 1 else 0) (λ x. ground arith) rows,
    k n,
  )

  -- A query that a row passes, and no other row, finds the row after it is written.
  pub find_one-saved :
      IsSet (Option E)
      → (p : E → Bool) (e : E) (rows : List E) → p e ≡ true
      → ((x : E) → Mem x rows → p x ≡ false)
      → find_one p (save e rows) ≡ some e
  find_one-saved s p e rows h miss = elim (Option-cases (find_one p (save e rows))) [
    | inl d ↦ absurd (clash (sym h ∙ find_one_miss p _ d e (mem-save_self e rows)))
    | inr (x, d) ↦
        let (m, hit) = find_one_hit p _ x d in
        Or.elim (s _ _) (mem-save x e rows m) (λ q. d ∙ ap some q)
          (λ old. absurd (clash (sym hit ∙ miss x old)))
  ]
