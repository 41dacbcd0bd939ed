-- ===== src/Frontend/Store/Listed.antt =====
-- The entities of a store as a list.
use mathlib.Core.Logic.Or
use mathlib.Core.Bool.{Bool-set}
use mathlib.Core.List.{mem-cons, mem-cons_self, mem-cons_of_mem, not-mem-nil}
use gig_drive.Shared.{
  ℕ, ◌==◌, ==_iff, false, ◌≡◌, refl, ap, ◌∙◌, ◌⊎◌, inl, inr, Option, some, List, [], ◌∷◌, Mem,
  arith, upsert, filter, head?, foldl, if◌then◌else◌, Bool-cases,
}
use gig_drive.Frontend.Store.{EntityAdapter}

module _ {E : Type 0} (id : E → ℕ) where
  abbrev pub entity_in : List E → ℕ → Option E
  entity_in es k = head? (filter (λ e. id e == k) es)

  pub entity_in-upsert :
      (e : E) (es : List E) (k : ℕ)
      → entity_in (upsert id e es) k ≡ (if id e == k then some e else entity_in es k)
  entity_in-upsert e [] k = ground arith
  entity_in-upsert e (x ∷ xs) k = elim (Bool-cases (id x == id e)) [
    | inl same ↦ rw same (ground arith)
    | inr other ↦ rw other (ground (arith, entity_in-upsert e xs k))
  ]

  abbrev pub write_all : List E → List E → List E
  write_all new es = foldl (λ acc e. upsert id e acc) es new

  -- What an entity is after some are written: one of them, or as before.
  write_all_cases :
      (new es : List E) (k : ℕ)
      → ((f : E) × Mem f new × (id f ≡ k) × (entity_in (write_all new es) k ≡ some f))
        ⊎ (((e : E) → Mem e new → (id e == k) ≡ false)
            × (entity_in (write_all new es) k ≡ entity_in es k))
  write_all_cases [] es k = inr (λ e m. absurd (not-mem-nil m), refl)
  write_all_cases (x ∷ xs) es k = elim (write_all_cases xs (upsert id x es) k) [
    | inl (f, m, q, at) ↦ inl (f, mem-cons_of_mem x m, q, at)
    | inr (others, at) ↦ elim (Bool-cases (id x == k)) [
      | inl hit ↦
          inl
            (x, mem-cons_self, (==_iff (id x) k).0 hit, at ∙ entity_in-upsert x es k ∙ rw hit refl)
      | inr miss ↦ inr (
        λ e m. Or.elim (Bool-set _ _) (mem-cons.0 m) (λ q. ap (λ y. id y == k) q ∙ miss) (others e),
        at ∙ entity_in-upsert x es k ∙ rw miss refl,
      )
    ]
  ]

  pub entity_in-write_all :
      (new es : List E) (e : E)
      → Mem e new
      → (f : E) × Mem f new × (id f ≡ id e) × (entity_in (write_all new es) (id e) ≡ some f)
  entity_in-write_all new es e m = elim (write_all_cases new es (id e)) [
    | inl found ↦ found
    | inr (others, at) ↦
        let apart = others e m in let own = (==_iff (id e) (id e)).1 refl in absurd (ground arith)
  ]

  pub entity_in-write_all_other :
      (new es : List E) (k : ℕ)
      → ((e : E) → Mem e new → (id e == k) ≡ false)
      → entity_in (write_all new es) k ≡ entity_in es k
  entity_in-write_all_other new es k others = elim (write_all_cases new es k) [
    | inl (f, m, q, at) ↦
        let apart = others f m in let own = (==_iff (id f) k).1 q in absurd (ground arith)
    | inr (apart, at) ↦ at
  ]

  abbrev pub listed_entities : EntityAdapter E id
  listed_entities = record {
    State = List E;
    initial = [];
    set_all = λ es s. es;
    upsert_one = upsert id;
    upsert_many = write_all;
    select_all = λ s. s;
    entity = entity_in;
    select_all-initial = refl;
    select_all-set_all = λ es s keyed. refl;
    entity-select_all = λ s k. refl;
    entity-upsert_one = entity_in-upsert;
    entity-upsert_many = entity_in-write_all;
    entity-upsert_many-other = entity_in-write_all_other;
  }
