-- ===== src/Concerts/Sync.antt =====
-- What the import of concerts of the provider keeps of the cache.
use mathlib.Core.Logic.Or
use mathlib.Core.List.{mem-cons, mem-cons_of_mem, Mem-prop}
use mathlib.Core.List.Perm
use gig_drive.Shared.{
  ℕ, ◌==◌, true, ◌&&◌, ◌≡◌, refl, sym, ap, ◌∙◌, ◌⊎◌, inl, inr, Option, none, some, List, [], ◌∷◌,
  Mem, arith, map, subst, sum_by, sum_by-perm, if◌then◌else◌, Bool-cases,
}
use gig_drive.Entities.{Concert}
use gig_drive.Errors.{Result, ok, err}
use gig_drive.Service.{World, Env, Action, proceed, pure}
use gig_drive.Ticketmaster.{ProviderConcert, Provider, SearchConcertsDto, search_events}
use gig_drive.Concerts.{
  Cache, RowOrder, concert_dto, synced, imported, has_external_id, put, put_all, distinct_ids,
  search_cache, upsert_provider_concerts, sync_and_search, search,
}

-- A row with no external id stays as it is.
put-own :
    (id now : ℕ) (p : ProviderConcert) (c : Concert) (cs : List Concert)
    → c.external_id ≡ none
    → Mem c cs
    → Mem c (put id now p cs)
put-own id now p c [] own m = mem-cons_of_mem (imported id now p) m
put-own id now p c (d ∷ ds) own m = elim (Bool-cases (has_external_id p.external_id d)) [
  | inl hit ↦
      rw (put, hit)
        (Or.elim Mem-prop (mem-cons.0 m) (λ e. absurd (apart e hit)) (mem-cons_of_mem (synced p d)))
  | inr miss ↦
      rw (put, miss)
        (Or.elim Mem-prop (mem-cons.0 m) (λ e. mem-cons.1 (Or.inl e))
          (λ n. mem-cons_of_mem d (put-own id now p c ds own n)))
]
  where
    apart : c ≡ d → has_external_id p.external_id d ≡ true → ⊥
    apart e hit =
        let none_there : d.external_id ≡ none = ap (λ x. x.external_id) (sym e) ∙ own in
        ground arith

-- A column of numbers that the import does not write, and that new rows do not have.
abbrev IsKept : (Concert → ℕ) → Type 0
IsKept f =
    ((p : ProviderConcert) (c : Concert) → f (synced p c) ≡ f c)
    × ((id now : ℕ) (p : ProviderConcert) → f (imported id now p) ≡ 0)

put-total :
    (f : Concert → ℕ) (id now : ℕ) (p : ProviderConcert) (cs : List Concert)
    → IsKept f
    → sum_by f (put id now p cs) ≡ sum_by f cs
put-total f id now p [] (kept, fresh) = let none_new = fresh id now p in omega arith
put-total f id now p (c ∷ cs) (kept, fresh) = elim (Bool-cases (has_external_id p.external_id c)) [
  | inl hit ↦ rw (put, hit) (omega (arith, kept p c))
  | inr miss ↦ rw (put, miss) (omega (arith, put-total f id now p cs (kept, fresh)))
]

module _ (new_id : List Concert → ℕ) (now : ℕ) where
  put_all-own :
      (ps : List ProviderConcert) (c : Concert) (cs : List Concert)
      → c.external_id ≡ none
      → Mem c cs
      → Mem c (put_all new_id now ps cs)
  put_all-own [] c cs own m = m
  put_all-own (p ∷ ps) c cs own m =
      put_all-own ps c (put (new_id cs) now p cs) own (put-own (new_id cs) now p c cs own m)

  put_all-total :
      (f : Concert → ℕ) (ps : List ProviderConcert) (cs : List Concert)
      → IsKept f
      → sum_by f (put_all new_id now ps cs) ≡ sum_by f cs
  put_all-total f [] cs k = refl
  put_all-total f (p ∷ ps) cs k =
      put_all-total f ps (put (new_id cs) now p cs) k ∙ put-total f (new_id cs) now p cs k

proceed-same :
    {A B : Type 0} (m : Result A × World) (f : A → Action B)
    → ((a : A) (u : World) → (f a u).1 ≡ u)
    → (proceed m f).1 ≡ m.1
proceed-same (ok a, w) f h = h a w
proceed-same (err e, w) f h = refl

abbrev pub hidden_at : ℕ → Concert → ℕ
hidden_at id c = if c.id == id && c.hidden then 1 else 0

module _ (env : Env) (cache : Cache) where
  pub search_cache-same :
      (order : RowOrder) (dto : SearchConcertsDto) (w : World)
      → (search_cache env cache order dto w).1 ≡ w
  unfolding search_cache
  search_cache-same order dto w = ground arith

  upsert-effect :
      (ps : List ProviderConcert) (w : World)
      → let w' = (upsert_provider_concerts env cache ps w).1 in
        (w' ≡ w)
        ⊎ ((rows : List Concert) × (cache.upsert w.now ps w.concerts ≡ some rows)
            × (w' ≡ record w { concerts = rows }))
  unfolding upsert_provider_concerts
  upsert-effect ps w = ground arith

  -- What a search leaves: the tables as they were, or an import.
  abbrev Imports : World → World → Type 0
  Imports w w' =
      (w' ≡ w) ⊎ ((ps : List ProviderConcert) × (w' ≡ (upsert_provider_concerts env cache ps w).1))

  sync-effect :
      (order : RowOrder) (dto : SearchConcertsDto) (fetched : Option (List ProviderConcert))
      (w : World)
      → Imports w (sync_and_search env cache order dto fetched w).1
  unfolding sync_and_search
  sync-effect order dto none w = inl refl
  sync-effect order dto (some []) w = inl refl
  sync-effect order dto (some (p ∷ ps)) w = inr (
    p ∷ ps,
    proceed-same (upsert_provider_concerts env cache (p ∷ ps) w) _ (λ _ u.
        proceed-same (search_cache env cache order dto u) _ (λ _ v. refl)
        ∙ search_cache-same order dto u),
  )

  search-from :
      (order : RowOrder) (fetched : Option (List ProviderConcert)) (dto : SearchConcertsDto)
      (cached : Result (List Concert) × World) (w : World)
      → cached.1 ≡ w
      → Imports w
          (proceed cached (λ cached. elim cached [
            | [] ↦ sync_and_search env cache order dto fetched
            | c ∷ cs ↦ pure (map concert_dto (c ∷ cs))
          ])).1
  search-from order fetched dto (ok [], u) w e =
      subst (λ v. Imports v (sync_and_search env cache order dto fetched u).1) e
        (sync-effect order dto fetched u)
  search-from order fetched dto (ok (c ∷ cs), u) w e = inl e
  search-from order fetched dto (err x, u) w e = inl e

  search-effect :
      (first second : RowOrder) (provider : Provider) (dto : SearchConcertsDto) (w : World)
      → Imports w (search env cache first second provider dto w).1
  unfolding search
  search-effect first second provider dto w =
      search-from second (search_events provider dto) dto (search_cache env cache first dto w) w
        (search_cache-same first dto w)

  import-keeps :
      (ps : List ProviderConcert) (w : World)
      → let w' = (upsert_provider_concerts env cache ps w).1 in
        ((c : Concert) → c.external_id ≡ none → Mem c w.concerts → Mem c w'.concerts)
        × ((f : Concert → ℕ) → IsKept f → sum_by f w'.concerts ≡ sum_by f w.concerts)
  import-keeps ps w = elim (upsert-effect ps w) [
    | inl same ↦ rw same (λ c own m. m, λ f k. refl)
    | inr (rows, e, saved) ↦ elim (Bool-cases (distinct_ids ps)) [
      | inr twice ↦ absurd (ground (arith, cache.upsert_twice w.now ps w.concerts twice))
      | inl once ↦
          let (rows', d, perm) = cache.upsert_rows w.now ps w.concerts once in
          let same : rows ≡ rows' = ground arith in
          rw (saved, same)
            (
              λ c own m.
                  (Perm.mem_iff perm).1 (put_all-own cache.new_id w.now ps c w.concerts own m),
              λ f k. sum_by-perm f perm ∙ put_all-total cache.new_id w.now f ps w.concerts k,
            )
    ]
  ]

  -- A search, whatever the provider returns, keeps each concert that users have submitted as it is, and hides
  -- and shows none: the rows with an id that are hidden are as many as before.
  pub search-keeps :
      (first second : RowOrder) (provider : Provider) (dto : SearchConcertsDto) (w : World)
      → let w' = (search env cache first second provider dto w).1 in
        ((c : Concert) → c.external_id ≡ none → Mem c w.concerts → Mem c w'.concerts)
        × ((id : ℕ) → sum_by (hidden_at id) w'.concerts ≡ sum_by (hidden_at id) w.concerts)
  search-keeps first second provider dto w = elim (search-effect first second provider dto w) [
    | inl same ↦ rw same (λ c own m. m, λ id. refl)
    | inr (ps, e) ↦
        let (own, total) = import-keeps ps w in
        rw e (own, λ id. total (hidden_at id) (λ p c. refl, λ i now p. ground arith))
  ]
