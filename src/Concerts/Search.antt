-- ===== src/Concerts/Search.antt =====
-- backend/src/concerts/concerts.service.ts, search: what a search of concerts shows, and a search that is repeated.

use gig_drive.Shared.{
  ℕ, ◌≡◌, refl, sym, ap, ◌∙◌, ◌⊎◌, inl, inr, Option, none, some, List, [], ◌∷◌, arith, length, map,
  subst,
}
use gig_drive.Entities.{Concert}
use gig_drive.Errors.{HttpError, Result, ok, err}
use gig_drive.Service.{World, Env, proceed, pure, ◌>>=◌}
use gig_drive.Ticketmaster.{ProviderConcert, Provider, SearchConcertsDto, search_events}
use gig_drive.Concerts.{
  Cache, RowOrder, ConcertDto, concert_dto, search_cache, sync_and_search, search,
  concerts_page_size, upsert_provider_concerts,
}
use gig_drive.Concerts.Sync.{search_cache-same}
use gig_drive.Concerts.Pages.{IsPage, search_cache-IsPage, search_cache-again}

length-map : {A B : Type 0} (f : A → B) (xs : List A) → length (map f xs) ≡ length xs
length-map f [] = refl
length-map f (x ∷ xs) = omega (arith, length-map f xs)

length-ok : {A : Type 0} {xs ys : List A} → ok xs ≡ ok ys → length xs ≡ length ys
length-ok {A} e = ap size e
  where
    size : Result (List A) → ℕ
    size (ok zs) = length zs
    size (err _) = 0

module _ (env : Env) (cache : Cache) where
  -- A hit: the provider is not asked.
  search-hit :
      (first second : RowOrder) (provider : Provider) (dto : SearchConcertsDto) (c : Concert)
      (cs : List Concert) (w : World)
      → search_cache env cache first dto w ≡ (ok (c ∷ cs), w)
      → search env cache first second provider dto w ≡ (ok (map concert_dto (c ∷ cs)), w)
  unfolding search
  search-hit first second provider dto c cs w e = rw (search, e) refl

  -- What a search returns.
  abbrev Found : SearchConcertsDto → Result (List ConcertDto) × World → Type 0
  Found dto m =
      ((e : HttpError) × (m.0 ≡ err e))
      ⊎ ((m.0 ≡ ok [])
          ⊎ ((order : RowOrder) × (c : Concert) × (cs : List Concert) × (m.0
                ≡ ok (map concert_dto (c ∷ cs)))
              × (search_cache env cache order dto m.1 ≡ (ok (c ∷ cs), m.1))))

  after-Found :
      (order : RowOrder) (dto : SearchConcertsDto) (w : World)
      → Found dto ((search_cache env cache order dto >>= λ after. pure (map concert_dto after)) w)
  after-Found order dto w =
      from (search_cache env cache order dto w) refl (search_cache-same env cache order dto w)
    where
      from :
          (m : Result (List Concert) × World)
          → search_cache env cache order dto w ≡ m
          → m.1 ≡ w
          → Found dto (proceed m (λ after. pure (map concert_dto after)))
      from (err e, u) d same = inl (e, refl)
      from (ok [], u) d same = inr (inl refl)
      from (ok (c ∷ cs), u) d same = inr (
          inr (
            order,
            c,
            cs,
            refl,
            subst (λ v. search_cache env cache order dto v ≡ (ok (c ∷ cs), u)) (sym same) d,
          ))

  sync-Found :
      (order : RowOrder) (dto : SearchConcertsDto) (fetched : Option (List ProviderConcert))
      (w : World)
      → Found dto (sync_and_search env cache order dto fetched w)
  unfolding sync_and_search
  sync-Found order dto none w = inr (inl refl)
  sync-Found order dto (some []) w = inr (inl refl)
  sync-Found order dto (some (p ∷ ps)) w = from (upsert_provider_concerts env cache (p ∷ ps) w)
    where
      from :
          (m : Result (Unit {0}) × World)
          → Found dto (
              proceed m
                (λ _. search_cache env cache order dto >>= λ after. pure (map concert_dto after)))
      from (ok _, u) = after-Found order dto u
      from (err e, u) = inl (e, refl)

  search-Found :
      (first second : RowOrder) (provider : Provider) (dto : SearchConcertsDto) (w : World)
      → Found dto (search env cache first second provider dto w)
  unfolding search
  search-Found first second provider dto w =
      from (search_cache env cache first dto w) refl (search_cache-same env cache first dto w)
    where
      from :
          (m : Result (List Concert) × World)
          → search_cache env cache first dto w ≡ m
          → m.1 ≡ w
          → Found dto (
              proceed m (λ cached. elim cached [
                | [] ↦ sync_and_search env cache second dto (search_events provider dto)
                | c ∷ cs ↦ pure (map concert_dto (c ∷ cs))
              ]))
      from (err e, u) d same = inl (e, refl)
      from (ok [], u) d same = sync-Found second dto (search_events provider dto) u
      from (ok (c ∷ cs), u) d same = inr (
          inr (
            first,
            c,
            cs,
            refl,
            subst (λ v. search_cache env cache first dto v ≡ (ok (c ∷ cs), u)) (sym same) d,
          ))

  -- A search that returns concerts, however the provider answers and the database orders concerts of one
  -- start, returns visible concerts of the cache as it is afterwards, the earliest first, and at most a page
  -- of them.
  pub search-IsPage :
      (first second : RowOrder) (provider : Provider) (dto : SearchConcertsDto)
      (dtos : List ConcertDto) (w : World)
      → (search env cache first second provider dto w).0 ≡ ok dtos
      → let w' = (search env cache first second provider dto w).1 in
        (cs : List Concert) × (dtos ≡ map concert_dto cs) × IsPage concerts_page_size w' cs
  search-IsPage first second provider dto dtos w e =
      elim (search-Found first second provider dto w) [
        | inl (x, d) ↦ absurd (ground arith)
        | inr (inl d) ↦ ([], ground arith, (tt, tt, omega arith))
        | inr (inr (order, c, cs, d, again)) ↦ (
          c ∷ cs,
          ground arith,
          search_cache-IsPage env cache order dto (c ∷ cs)
              (search env cache first second provider dto w).1 again,
        )
      ]

  -- After a search that has returned a concert, the same search is answered from the cache, whatever
  -- provider there is and in whatever order the database returns concerts of one start: the provider is not
  -- asked, the tables stay as they are, and it returns as many concerts. That they are the same concerts is
  -- not stated.
  pub search-repeats :
      (first second third fourth : RowOrder) (p q : Provider) (dto : SearchConcertsDto)
      (d : ConcertDto) (ds : List ConcertDto) (w : World)
      → (search env cache first second p dto w).0 ≡ ok (d ∷ ds)
      → let w' = (search env cache first second p dto w).1 in
        (cs : List Concert) × (search_cache env cache third dto w' ≡ (ok cs, w'))
        × (search env cache third fourth q dto w' ≡ (ok (map concert_dto cs), w'))
        × (length cs ≡ length (d ∷ ds))
  search-repeats first second third fourth p q dto d ds w e =
      elim (search-Found first second p dto w) [
        | inl (x, f) ↦ absurd (ground arith)
        | inr (inl f) ↦ absurd (ground arith)
        | inr (inr (order, c, cs, f, again)) ↦
            let w' = (search env cache first second p dto w).1 in
            let (found, read, many) =
              search_cache-again env cache order third dto (c ∷ cs) w' again in
            let same : ok (map concert_dto (c ∷ cs)) ≡ ok (d ∷ ds) = sym f ∙ e in
            let size : length (c ∷ cs) ≡ length (d ∷ ds) =
              sym (length-map concert_dto (c ∷ cs)) ∙ length-ok same in
            from w' found read (many ∙ size)
      ]
    where
      from :
          (w' : World) (found : List Concert)
          → search_cache env cache third dto w' ≡ (ok found, w')
          → length found ≡ length (d ∷ ds)
          → (cs : List Concert) × (search_cache env cache third dto w' ≡ (ok cs, w'))
            × (search env cache third fourth q dto w' ≡ (ok (map concert_dto cs), w'))
            × (length cs ≡ length (d ∷ ds))
      from w' [] read many = absurd (omega (arith, many))
      from w' (c ∷ cs) read many = (c ∷ cs, read, search-hit third fourth q dto c cs w' read, many)
