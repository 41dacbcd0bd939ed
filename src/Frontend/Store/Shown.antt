-- ===== src/Frontend/Store/Shown.antt =====
-- What the dashboards show after the responses of the API.
use mathlib.Core.Logic.Or
use mathlib.Core.List.{mem-cons, mem-cons_self, mem-cons_of_mem, not-mem-nil, Mem-prop}
use gig_drive.Shared.{
  ℕ, ◌==◌, ==_iff, Bool, true, false, All, ◌≡◌, ◌≢◌, refl, sym, ap, ◌∙◌, Option, none, some, List,
  [], ◌∷◌, Mem, map, filter, head?, get_or, Keyed, arith, Bool-cases, inl, inr, subst,
}
use gig_drive.Entities.{Text}
use gig_drive.TripViews.{TripDto}
use gig_drive.Bookings.{BookingDto}
use gig_drive.Frontend.Actions.{
  Response, mutation_error, hydrate_mutation, run_mutation, after_load_for_driver,
}
use gig_drive.Frontend.Store.{
  EntityAdapter, AppState, dispatch_all, with_trip, select_bookings_with_trips,
}

map-same : {A : Type 0} (f : A → A) (xs : List A) → ((x : A) → Mem x xs → f x ≡ x) → map f xs ≡ xs
map-same f [] h = refl
map-same f (x ∷ xs) h =
    rw (h x mem-cons_self, map-same f xs (λ y m. h y (mem-cons_of_mem x m))) refl

mem-map : {A B : Type 0} (f : A → B) (x : A) (xs : List A) → Mem x xs → Mem (f x) (map f xs)
mem-map f x [] m = absurd (not-mem-nil m)
mem-map f x (y ∷ ys) m =
    Or.elim Mem-prop (mem-cons.0 m) (λ e. mem-cons.1 (Or.inl (ap f e)))
      (λ n. mem-cons_of_mem (f y) (mem-map f x ys n))

All-map :
    {A B : Type 0} (P : B → Type 0) (f : A → B)
    → ((x : A) → P (f x))
    → (xs : List A) → All P (map f xs)
All-map P f h [] = tt
All-map P f h (x ∷ xs) = (h x, All-map P f h xs)

differs : (m n : ℕ) → m ≢ n → (n == m) ≡ false
differs m n h = elim (Bool-cases (n == m)) [
  | inl same ↦ absurd (h (sym ((==_iff n m).0 same)))
  | inr other ↦ other
]

mem-head :
    {A : Type 0} (p : A → Bool) (xs : List A) (x : A) → head? (filter p xs) ≡ some x → Mem x xs
mem-head p [] x e = absurd (ground arith)
mem-head p (y ∷ ys) x e = elim (Bool-cases (p y)) [
  | inl hit ↦
      let at : head? (filter p (y ∷ ys)) ≡ some y = rw hit refl in
      let same : y ≡ x = ground arith in subst (λ z. Mem z (y ∷ ys)) same mem-cons_self
  | inr miss ↦
      let rest : head? (filter p (y ∷ ys)) ≡ head? (filter p ys) = rw miss refl in
      mem-cons_of_mem y (mem-head p ys x (sym rest ∙ e))
]

in_all :
    {E : Type 0} {id : E → ℕ} (adapter : EntityAdapter E id) (e : E) (s : adapter.State)
    → adapter.entity s (id e) ≡ some e
    → Mem e (adapter.select_all s)
in_all {E} {id} adapter e s at =
    mem-head (λ f. id f == id e) (adapter.select_all s) e
      (sym (adapter.entity-select_all s (id e)) ∙ at)

-- The response agrees with itself: a booking has its own trip, and bookings of one trip the same.
abbrev pub Agrees : List BookingDto → Type 0
Agrees bookings =
    (b : BookingDto)
    → Mem b bookings
    → (b.trip.id ≡ b.trip_id)
      × ((t : TripDto) → Mem t (map (λ c. c.trip) bookings) → t.id ≡ b.trip.id → t ≡ b.trip)

module _ (bookings_adapter : EntityAdapter BookingDto (λ b. b.id))
    (trips_adapter : EntityAdapter TripDto (λ t. t.id)) where
  -- After the bookings of a driver have been loaded, the dashboard shows the response, whatever trips the
  -- store had before, if the ids of the response are distinct and its bookings of one trip have the same.
  pub after_load_for_driver-shown :
      (bookings : List BookingDto) (state : AppState bookings_adapter trips_adapter)
      → Keyed (λ (b : BookingDto). b.id) bookings
      → Agrees bookings
      → let state' =
          dispatch_all bookings_adapter trips_adapter
            (after_load_for_driver (Response.success bookings))
            state in
        (select_bookings_with_trips bookings_adapter trips_adapter state' ≡ bookings)
        × (state'.bookings.loading ≡ false)
        × (state'.bookings.loaded ≡ true)
        × (state'.bookings.pending_id ≡ none)
  unfolding after_load_for_driver
  after_load_for_driver-shown bookings state keyed agrees =
      let all = bookings_adapter.select_all-set_all bookings state.bookings.entities keyed in
      (rw all (map-same _ bookings known), refl, refl, refl)
    where
      known :
          (b : BookingDto)
          → Mem b bookings
          → record b {
            trip =
                get_or
                  (trips_adapter.entity
                    (trips_adapter.upsert_many (map (λ c. c.trip) bookings) state.trips.entities)
                    b.trip_id)
                  b.trip;
          }
            ≡ b
      known b m =
          let (own, same) = agrees b m in
          let (t, there, same_id, found) =
            trips_adapter.entity-upsert_many (map (λ c. c.trip) bookings) state.trips.entities
              b.trip (mem-map (λ c. c.trip) b bookings m) in
          let at =
            subst
              (λ k.
                trips_adapter.entity
                  (trips_adapter.upsert_many (map (λ c. c.trip) bookings) state.trips.entities) k
                ≡ some t)
              own found in
          ap (λ r. record b { trip = get_or r b.trip }) at
          ∙ ap (λ r. record b { trip = r }) (same t there same_id)

  -- After a mutation that succeeds, the dashboard shows the booking of the response with its trip, all
  -- bookings of that trip with that trip, and the other bookings of other trips as before it. After one that
  -- fails it shows what it showed, and the message for the error. In both cases none is pending.
  pub run_mutation-shown :
      (verb : Text) (b : BookingDto) (status : Option ℕ)
      (state : AppState bookings_adapter trips_adapter)
      → b.trip.id ≡ b.trip_id
      → let done =
          dispatch_all bookings_adapter trips_adapter
            (run_mutation verb (Response.success b))
            state in
        let failed =
          dispatch_all bookings_adapter trips_adapter
            (run_mutation verb (Response.failure status))
            state in
        let shown = select_bookings_with_trips bookings_adapter trips_adapter in
        Mem b (shown done)
        × All (λ c. c.trip_id ≡ b.trip_id → c.trip ≡ b.trip) (shown done)
        × ((c : BookingDto)
            → bookings_adapter.entity state.bookings.entities c.id ≡ some c
            → c.id ≢ b.id
            → c.trip_id ≢ b.trip_id
            → Mem (with_trip bookings_adapter trips_adapter state c) (shown done))
        × (done.bookings.pending_id ≡ none)
        × (shown failed ≡ shown state)
        × (failed.bookings.pending_id ≡ none)
        × (failed.bookings.error ≡ some (mutation_error verb status))
  unfolding run_mutation
  run_mutation-shown verb b status state own =
      (here, All-map _ _ same_trip _, others, refl, refl, refl, refl)
    where
      done : AppState bookings_adapter trips_adapter
      done = dispatch_all bookings_adapter trips_adapter (hydrate_mutation b) state

      stored : bookings_adapter.entity done.bookings.entities b.id ≡ some b
      stored =
          let written = bookings_adapter.entity-upsert_one b state.bookings.entities b.id in
          let own_id = (==_iff b.id b.id).1 refl in ground arith

      same_trip :
          (c : BookingDto)
          → c.trip_id ≡ b.trip_id
          → (with_trip bookings_adapter trips_adapter done c).trip ≡ b.trip
      same_trip c e =
          let written = trips_adapter.entity-upsert_one b.trip state.trips.entities c.trip_id in
          let own_id = (==_iff b.trip.id c.trip_id).1 (own ∙ sym e) in ground arith

      here : Mem b (select_bookings_with_trips bookings_adapter trips_adapter done)
      here =
          let same : with_trip bookings_adapter trips_adapter done b ≡ b =
            ap (λ t. record b { trip = t }) (same_trip b refl) in
          subst (λ c. Mem c (select_bookings_with_trips bookings_adapter trips_adapter done)) same
            (mem-map (with_trip bookings_adapter trips_adapter done) b _
              (in_all bookings_adapter b done.bookings.entities stored))

      others :
          (c : BookingDto)
          → bookings_adapter.entity state.bookings.entities c.id ≡ some c
          → c.id ≢ b.id
          → c.trip_id ≢ b.trip_id
          → Mem
              (with_trip bookings_adapter trips_adapter state c)
              (select_bookings_with_trips bookings_adapter trips_adapter done)
      others c at other_id other_trip =
          let id_apart = differs c.id b.id other_id in
          let trip_apart = differs c.trip_id b.trip.id (λ q. other_trip (q ∙ own)) in
          let kept = bookings_adapter.entity-upsert_one b state.bookings.entities c.id in
          let trip_kept = trips_adapter.entity-upsert_one b.trip state.trips.entities c.trip_id in
          let still : bookings_adapter.entity done.bookings.entities c.id ≡ some c = ground arith in
          let same_trip : trips_adapter.entity done.trips.entities c.trip_id
              ≡ trips_adapter.entity state.trips.entities c.trip_id =
            ground arith in
          subst (λ x. Mem x (select_bookings_with_trips bookings_adapter trips_adapter done))
            (ap (λ r. record c { trip = get_or r c.trip }) same_trip)
            (mem-map (with_trip bookings_adapter trips_adapter done) c _
              (in_all bookings_adapter c done.bookings.entities still))
