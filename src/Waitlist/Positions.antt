-- ===== src/Waitlist/Positions.antt =====
-- The positions on the waitlist, and what joining it checks.
use gig_drive.Shared.{
  ℕ, ◌+◌, ◌≤◌, ◌==◌, ==_iff, false, ◌≡◌, ◌≢◌, refl, ap, ◌∙◌, ◌⊎◌, inl, inr, none, some, List, [],
  ◌∷◌, ◌++◌, All, arith, Bool-cases, Option-cases, get_or, lookup, insert, lookup-insert, includes,
  sum_by, if◌then◌else◌,
}
use gig_drive.Shared.Sort.{sort_by}
use gig_drive.Entities.{TripStatus, Trip, WaitlistEntry}
use gig_drive.Service.{World, Env}
use gig_drive.Waitlist.{
  joined_before, positions_loop, positions_on_trips, join, entry_of, new_entry,
  assert_no_active_booking, holds_booking,
}

-- The entries of a trip in a list.
abbrev pub entries_of : ℕ → List WaitlistEntry → ℕ
entries_of trip_id = sum_by λ e. if e.trip_id == trip_id then 1 else 0

-- Later entries leave the number of an earlier one alone.
positions_loop-other :
    (counts positions : List (ℕ × ℕ)) (id : ℕ) (entries : List WaitlistEntry)
    → All (λ e. (e.id == id) ≡ false) entries
    → lookup id (positions_loop counts positions entries) ≡ lookup id positions
unfolding positions_loop
positions_loop-other counts positions id [] h = refl
positions_loop-other counts positions id (e ∷ rest) h =
    let next = get_or (lookup e.trip_id counts) 0 + 1 in
    let written = lookup-insert e.id id next positions in
    positions_loop-other (insert e.trip_id next counts) (insert e.id next positions) id rest h.1
    ∙ ground (arith, written, h.0)

counted :
    (s t : ℕ) (counts : List (ℕ × ℕ))
    → get_or (lookup t (insert s (get_or (lookup s counts) 0 + 1) counts)) 0
      ≡ get_or (lookup t counts) 0 + (if s == t then 1 else 0)
counted s t counts = elim (Bool-cases (s == t)) [
  | inl e ↦
      let same : s ≡ t = (==_iff s t).0 e in
      rw (lookup-insert s t (get_or (lookup s counts) 0 + 1) counts, e, same) refl
  | inr e ↦ rw (lookup-insert s t (get_or (lookup s counts) 0 + 1) counts, e) (omega arith)
]

positions_loop-rank :
    (counts positions : List (ℕ × ℕ)) (before after : List WaitlistEntry) (entry : WaitlistEntry)
    → All (λ e. (e.id == entry.id) ≡ false) after
    → lookup entry.id (positions_loop counts positions (before ++ (entry ∷ after)))
      ≡ some (get_or (lookup entry.trip_id counts) 0 + entries_of entry.trip_id before + 1)
unfolding positions_loop
positions_loop-rank counts positions [] after entry h =
    let next = get_or (lookup entry.trip_id counts) 0 + 1 in
    positions_loop-other (insert entry.trip_id next counts) (insert entry.id next positions)
      entry.id after h
    ∙ ground (arith, lookup-insert entry.id entry.id next positions)
positions_loop-rank counts positions (e ∷ before) after entry h =
    let next = get_or (lookup e.trip_id counts) 0 + 1 in
    positions_loop-rank (insert e.trip_id next counts) (insert e.id next positions) before after
      entry h
    ∙ ap some (omega (arith, counted e.trip_id entry.trip_id counts))

module _ (env : Env) where
  -- The position of an entry is one more than the number of the entries of its trip before it in the
  -- order of joining, if no later entry has its id.
  pub positions_on_trips-rank :
      (trip_ids : List ℕ) (w : World) (before after : List WaitlistEntry) (entry : WaitlistEntry)
      → sort_by joined_before
          (env.waitlist_repository.find (λ e. includes e.trip_id trip_ids) w.waitlist)
        ≡ before ++ (entry ∷ after)
      → All (λ e. (e.id == entry.id) ≡ false) after
      → lookup entry.id (positions_on_trips env trip_ids w)
        ≡ some (entries_of entry.trip_id before + 1)
  unfolding positions_on_trips
  positions_on_trips-rank trip_ids w before after entry e h =
      rw e (positions_loop-rank [] [] before after entry h ∙ ap some (omega arith))

  -- What a passenger who joins has to satisfy.
  abbrev pub IsJoinable : ℕ → ℕ → ℕ → Trip → World → Type 0
  IsJoinable trip_id passenger_id seats t w =
      (t.driver_id ≢ passenger_id)
      × (t.status ≡ TripStatus.full)
      × (seats ≤ t.max_passengers)
      × (entry_of env trip_id passenger_id w ≡ none)
      × (env.bookings_repository.find_one (holds_booking trip_id passenger_id) w.bookings ≡ none)

  join-found :
      (trip_id passenger_id seats : ℕ) (w : World) (t : Trip)
      → env.trips_repository.find_one (λ t. t.id == trip_id) w.trips ≡ some t
      → let w' = (join env trip_id passenger_id seats w).1 in
        (w'.waitlist ≡ w.waitlist)
        ⊎ (IsJoinable trip_id passenger_id seats t w
            × (w'.waitlist
                ≡ env.waitlist_repository.save
                    (new_entry env trip_id passenger_id seats w)
                    w.waitlist))
  unfolding join assert_no_active_booking
  join-found trip_id passenger_id seats w t e = ground arith

  join-missing :
      (trip_id passenger_id seats : ℕ) (w : World)
      → env.trips_repository.find_one (λ t. t.id == trip_id) w.trips ≡ none
      → (join env trip_id passenger_id seats w).1 ≡ w
  unfolding join
  join-missing trip_id passenger_id seats w e = ground arith

  -- Joining leaves the waitlist as it is, or the trip is there and FULL and not the passenger's own, offers
  -- as many seats as are asked for, and has neither an entry nor an active booking of the passenger, and
  -- the new entry is written.
  pub join-checks :
      (trip_id passenger_id seats : ℕ) (w : World)
      → let w' = (join env trip_id passenger_id seats w).1 in
        (w'.waitlist ≡ w.waitlist)
        ⊎ ((t : Trip) × (env.trips_repository.find_one (λ t. t.id == trip_id) w.trips ≡ some t)
            × IsJoinable trip_id passenger_id seats t w
            × (w'.waitlist
                ≡ env.waitlist_repository.save
                    (new_entry env trip_id passenger_id seats w)
                    w.waitlist))
  join-checks trip_id passenger_id seats w =
      elim (Option-cases (env.trips_repository.find_one (λ t. t.id == trip_id) w.trips)) [
        | inl e ↦ inl (rw (join-missing trip_id passenger_id seats w e) refl)
        | inr (t, e) ↦ elim (join-found trip_id passenger_id seats w t e) [
          | inl same ↦ inl same
          | inr (fits, saved) ↦ inr (t, e, fits, saved)
        ]
      ]
