-- ===== src/Trips/Rows.antt =====
-- What `confirm`, `cancel`, `recomputeStatus` and `sweepExpired` of backend/src/trips/trips.service.ts make of
-- each row of the trips.
use mathlib.Core.List.{mem-cons_self, mem-cons_of_mem}
use native.Mathlib.Nat.{ℕ_set}
use gig_drive.Shared.{
  ℕ, ◌≤◌, ◌<◌, ◌==◌, ==_iff, true, ◌≡◌, refl, sym, ap, ◌∙◌, ◌⊎◌, inl, inr, List, [], ◌∷◌, Mem,
  arith, Keyed, Keyed-tail, Bool-cases, mem-key-column, subst,
}
use gig_drive.Entities.{TripStatus, same_status, Trip, Booking}
use gig_drive.Repository.Queries.{
  mem-save_ne, mem-save_self, Keyed-save, mem-find, find-passes, Keyed-find,
}
use gig_drive.Service.{World, Env}
use gig_drive.StateMachine.Lifecycle.{is_band}
use gig_drive.Seats.{confirmed_total}
use gig_drive.Seats.Total.{count_confirmed_seats-total}
use gig_drive.Trips.{
  sweep_active, sweep_confirmed, sweep_expired, call_off, complete, active_statuses,
}
use gig_drive.TripQueries.{status_in}
use gig_drive.Trips.Effects.{with_status}
use gig_drive.Trips.Overdue.{sweep_active-frame}
use gig_drive.Trips.Sweep.{
  trip_id, sweep_active-round, sweep_confirmed-round, sweep_active-nil, sweep_confirmed-nil,
  Pending, Pending-save, active_trips, confirmed_trips, after_active, after_active-Moves,
  sweep_expired-loops, Keyed-Moves,
}

Trip-set : IsSet Trip
Trip-set = hlevel ℕ_set

-- Each row has one row of the later table that a relation allows.
abbrev pub Each : (Trip → Trip → Type 0) → List Trip → List Trip → Type 0
Each R before after = (t : Trip) → Mem t before → (u : Trip) × Mem u after × R t u

-- The row is as it was, or it is the one that was written, with its new status.
abbrev pub Written : Trip → TripStatus → Trip → Trip → Type 0
Written t0 s t u = (u ≡ t) ⊎ ((t ≡ t0) × (u ≡ with_status s t))

-- The trip was called off: it was open for booking at its deadline and lacked passengers.
abbrev pub Lapses : ℕ → List Booking → Trip → Trip → Type 0
Lapses now bookings t u =
    (is_band t.status ≡ true)
    × (t.confirmation_deadline ≤ now)
    × (confirmed_total t.id bookings < t.min_passengers)
    × (u ≡ with_status TripStatus.cancelled t)

-- The trip was confirmed and has departed.
abbrev pub Departs : ℕ → Trip → Trip → Type 0
Departs now t u =
    (t.status ≡ TripStatus.confirmed)
    × (t.departure_at ≤ now)
    × (u ≡ with_status TripStatus.completed t)

module _ (env : Env) where
  open env use {trips_repository}

  pub save-Written :
      (t0 : Trip) (s : TripStatus) (rows : List Trip)
      → Keyed trip_id rows
      → Mem t0 rows
      → Each (Written t0 s) rows (trips_repository.save (with_status s t0) rows)
  save-Written t0 s rows k m0 t m = elim (Bool-cases (t.id == t0.id)) [
    | inl same ↦
        let own : t ≡ t0 =
          mem-key-column trip_id Trip-set (λ x. x) t t0 rows k m m0 ((==_iff t.id t0.id).0 same) in
        (
          with_status s t0,
          mem-save_self trips_repository (with_status s t0) rows,
          inr (own, ap (with_status s) (sym own)),
        )
    | inr other ↦
        (t, mem-save_ne trips_repository t (with_status s t0) rows m (λ c. ground arith), inl refl)
  ]

  abbrev Lapsed : ℕ → List Booking → Trip → Trip → Type 0
  Lapsed now bookings t u = (u ≡ t) ⊎ Lapses now bookings t u

  sweep_active-Lapsed :
      (ts : List Trip) (w : World)
      → Keyed trip_id ts
      → Keyed trip_id w.trips
      → ((u : Trip) → Mem u ts → Mem u w.trips)
      → ((u : Trip) → Mem u ts → is_band u.status ≡ true)
      → Each (Lapsed w.now w.bookings) w.trips (sweep_active env ts w).1.trips
  sweep_active-Lapsed [] w k kw p b t m = (t, rw sweep_active-nil m, inl refl)
  sweep_active-Lapsed (t0 ∷ ts) w k kw p b t m =
      let k' = Keyed-tail trip_id t0 ts k in
      let b' = λ (u : Trip) (n : Mem u ts). b u (mem-cons_of_mem t0 n) in
      elim (sweep_active-round env t0 ts w) [
        | inl (e, _) ↦
            rw e (sweep_active-Lapsed ts w k' kw (λ u n. p u (mem-cons_of_mem t0 n)) b' t m)
        | inr (e, late, few) ↦
            let w1 = (call_off env t0 w).1 in
            let few_total : confirmed_total t0.id w.bookings < t0.min_passengers =
              omega (arith, few, count_confirmed_seats-total env t0.id w) in
            let (u, n, r) =
              save-Written t0 TripStatus.cancelled w.trips kw (p t0 mem-cons_self) t m in
            let (v, o, q) =
              sweep_active-Lapsed ts w1 k' (Keyed-save trips_repository _ w.trips kw)
                (Pending-save env t0 ts TripStatus.cancelled w k p) b' u n in
            rw e (v, o, after (b t0 mem-cons_self) late few_total r q)
      ]
    where
      after :
          {u v : Trip}
          → is_band t0.status ≡ true
          → t0.confirmation_deadline ≤ w.now
          → confirmed_total t0.id w.bookings < t0.min_passengers
          → Written t0 TripStatus.cancelled t u
          → Lapsed w.now w.bookings u v
          → Lapsed w.now w.bookings t v
      after {u} {v} band late few (inl e) q = subst (λ x. Lapsed w.now w.bookings x v) e q
      after band late few (inr (own, e)) (inl d) = inr (rw own band, rw own late, rw own few, d ∙ e)
      after {u} {v} band late few (inr (own, e)) (inr (still, _, _, _)) =
          absurd (ground (arith, ap (λ (x : Trip). x.status) e))

  abbrev Departed : ℕ → Trip → Trip → Type 0
  Departed now t u = (u ≡ t) ⊎ Departs now t u

  sweep_confirmed-Departed :
      (ts : List Trip) (w : World)
      → Keyed trip_id ts
      → Keyed trip_id w.trips
      → Pending env ts w
      → ((u : Trip) → Mem u ts → u.status ≡ TripStatus.confirmed)
      → Each (Departed w.now) w.trips (sweep_confirmed env ts w).1.trips
  sweep_confirmed-Departed [] w k kw p b t m = (t, rw sweep_confirmed-nil m, inl refl)
  sweep_confirmed-Departed (t0 ∷ ts) w k kw p b t m =
      let k' = Keyed-tail trip_id t0 ts k in
      let b' = λ (u : Trip) (n : Mem u ts). b u (mem-cons_of_mem t0 n) in
      elim (sweep_confirmed-round env t0 ts w) [
        | inl (e, _) ↦
            rw e (sweep_confirmed-Departed ts w k' kw (λ u n. p u (mem-cons_of_mem t0 n)) b' t m)
        | inr (e, late) ↦
            let w1 = (complete env t0 w).1 in
            let (u, n, r) =
              save-Written t0 TripStatus.completed w.trips kw (p t0 mem-cons_self) t m in
            let (v, o, q) =
              sweep_confirmed-Departed ts w1 k' (Keyed-save trips_repository _ w.trips kw)
                (Pending-save env t0 ts TripStatus.completed w k p) b' u n in
            rw e (v, o, after (b t0 mem-cons_self) late r q)
      ]
    where
      after :
          {u v : Trip}
          → t0.status ≡ TripStatus.confirmed
          → t0.departure_at ≤ w.now
          → Written t0 TripStatus.completed t u
          → Departed w.now u v
          → Departed w.now t v
      after {u} {v} was late (inl e) q = subst (λ x. Departed w.now x v) e q
      after was late (inr (own, e)) (inl d) = inr (rw own was, rw own late, d ∙ e)
      after {u} {v} was late (inr (own, e)) (inr (still, _, _)) =
          absurd (ground (arith, ap (λ (x : Trip). x.status) e))

  -- What the sweep does to each trip, if trip ids are unique.
  pub sweep_expired-Each :
      (w : World)
      → Keyed trip_id w.trips
      → Each
          (λ t u. (u ≡ t) ⊎ (Lapses w.now w.bookings t u ⊎ Departs w.now t u))
          w.trips
          (sweep_expired env w).1.trips
  sweep_expired-Each w k t m =
      let w1 = after_active env w in
      let active = λ (x : Trip). status_in active_statuses x.status in
      let confirmed = λ (x : Trip). same_status x.status TripStatus.confirmed in
      let k1 = Keyed-Moves env (after_active-Moves env w k) k in
      let (u, n, r) =
        sweep_active-Lapsed (active_trips env w) w (Keyed-find trips_repository active w.trips k) k
          (λ x. mem-find trips_repository active x w.trips)
          (λ x o. ground (arith, find-passes trips_repository active x w.trips o)) t m in
      let (v, o, q) =
        sweep_confirmed-Departed (confirmed_trips env w1) w1
          (Keyed-find trips_repository confirmed w1.trips k1) k1
          (λ x. mem-find trips_repository confirmed x w1.trips)
          (λ x o. ground (arith, find-passes trips_repository confirmed x w1.trips o)) u n in
      let now : w1.now ≡ w.now = (sweep_active-frame env (active_trips env w) w).0 in
      (v, rw (sweep_expired-loops env w) o, swept r (subst (λ n. Departed n u v) now q))
    where
      swept :
          {u v : Trip}
          → Lapsed w.now w.bookings t u
          → Departed w.now u v
          → (v ≡ t) ⊎ (Lapses w.now w.bookings t v ⊎ Departs w.now t v)
      swept (inl e) (inl d) = inl (d ∙ e)
      swept {u} {v} (inl e) (inr left) = inr (inr (subst (λ x. Departs w.now x v) e left))
      swept {u} {v} (inr (band, late, few, e)) (inl d) = inr (inl (band, late, few, d ∙ e))
      swept {u} {v} (inr (band, late, few, e)) (inr (was, _, _)) =
          absurd (ground (arith, ap (λ (x : Trip). x.status) e))
