-- ===== src/Trips/Overdue.antt =====
-- `sweepExpired` of backend/src/trips/trips.service.ts: the trips that its loops have to move.
use mathlib.Core.Logic.Or
use mathlib.Core.Logic.{◌∨₁◌, ∨₁_prop}
use mathlib.Core.List.{mem-cons, not-mem-nil, Mem-prop}
use mathlib.Core.HLevel.{Π_prop}
use native.Mathlib.Bridge.{le_prop}
use gig_drive.Shared.{
  ℕ, ◌≤◌, ◌<◌, ◌≡◌, refl, ap, ◌⊎◌, inl, inr, List, [], ◌∷◌, Mem, arith, Keyed, mem-key-eq,
  if◌then◌else◌,
}
use gig_drive.Entities.{TripStatus, same_status, Trip}
use gig_drive.Repository.Queries.{mem-save, mem-save_self, Keyed-save}
use gig_drive.Service.{World, Env}
use gig_drive.StateMachine.Lifecycle.{is_band}
use gig_drive.Seats.{count_confirmed_seats, confirmed_total}
use gig_drive.Seats.Total.{count_confirmed_seats-total}
use gig_drive.Trips.{sweep_active, sweep_confirmed, call_off, complete}
use gig_drive.Trips.Effects.{with_status}
use gig_drive.Trips.Sweep.{
  trip_id, sweep_active-round, sweep_confirmed-round, sweep_active-nil, sweep_confirmed-nil,
}

-- Trips with the status for which a loop looks, as a number, so that two rows can be compared.
abbrev band_code : Trip → ℕ
band_code t = if is_band t.status then 1 else 0

abbrev confirmed_code : Trip → ℕ
confirmed_code t = if same_status t.status TripStatus.confirmed then 1 else 0

module _ (env : Env) where
  open env use {trips_repository}

  -- After a write, a row of the looked-for status is another row than the one that was written over.
  written_over :
      (code : Trip → ℕ) (t : Trip) (s : TripStatus) (w : World) (u : Trip)
      → Keyed trip_id w.trips
      → code (with_status s t) ≡ 0
      → code u ≡ 1
      → Mem u (trips_repository.save (with_status s t) w.trips)
      → u ≡ t
      → ⊥
  written_over code t s w u k z one m e =
      let same : code u ≡ code (with_status s t) =
        mem-key-eq trip_id code u (with_status s t) _
          (Keyed-save trips_repository (with_status s t) w.trips k) m
          (mem-save_self trips_repository (with_status s t) w.trips) (ap trip_id e) in
      omega (arith, same)

  -- A row that passes and stands after the write stood there before.
  stood_before :
      (code : Trip → ℕ) (t : Trip) (s : TripStatus) (w : World) (u : Trip)
      → code (with_status s t) ≡ 0
      → code u ≡ 1
      → Mem u (trips_repository.save (with_status s t) w.trips)
      → Mem u w.trips
  stood_before code t s w u z one m =
      Or.elim Mem-prop (mem-save trips_repository u (with_status s t) w.trips m)
        (λ e. absurd (omega (arith, ap code e))) (λ n. n)

  -- The trip has its passengers, or its deadline is still to come.
  abbrev pub IsDecided : World → Trip → Type 0
  IsDecided w u =
      u.confirmation_deadline ≤ w.now → u.min_passengers ≤ confirmed_total u.id w.bookings

  IsDecided-prop : (w : World) (u : Trip) → IsProp (IsDecided w u)
  IsDecided-prop w u = Π_prop (λ _. le_prop)

  pub sweep_active-decides :
      (ts : List Trip) (w : World)
      → Keyed trip_id w.trips
      → ((u : Trip) → Mem u w.trips → band_code u ≡ 1 → IsDecided w u ∨₁ Mem u ts)
      → (u : Trip) → Mem u (sweep_active env ts w).1.trips
      → band_code u ≡ 1
      → IsDecided w u
  sweep_active-decides [] w k h u m one =
      Or.elim (IsDecided-prop w u) (h u (rw sweep_active-nil at m) one) (λ d. d)
        (λ n. absurd (not-mem-nil n))
  sweep_active-decides (t ∷ ts) w k h u m one = elim (sweep_active-round env t ts w) [
    | inl (e, why) ↦ sweep_active-decides ts w k (passed why) u (rw e at m) one
    | inr (e, _, _) ↦
        sweep_active-decides ts (call_off env t w).1
          (Keyed-save trips_repository (with_status TripStatus.cancelled t) w.trips k) called_off u
          (rw e at m) one
  ]
    where
      passed :
          (w.now < t.confirmation_deadline) ⊎ (t.min_passengers ≤ count_confirmed_seats env t.id w)
          → (x : Trip) → Mem x w.trips
          → band_code x ≡ 1
          → IsDecided w x ∨₁ Mem x ts
      passed why x n b =
          Or.elim ∨₁_prop (h x n b) Or.inl
            (λ r. Or.imp (λ d. rw d (λ late. decided_by why late)) (λ q. q) (mem-cons.0 r))
        where
          decided_by :
              (w.now < t.confirmation_deadline)
                ⊎ (t.min_passengers ≤ count_confirmed_seats env t.id w)
              → t.confirmation_deadline ≤ w.now
              → t.min_passengers ≤ confirmed_total t.id w.bookings
          decided_by (inl early) late = omega arith
          decided_by (inr enough) late = omega (arith, count_confirmed_seats-total env t.id w)

      called_off :
          (x : Trip)
          → Mem x (trips_repository.save (with_status TripStatus.cancelled t) w.trips)
          → band_code x ≡ 1
          → IsDecided w x ∨₁ Mem x ts
      called_off x n b =
          Or.elim ∨₁_prop (h x (stood_before band_code t TripStatus.cancelled w x refl b n) b)
            Or.inl
            (λ r.
              Or.imp (λ d. absurd (written_over band_code t TripStatus.cancelled w x k refl b n d))
                (λ q. q) (mem-cons.0 r))

  abbrev pub HasToLeave : World → Trip → Type 0
  HasToLeave w u = w.now < u.departure_at

  pub sweep_confirmed-completes :
      (ts : List Trip) (w : World)
      → Keyed trip_id w.trips
      → ((u : Trip) → Mem u w.trips → confirmed_code u ≡ 1 → HasToLeave w u ∨₁ Mem u ts)
      → (u : Trip) → Mem u (sweep_confirmed env ts w).1.trips
      → confirmed_code u ≡ 1
      → HasToLeave w u
  sweep_confirmed-completes [] w k h u m one =
      Or.elim le_prop (h u (rw sweep_confirmed-nil at m) one) (λ d. d) (λ n. absurd (not-mem-nil n))
  sweep_confirmed-completes (t ∷ ts) w k h u m one = elim (sweep_confirmed-round env t ts w) [
    | inl (e, early) ↦ sweep_confirmed-completes ts w k (passed early) u (rw e at m) one
    | inr (e, _) ↦
        sweep_confirmed-completes ts (complete env t w).1
          (Keyed-save trips_repository (with_status TripStatus.completed t) w.trips k) left u
          (rw e at m) one
  ]
    where
      passed :
          w.now < t.departure_at
          → (x : Trip) → Mem x w.trips
          → confirmed_code x ≡ 1
          → HasToLeave w x ∨₁ Mem x ts
      passed early x n b =
          Or.elim ∨₁_prop (h x n b) Or.inl (λ r. Or.imp (λ d. rw d early) (λ q. q) (mem-cons.0 r))

      left :
          (x : Trip)
          → Mem x (trips_repository.save (with_status TripStatus.completed t) w.trips)
          → confirmed_code x ≡ 1
          → HasToLeave w x ∨₁ Mem x ts
      left x n b =
          Or.elim ∨₁_prop (h x (stood_before confirmed_code t TripStatus.completed w x refl b n) b)
            Or.inl
            (λ r.
              Or.imp
                (λ d. absurd (written_over confirmed_code t TripStatus.completed w x k refl b n d))
                (λ q. q) (mem-cons.0 r))

  -- The second loop adds no trip to the booking band.
  pub sweep_confirmed-band :
      (ts : List Trip) (w : World) (u : Trip)
      → Mem u (sweep_confirmed env ts w).1.trips
      → band_code u ≡ 1
      → Mem u w.trips
  sweep_confirmed-band [] w u m one = rw sweep_confirmed-nil at m
  sweep_confirmed-band (t ∷ ts) w u m one = elim (sweep_confirmed-round env t ts w) [
    | inl (e, _) ↦ sweep_confirmed-band ts w u (rw e at m) one
    | inr (e, _) ↦
        stood_before band_code t TripStatus.completed w u refl one
          (sweep_confirmed-band ts (complete env t w).1 u (rw e at m) one)
  ]

  -- The first loop leaves the clock and the bookings alone.
  pub sweep_active-frame :
      (ts : List Trip) (w : World)
      → ((sweep_active env ts w).1.now ≡ w.now) × ((sweep_active env ts w).1.bookings ≡ w.bookings)
  sweep_active-frame [] w = rw sweep_active-nil (refl, refl)
  sweep_active-frame (t ∷ ts) w = elim (sweep_active-round env t ts w) [
    | inl (e, _) ↦ rw e (sweep_active-frame ts w)
    | inr (e, _, _) ↦ rw e (sweep_active-frame ts (call_off env t w).1)
  ]
