-- ===== src/Waitlist/Notices.antt =====
-- `notifyOnSeatFreed` of backend/src/waitlist/waitlist.service.ts: its mails, and the tables.
use mathlib.Core.List.Perm
use gig_drive.Shared.{ℕ, ◌+◌, ◌==◌, ◌≡◌, refl, List, [], ◌∷◌, Perm, filter, arith}
use gig_drive.Shared.Sort.{sort_by, sort_by-perm, sort_by-IsSorted, IsSorted, IsConsistent}
use gig_drive.Entities.{WaitlistEntry}
use gig_drive.Errors.{ok}
use gig_drive.Service.{World, Env, Event}
use gig_drive.Waitlist.{joined_before, notify_from, notify_on_seat_freed}

-- The mails to the entries of a list, the first of which has the given position, sent after others.
abbrev pub seat_notices : ℕ → List WaitlistEntry → List Event → List Event
seat_notices position [] sent = sent
seat_notices position (entry ∷ rest) sent =
    seat_notices (position + 1) rest (Event.waitlist_seat_available entry position ∷ sent)

module _ (env : Env) where
  notify_from-same :
      (position : ℕ) (entries : List WaitlistEntry) (w : World)
      → let (r, w') = notify_from env position entries w in
        (r ≡ ok tt) × (w'.trips ≡ w.trips) × (w'.bookings ≡ w.bookings)
  unfolding notify_from
  notify_from-same position [] w = (refl, refl, refl)
  notify_from-same position (entry ∷ rest) w = notify_from-same (position + 1) rest _

  pub notify_on_seat_freed-same :
      (trip_id : ℕ) (w : World)
      → let (r, w') = notify_on_seat_freed env trip_id w in
        (r ≡ ok tt) × (w'.trips ≡ w.trips) × (w'.bookings ≡ w.bookings)
  unfolding notify_on_seat_freed notify_from
  notify_on_seat_freed-same trip_id w =
      notify_from-same 1
        (sort_by joined_before
          (env.waitlist_repository.find (λ e. e.trip_id == trip_id) w.waitlist))
        w

  notify_from-outbox :
      (position : ℕ) (entries : List WaitlistEntry) (w : World)
      → (notify_from env position entries w).1.outbox ≡ seat_notices position entries w.outbox
  unfolding notify_from
  notify_from-outbox position [] w = refl
  notify_from-outbox position (entry ∷ rest) w = notify_from-outbox (position + 1) rest _

  joined_before-IsConsistent : IsConsistent joined_before
  joined_before-IsConsistent = record {
    total = λ a b h. ground arith;
    trans = λ a b c h k. ground arith;
  }

  -- After a seat is freed every passenger on the waitlist of the trip is told, in the order in which
  -- they joined, with positions counted from 1, and nobody else.
  pub notify_on_seat_freed-outbox :
      (trip_id : ℕ) (w : World)
      → (entries : List WaitlistEntry) × Perm entries
          (filter (λ e. e.trip_id == trip_id) w.waitlist)
        × IsSorted joined_before entries
        × ((notify_on_seat_freed env trip_id w).1.outbox ≡ seat_notices 1 entries w.outbox)
  unfolding notify_on_seat_freed notify_from
  notify_on_seat_freed-outbox trip_id w =
      let found = env.waitlist_repository.find (λ e. e.trip_id == trip_id) w.waitlist in
      (
        sort_by joined_before found,
        Perm.trans (sort_by-perm joined_before found)
            (env.waitlist_repository.find_rows (λ e. e.trip_id == trip_id) w.waitlist),
        sort_by-IsSorted joined_before joined_before-IsConsistent found,
        notify_from-outbox 1 (sort_by joined_before found) w,
      )

  notify_from-vehicles :
      (position : ℕ) (entries : List WaitlistEntry) (w : World)
      → (notify_from env position entries w).1.vehicles ≡ w.vehicles
  unfolding notify_from
  notify_from-vehicles position [] w = refl
  notify_from-vehicles position (entry ∷ rest) w = notify_from-vehicles (position + 1) rest _

  pub notify_on_seat_freed-vehicles :
      (trip_id : ℕ) (w : World) → (notify_on_seat_freed env trip_id w).1.vehicles ≡ w.vehicles
  unfolding notify_on_seat_freed
  notify_on_seat_freed-vehicles trip_id w =
      notify_from-vehicles 1
        (sort_by joined_before
          (env.waitlist_repository.find (λ e. e.trip_id == trip_id) w.waitlist))
        w
