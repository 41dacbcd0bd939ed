-- ===== src/Service.antt =====
-- What the services share: the database as their state, calls that read and write it and may throw,
-- and the parameters that stand for code outside the repository.
-- A call runs to its end before the next begins; the calls that wait in between are taken apart in
-- gig_drive.Bookings.Races. `new Date()` reads the clock of the world.

use Prim.Native.Char.{code}
use Prim.Native.String.{String}
use gig_drive.Shared.{ℕ, Bool, true, false, Option, none, some, List, [], ◌∷◌}
use gig_drive.Entities.{
  Text, User, Vehicle, Concert, Trip, TripStop, Booking, WaitlistEntry, Review, ChatMessage,
}
use gig_drive.Errors.{HttpError, Result, ok, err}
use gig_drive.Repository.{Repository}

-- The code points of a literal.
abbrev pub codes : String → Text
codes String.[] = []
codes (String.◌∷◌ c s) = code c ∷ codes s

-- The events of the three notification ports under backend/src/notifications. Their implementations
-- send emails, catch every error and write nothing to the database.
pub data Event : Type 0 where
  trip_ready trip_confirmed trip_cancelled trip_completed trip_reminder : Trip → Event
  signal_invite : Trip → Text → Text → Event
  booking_requested booking_accepted booking_rejected : Booking → Event
  waitlist_seat_available : WaitlistEntry → ℕ → Event

pub record World : Type 0 where
  pub now : ℕ
  pub users : List User
  pub vehicles : List Vehicle
  pub concerts : List Concert
  pub trips : List Trip
  pub stops : List TripStop
  pub bookings : List Booking
  pub waitlist : List WaitlistEntry
  pub reviews : List Review
  pub messages : List ChatMessage
  -- The events sent so far, the latest first.
  pub outbox : List Event

-- A Signal group that signal-cli has made: its name and its invite link.
pub record SignalGroup : Type 0 where
  pub name : Text
  pub invite_link : Text

pub record Env : Type 0 where
  pub users_repository : Repository {E = User} (λ u. u.id)
  pub vehicles_repository : Repository {E = Vehicle} (λ v. v.id)
  pub concerts_repository : Repository {E = Concert} (λ c. c.id)
  pub trips_repository : Repository {E = Trip} (λ t. t.id)
  pub stops_repository : Repository {E = TripStop} (λ s. s.id)
  pub bookings_repository : Repository {E = Booking} (λ b. b.id)
  pub waitlist_repository : Repository {E = WaitlistEntry} (λ e. e.id)
  pub reviews_repository : Repository {E = Review} (λ r. r.id)
  pub messages_repository : Repository {E = ChatMessage} (λ m. m.id)
  -- `String.prototype.toLowerCase`
  pub to_lower_case : Text → Text
  -- `String.prototype.normalize('NFKD')`
  pub normalize_nfkd : Text → Text
  -- `Intl.DateTimeFormat` and `Date.prototype.toISOString().slice(0, 10)`
  pub format_day : ℕ → Text
  pub iso_day : ℕ → Text
  -- `LOWER(column) LIKE pattern` in SQL
  pub lower_like : Text → Text → Bool
  -- The configuration, and the REST call to signal-cli with `none` for every failure.
  pub feature_chat : Bool
  pub feature_signal : Bool
  pub signal_configured : Bool
  pub create_group_with_invite : Text → Option SignalGroup

-- A call keeps what it wrote when it throws.
abbrev pub Action : Type 0 → Type 0
Action A = World → Result A × World

module _ {A : Type 0} where
  abbrev pub pure : A → Action A
  pure a w = (ok a, w)

  abbrev pub throw : HttpError → Action A
  throw e w = (err e, w)

  abbrev pub gets : (World → A) → Action A
  gets f w = (ok (f w), w)

  abbrev pub lift : Result A → Action A
  lift r w = (r, w)

  -- `if (!row) throw e`
  abbrev pub or_throw : Option A → HttpError → Action A
  or_throw none e w = (err e, w)
  or_throw (some a) e w = (ok a, w)

  -- What a transaction that began at `w` leaves.
  abbrev pub commit : World → Result A × World → Result A × World
  commit w (ok a, w') = (ok a, w')
  commit w (err e, w') = (err e, w)

  -- A database transaction: a throw rolls it back.
  abbrev pub transaction : Action A → Action A
  transaction m w = commit w (m w)

-- A call goes on unless the part before it has thrown.
abbrev pub proceed : {A B : Type 0} → Result A × World → (A → Action B) → Result B × World
proceed (ok a, w) f = f a w
proceed (err e, w) f = (err e, w)

infixl 5 ◌>>=◌ ◌>>◌
abbrev pub ◌>>=◌ : {A B : Type 0} → Action A → (A → Action B) → Action B
◌>>=◌ m f w = proceed (m w) f

abbrev pub ◌>>◌ : {B : Type 0} → Action (Unit {0}) → Action B → Action B
m >> k = m >>= λ _. k

-- `if (test) throw e`
abbrev pub throw_if : Bool → HttpError → Action (Unit {0})
throw_if true e w = (err e, w)
throw_if false e w = (ok tt, w)

abbrev pub modify : (World → World) → Action (Unit {0})
modify f w = (ok tt, f w)

abbrev pub when : Bool → Action (Unit {0}) → Action (Unit {0})
when true m w = m w
when false m w = (ok tt, w)

abbrev pub for_each : {A : Type 0} → List A → (A → Action (Unit {0})) → Action (Unit {0})
for_each [] f w = (ok tt, w)
for_each (x ∷ xs) f w = (f x >>= λ _. for_each xs f) w

abbrev pub map_each : {A B : Type 0} → (A → Result B) → List A → Result (List B)
map_each f [] = ok []
map_each f (x ∷ xs) = elim (f x) [
  | ok y ↦ elim (map_each f xs) [ ok ys ↦ ok (y ∷ ys) | err e ↦ err e ]
  | err e ↦ err e
]

-- `notifications.notify(event)`
abbrev pub notify : Event → Action (Unit {0})
notify e = modify λ w. record w { outbox = e ∷ w.outbox }

module _ (env : Env) where
  abbrev pub save_trip : Trip → Action (Unit {0})
  save_trip t = modify λ w. record w { trips = env.trips_repository.save t w.trips }

  abbrev pub save_booking : Booking → Action (Unit {0})
  save_booking b = modify λ w. record w { bookings = env.bookings_repository.save b w.bookings }
