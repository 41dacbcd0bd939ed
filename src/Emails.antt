-- ===== src/Emails.antt =====
-- backend/src/notifications: mailer.service.ts and the three implementations of the notification ports, which
-- email-templates.ts serves. The mail transport is a parameter. `notify` catches what `dispatch` throws.
pub mod Recipients
use gig_drive.Shared.{
  ℕ, ◌==◌, ◌||◌, ◌&&◌, Bool, true, false, Option, none, some, List, [], ◌∷◌, ◌++◌, get_or, map,
  includes, if◌then◌else◌,
}
use gig_drive.Entities.{
  Text, User, Concert, Trip, Booking, BookingStatus, same_booking_status, WaitlistEntry,
}
use gig_drive.Service.{World, Env, Event, codes}
use gig_drive.Manifest.{trim}
use gig_drive.TripViews.{field}
use gig_drive.TripQueries.{display_name}
use gig_drive.Ticketmaster.{bind}
use gig_drive.Templates.{
  RenderedEmail, ConcertSnippet, TripEmailContext, TripMailEvent, BookingMailEvent,
  render_trip_email, render_booking_email, render_waitlist_email,
}

-- A mail that the transport has taken.
pub record Mail : Type 0 where
  pub user_id : ℕ
  pub to : Text
  pub email : RenderedEmail

pub record Mailer : Type 0 where
  -- Whether there is a transport, and whether it takes a mail; it throws where it does not.
  pub has_transport : Bool
  pub takes : Mail → Bool
  -- `new Intl.DateTimeFormat('en-GB', …).format(date)`
  pub format_time : ℕ → Text

abbrev pub mail_to : User → RenderedEmail → Mail
mail_to user email = record { user_id = user.id; to = user.email; email = email }

-- `displayName`
abbrev displayed : Option User → Text → Text
displayed none fallback = fallback
displayed (some user) fallback = trim (display_name user)

-- `uniqueUsers`: the users that are there, each id once.
abbrev pub unique_from : List ℕ → List (Option User) → List User
unique_from seen [] = []
unique_from seen (none ∷ users) = unique_from seen users
unique_from seen (some user ∷ users) =
    if includes user.id seen
    then unique_from seen users
    else user ∷ unique_from (user.id ∷ seen) users

unfoldable pub unique_users : List (Option User) → List User
unique_users = unique_from []

abbrev pub confirmed_only : BookingStatus → Bool
confirmed_only status = same_booking_status status BookingStatus.confirmed

abbrev pub confirmed_and_pending : BookingStatus → Bool
confirmed_and_pending status =
    same_booking_status status BookingStatus.confirmed
    || same_booking_status status BookingStatus.pending

module _ (env : Env) (mailer : Mailer) where
  -- `sendToUser` never throws.
  unfoldable pub send_to_user : User → RenderedEmail → List Mail → List Mail
  send_to_user user email mails =
      if user.email_notifications && (mailer.has_transport && mailer.takes (mail_to user email))
      then mail_to user email ∷ mails
      else mails

  abbrev pub user_at : ℕ → World → Option User
  user_at id w = env.users_repository.find_one (λ u. u.id == id) w.users

  abbrev pub trip_at : ℕ → World → Option Trip
  trip_at id w = env.trips_repository.find_one (λ t. t.id == id) w.trips

  abbrev concert_at : ℕ → World → Option Concert
  concert_at id w = env.concerts_repository.find_one (λ c. c.id == id) w.concerts

  abbrev pub load_passengers : ℕ → (BookingStatus → Bool) → World → List (Option User)
  load_passengers trip_id among w =
      map (λ b. user_at b.passenger_id w)
        (env.bookings_repository.find (λ b. b.trip_id == trip_id && among b.status) w.bookings)

  unfoldable pub resolve_recipients : TripMailEvent → Trip → World → List User
  unfolding unique_users
  resolve_recipients TripMailEvent.ready trip w = unique_users (user_at trip.driver_id w ∷ [])
  resolve_recipients TripMailEvent.cancelled trip w =
      unique_users (user_at trip.driver_id w ∷ load_passengers trip.id confirmed_and_pending w)
  resolve_recipients _ trip w =
      unique_users (user_at trip.driver_id w ∷ load_passengers trip.id confirmed_only w)

  abbrev snippet : Option Concert → ℕ → ConcertSnippet
  snippet concert start_at = record {
    artist = field concert (λ c. c.artist) (codes "your concert");
    city = field concert (λ c. c.city) (codes "the destination");
    venue = field concert (λ c. c.venue) (codes "the venue");
    start_at = field concert (λ c. c.start_at) start_at;
  }

  -- The context for a recipient, with the invite link and the name of the group where the event has them.
  abbrev pub trip_context : Trip → Option Text → Option Text → Text → World → TripEmailContext
  trip_context trip invite_link group_name first_name w = record {
    recipient_first_name = first_name;
    driver_name = displayed (user_at trip.driver_id w) (codes "the driver");
    concert = snippet (concert_at trip.concert_id w) trip.departure_at;
    departure_at = trip.departure_at;
    invite_link = invite_link;
    group_name = group_name;
  }

  send_all : List User → (Text → RenderedEmail) → List Mail → List Mail
  send_all [] render mails = mails
  send_all (user ∷ users) render mails =
      send_all users render (send_to_user user (render user.first_name) mails)

  unfoldable pub dispatch_trip :
      TripMailEvent → ℕ → Option Text → Option Text → World → List Mail → List Mail
  unfolding send_all resolve_recipients
  dispatch_trip type trip_id link name w mails = elim (trip_at trip_id w) [
    | none ↦ mails
    | some trip ↦
        send_all (resolve_recipients type trip w)
          (λ first_name.
            render_trip_email mailer.format_time type (trip_context trip link name first_name w))
          mails
  ]

  -- The trip of a booking or of a waitlist entry may be missing.
  abbrev part_context : Option Trip → Text → World → TripEmailContext
  part_context trip first_name w = record {
    recipient_first_name = first_name;
    driver_name = displayed (bind trip (λ t. user_at t.driver_id w)) (codes "the driver");
    concert =
        snippet (bind trip (λ t. concert_at t.concert_id w))
          (field trip (λ t. t.departure_at) w.now);
    departure_at = field trip (λ t. t.departure_at) w.now;
    invite_link = none;
    group_name = none;
  }

  abbrev booking_recipient : BookingMailEvent → Booking → World → Option User
  booking_recipient BookingMailEvent.requested booking w =
      bind (trip_at booking.trip_id w) (λ t. user_at t.driver_id w)
  booking_recipient _ booking w = user_at booking.passenger_id w

  abbrev booking_mail : BookingMailEvent → Booking → User → World → RenderedEmail
  booking_mail type booking user w =
      render_booking_email mailer.format_time type
        (part_context (trip_at booking.trip_id w) user.first_name w)
        (displayed (user_at booking.passenger_id w) (codes "a passenger")) booking.seats

  unfoldable pub dispatch_booking : BookingMailEvent → ℕ → World → List Mail → List Mail
  dispatch_booking type booking_id w mails =
      elim (env.bookings_repository.find_one (λ b. b.id == booking_id) w.bookings) [
        | none ↦ mails
        | some booking ↦ elim (booking_recipient type booking w) [
          | none ↦ mails
          | some user ↦ send_to_user user (booking_mail type booking user w) mails
        ]
      ]

  abbrev waitlist_mail : WaitlistEntry → ℕ → User → World → RenderedEmail
  waitlist_mail entry position user w =
      render_waitlist_email mailer.format_time
        (part_context (trip_at entry.trip_id w) user.first_name w) position entry.seats

  unfoldable pub dispatch_waitlist : ℕ → ℕ → World → List Mail → List Mail
  dispatch_waitlist entry_id position w mails =
      elim (env.waitlist_repository.find_one (λ e. e.id == entry_id) w.waitlist) [
        | none ↦ mails
        | some entry ↦ elim (user_at entry.passenger_id w) [
          | none ↦ mails
          | some user ↦ send_to_user user (waitlist_mail entry position user w) mails
        ]
      ]

  -- What a notification port does with an event.
  unfoldable pub deliver : Event → World → List Mail → List Mail
  deliver (Event.trip_ready trip) = dispatch_trip TripMailEvent.ready trip.id none none
  deliver (Event.trip_confirmed trip) = dispatch_trip TripMailEvent.confirmed trip.id none none
  deliver (Event.trip_cancelled trip) = dispatch_trip TripMailEvent.cancelled trip.id none none
  deliver (Event.trip_reminder trip) = dispatch_trip TripMailEvent.reminder trip.id none none
  deliver (Event.signal_invite trip link name) =
      dispatch_trip TripMailEvent.invite trip.id (some link) (some name)
  deliver (Event.trip_completed trip) = λ w mails. mails
  deliver (Event.booking_requested booking) = dispatch_booking BookingMailEvent.requested booking.id
  deliver (Event.booking_accepted booking) = dispatch_booking BookingMailEvent.accepted booking.id
  deliver (Event.booking_rejected booking) = dispatch_booking BookingMailEvent.declined booking.id
  deliver (Event.waitlist_seat_available entry position) = dispatch_waitlist entry.id position
