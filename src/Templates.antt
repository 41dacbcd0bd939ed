-- ===== src/Templates.antt =====
-- backend/src/notifications/email-templates.ts: the text and the HTML of the emails. `Intl.DateTimeFormat` is a
-- parameter. A line feed is 10.
pub mod Escapes
use gig_drive.Shared.{
  ℕ, ◌==◌, Bool, true, false, Option, none, some, List, [], ◌∷◌, ◌++◌, get_or, if◌then◌else◌,
}
use gig_drive.Entities.{Text}
use gig_drive.Service.{codes}
use gig_drive.Manifest.{to_decimal}

pub record RenderedEmail : Type 0 where
  pub subject : Text
  pub text : Text
  pub html : Text

pub record ConcertSnippet : Type 0 where
  pub artist : Text
  pub city : Text
  pub venue : Text
  pub start_at : ℕ

pub record TripEmailContext : Type 0 where
  pub recipient_first_name : Text
  pub driver_name : Text
  pub concert : ConcertSnippet
  pub departure_at : ℕ
  pub invite_link : Option Text
  pub group_name : Option Text

pub data TripMailEvent : Type 0 where
  ready confirmed cancelled reminder invite : TripMailEvent

pub data BookingMailEvent : Type 0 where
  requested accepted declined : BookingMailEvent

-- `value.replaceAll(char, by)` for one character.
abbrev pub replace_all : ℕ → Text → Text → Text
replace_all char by [] = []
replace_all char by (c ∷ cs) = (if c == char then by else c ∷ []) ++ replace_all char by cs

-- The characters that HTML gives a meaning.
abbrev pub ampersand : ℕ
ampersand = 38

abbrev pub less : ℕ
less = 60

abbrev pub greater : ℕ
greater = 62

abbrev pub quote : ℕ
quote = 34

unfoldable pub escape_html : Text → Text
escape_html value = replace_all quote (codes "&quot;") (
    replace_all greater (codes "&gt;")
      (replace_all less (codes "&lt;") (replace_all ampersand (codes "&amp;") value)))

abbrev pub line_feed : Text
line_feed = 10 ∷ []

-- `lines.join('\n')`
abbrev pub join_lines : List Text → Text
join_lines [] = []
join_lines (line ∷ []) = line
join_lines (line ∷ next ∷ rest) = line ++ line_feed ++ join_lines (next ∷ rest)

abbrev wrap_start : Text
wrap_start = join_lines (
    codes "<!DOCTYPE html>"
    ∷ codes "<html>"
    ∷ codes "  <head>"
    ∷ codes "    <meta charset=\"utf-8\" />"
    ∷ codes "    <title>"
    ∷ [])

abbrev wrap_middle : Text
wrap_middle = join_lines (
    codes "</title>"
    ∷ codes "  </head>"
    ∷ codes "  <body style=\"font-family: sans-serif; line-height: 1.5; color: #111;\">"
    ∷ codes "    "
    ∷ [])

abbrev wrap_end : Text
wrap_end = line_feed ++ codes "  </body>" ++ line_feed ++ codes "</html>"

unfoldable pub wrap_html : Text → Text → Text
wrap_html title body = wrap_start ++ escape_html title ++ wrap_middle ++ body ++ wrap_end

-- `<p>${escapeHtml(value)}</p>`
abbrev pub paragraph : Text → Text
paragraph value = codes "<p>" ++ escape_html value ++ codes "</p>"

abbrev pub details_paragraph : Text → Text
details_paragraph details =
    codes "<p>" ++ replace_all 10 (codes "<br />") (escape_html details) ++ codes "</p>"

abbrev sign_off : Text
sign_off = codes "— GigDrive"

abbrev greeting : TripEmailContext → Text
greeting ctx = codes "Hi " ++ ctx.recipient_first_name ++ codes ","

abbrev pub seat_label : ℕ → Text
seat_label seats = if seats == 1 then codes "1 seat" else to_decimal seats ++ codes " seats"

-- `new Intl.DateTimeFormat('en-GB', …).format(date)`
module _ (format_time : ℕ → Text) where
  abbrev format_utc : ℕ → Text
  format_utc date = format_time date ++ codes " UTC"

  unfoldable pub trip_details : TripEmailContext → Text
  trip_details ctx = join_lines (
      (codes "Concert: "
        ++ ctx.concert.artist
        ++ codes " at "
        ++ ctx.concert.venue
        ++ codes ", "
        ++ ctx.concert.city
        ++ codes " ("
        ++ format_utc ctx.concert.start_at
        ++ codes ")")
      ∷ (codes "Departure: " ++ format_utc ctx.departure_at)
      ∷ (codes "Driver: " ++ ctx.driver_name)
      ∷ [])

  unfoldable pub compose : TripEmailContext → Text → Text → RenderedEmail
  compose ctx subject body = record {
    subject = subject;
    text = join_lines (greeting ctx ∷ [] ∷ body ∷ [] ∷ trip_details ctx ∷ [] ∷ sign_off ∷ []);
    html = wrap_html subject (
        join_lines (
          paragraph (greeting ctx)
          ∷ paragraph body
          ∷ details_paragraph (trip_details ctx)
          ∷ paragraph sign_off
          ∷ []));
  }

  abbrev place : TripEmailContext → Text
  place ctx = ctx.concert.artist ++ codes " in " ++ ctx.concert.city

  trip_ready : TripEmailContext → RenderedEmail
  trip_ready ctx =
      compose ctx (codes "Your " ++ ctx.concert.artist ++ codes " trip is ready to confirm") (
        codes "your trip to "
        ++ place ctx
        ++ codes
            " has reached the minimum number of passengers. Confirm it in GigDrive so the crew can go.")

  trip_confirmed : TripEmailContext → RenderedEmail
  trip_confirmed ctx =
      compose ctx (codes "Trip confirmed: " ++ place ctx)
        (codes "the trip to " ++ place ctx ++ codes " is confirmed. See you on the road.")

  trip_cancelled : TripEmailContext → RenderedEmail
  trip_cancelled ctx =
      compose ctx (codes "Trip cancelled: " ++ place ctx)
        (codes "the trip to " ++ place ctx ++ codes " has been cancelled.")

  trip_reminder : TripEmailContext → RenderedEmail
  trip_reminder ctx =
      compose ctx (codes "Reminder: " ++ ctx.concert.artist ++ codes " trip departs tomorrow") (
        codes "this is a reminder that your trip to "
        ++ place ctx
        ++ codes " departs in about 24 hours.")

  -- A note of music, in two code units, stands before the artist in the name of a group.
  signal_invite : TripEmailContext → RenderedEmail
  signal_invite ctx =
      let group_name =
        get_or ctx.group_name
          (55356 ∷ 57269 ∷ codes " " ++ ctx.concert.artist ++ codes " — " ++ ctx.concert.city) in
      let link = get_or ctx.invite_link [] in
      let body =
        codes "the crew Signal group \""
        ++ group_name
        ++ codes
            "\" is ready. Open the invite link below to join. GigDrive never collects phone numbers for Signal." in
      let subject = codes "Signal group for " ++ place ctx in
      record {
        subject = subject;
        text =
            join_lines
              (greeting ctx ∷ [] ∷ body ∷ [] ∷ link ∷ [] ∷ trip_details ctx ∷ [] ∷ sign_off ∷ []);
        html = wrap_html subject (
            join_lines (
              paragraph (greeting ctx)
              ∷ paragraph body
              ∷ (codes "<p><a href=\""
                  ++ escape_html link
                  ++ codes "\">"
                  ++ escape_html link
                  ++ codes "</a></p>")
              ∷ details_paragraph (trip_details ctx)
              ∷ paragraph sign_off
              ∷ []));
      }

  unfoldable pub render_trip_email : TripMailEvent → TripEmailContext → RenderedEmail
  unfolding trip_ready trip_confirmed trip_cancelled trip_reminder signal_invite
  render_trip_email TripMailEvent.ready ctx = trip_ready ctx
  render_trip_email TripMailEvent.confirmed ctx = trip_confirmed ctx
  render_trip_email TripMailEvent.cancelled ctx = trip_cancelled ctx
  render_trip_email TripMailEvent.reminder ctx = trip_reminder ctx
  render_trip_email TripMailEvent.invite ctx = signal_invite ctx

  -- The name of the passenger and the seats are the further fields of the context.
  abbrev booking_requested : TripEmailContext → Text → ℕ → RenderedEmail
  booking_requested ctx passenger_name seats =
      compose ctx (codes "New booking request for " ++ place ctx) (
        passenger_name
        ++ codes " requested "
        ++ seat_label seats
        ++ codes " on your trip to "
        ++ place ctx
        ++ codes ". Log in to GigDrive to accept or reject.")

  abbrev booking_accepted : TripEmailContext → ℕ → RenderedEmail
  booking_accepted ctx seats =
      compose ctx (codes "Your booking for " ++ ctx.concert.artist ++ codes " was accepted") (
        ctx.driver_name
        ++ codes " accepted your request for "
        ++ seat_label seats
        ++ codes " on the trip to "
        ++ place ctx
        ++ codes ".")

  abbrev booking_rejected : TripEmailContext → ℕ → RenderedEmail
  booking_rejected ctx seats =
      compose ctx (codes "Your booking for " ++ ctx.concert.artist ++ codes " was declined") (
        ctx.driver_name
        ++ codes " declined your request for "
        ++ seat_label seats
        ++ codes " on the trip to "
        ++ place ctx
        ++ codes ".")

  unfoldable pub render_booking_email :
      BookingMailEvent → TripEmailContext → Text → ℕ → RenderedEmail
  render_booking_email BookingMailEvent.requested ctx passenger_name seats =
      booking_requested ctx passenger_name seats
  render_booking_email BookingMailEvent.accepted ctx passenger_name seats =
      booking_accepted ctx seats
  render_booking_email BookingMailEvent.declined ctx passenger_name seats =
      booking_rejected ctx seats

  -- The position and the seats are the further fields of the context.
  abbrev waitlist_seat_available : TripEmailContext → ℕ → ℕ → RenderedEmail
  waitlist_seat_available ctx position seats =
      compose ctx (codes "A seat opened on " ++ place ctx) (
        codes "a seat freed on the trip to "
        ++ place ctx
        ++ codes ". You are #"
        ++ to_decimal position
        ++ codes " on the waitlist (you requested "
        ++ seat_label seats
        ++ codes
            "). Request seats in GigDrive if you still want to go — joining the waitlist does not reserve a seat.")

  -- There is one event of the waitlist.
  unfoldable pub render_waitlist_email : TripEmailContext → ℕ → ℕ → RenderedEmail
  render_waitlist_email ctx position seats = waitlist_seat_available ctx position seats
