-- ===== src/Emails/Recipients.antt =====
-- Who gets the email of an event on a trip: email-trip-notifications.ts.
use gig_drive.Shared.{
  ℕ, ◌+◌, ◌==◌, ==_iff, ◌||◌, ◌&&◌, not, Bool, false, ◌≡◌, refl, sym, ap, ◌∙◌, inl, inr, Option,
  none, some, List, [], ◌∷◌, ltb, arith, map, includes, sum_by, sum_by-ext, if◌then◌else◌,
  Bool-cases, Option-cases,
}
use gig_drive.Entities.{Text, User, Trip, Booking, BookingStatus}
use gig_drive.Repository.Queries.{sum_by-find}
use gig_drive.Service.{World, Env}
use gig_drive.Templates.{RenderedEmail, TripMailEvent, render_trip_email}
use gig_drive.Emails.{
  Mail, Mailer, mail_to, unique_from, unique_users, send_to_user, send_all, user_at,
  load_passengers, resolve_recipients, dispatch_trip, trip_context, confirmed_only,
  confirmed_and_pending, trip_at,
}

-- Whether a user with an id stands in a list of users that may be missing.
abbrev pub has : ℕ → List (Option User) → Bool
has id [] = false
has id (none ∷ us) = has id us
has id (some u ∷ us) = u.id == id || has id us

-- Users with one id agree on a test.
abbrev Agrees : ℕ → (User → Bool) → Bool → List (Option User) → Type 0
Agrees id g answer [] = Unit
Agrees id g answer (none ∷ us) = Agrees id g answer us
Agrees id g answer (some u ∷ us) = (u.id ≡ id → g u ≡ answer) × Agrees id g answer us

-- The id stands once in the result, if it stands in the list and has not been seen.
unique_from-count :
    (id : ℕ) (g : User → Bool) (answer : Bool) (seen : List ℕ) (us : List (Option User))
    → Agrees id g answer us
    → sum_by (λ u. if u.id == id && g u then 1 else 0) (unique_from seen us)
      ≡ (if not (includes id seen) && (has id us && answer) then 1 else 0)
unique_from-count id g answer seen [] h = ground arith
unique_from-count id g answer seen (none ∷ us) h = unique_from-count id g answer seen us h
unique_from-count id g answer seen (some u ∷ us) (own, h) =
    let skipped = unique_from-count id g answer seen us h in
    let kept = unique_from-count id g answer (u.id ∷ seen) us h in
    elim (Bool-cases (u.id == id)) [
      | inl e ↦
          let same = own ((==_iff _ _).0 e) in
          let there : includes u.id seen ≡ includes id seen =
            ap (λ n. includes n seen) ((==_iff _ _).0 e) in
          ground arith
      | inr e ↦ ground arith
    ]

-- How many mails have gone to a user.
abbrev pub mails_to : ℕ → List Mail → ℕ
mails_to id mails = sum_by (λ m. if m.user_id == id then 1 else 0) mails

-- The bookings of which an event on the trip tells the passengers.
abbrev pub tells : TripMailEvent → BookingStatus → Bool
tells TripMailEvent.ready status = false
tells TripMailEvent.cancelled status = confirmed_and_pending status
tells _ status = confirmed_only status

-- Whether an event concerns a user: the driver, or a passenger with such a booking.
abbrev pub concerns : TripMailEvent → Trip → ℕ → World → Bool
concerns type trip id w =
    trip.driver_id == id
    || ltb 0 (
        sum_by
          (λ b.
            if b.trip_id == trip.id && tells type b.status && b.passenger_id == id then 1 else 0)
          w.bookings)

module _ (env : Env) (mailer : Mailer) where
  abbrev pub is_sent : (Text → RenderedEmail) → User → Bool
  is_sent render u =
      u.email_notifications
      && (mailer.has_transport && mailer.takes (mail_to u (render u.first_name)))

  send_all-count :
      (id : ℕ) (render : Text → RenderedEmail) (us : List User) (mails : List Mail)
      → mails_to id (send_all env mailer us render mails)
        ≡ mails_to id mails + sum_by (λ u. if u.id == id && is_sent render u then 1 else 0) us
  unfolding send_all send_to_user
  send_all-count id render [] mails = omega arith
  send_all-count id render (u ∷ us) mails =
      let sent = send_to_user env mailer u (render u.first_name) mails in
      ground (arith, send_all-count id render us sent)

  module _ (id : ℕ) (u : User) (w : World) (hit : user_at env mailer id w ≡ some u) where
    id_of : (pid : ℕ) (v : User) → user_at env mailer pid w ≡ some v → v.id ≡ pid
    id_of pid v e = (==_iff _ _).0 (env.users_repository.find_one_hit _ w.users v e).1

    has-at :
        (pid : ℕ) (us : List (Option User))
        → has id (user_at env mailer pid w ∷ us) ≡ (pid == id || has id us)
    has-at pid us = elim (Bool-cases (pid == id)) [
      | inl same ↦
          let found : user_at env mailer pid w ≡ some u =
            ap (λ n. user_at env mailer n w) ((==_iff _ _).0 same) ∙ hit in
          rw (found, same) (let own = id_of id u hit in ground arith)
      | inr other ↦ elim (Option-cases (user_at env mailer pid w)) [
        | inl e ↦ rw (e, other) refl
        | inr (v, e) ↦ rw (e, other) (let own = id_of pid v e in ground arith)
      ]
    ]

    has-passengers :
        (bs : List Booking)
        → has id (map (λ b. user_at env mailer b.passenger_id w) bs)
          ≡ ltb 0 (sum_by (λ b. if b.passenger_id == id then 1 else 0) bs)
    has-passengers [] = refl
    has-passengers (b ∷ bs) =
        has-at b.passenger_id (map (λ b. user_at env mailer b.passenger_id w) bs)
        ∙ ground (arith, has-passengers bs)

    module _ (g : User → Bool) where
      agrees-at : (pid : ℕ) (v : User) → user_at env mailer pid w ≡ some v → v.id ≡ id → g v ≡ g u
      agrees-at pid v e own =
          let same : pid ≡ id = sym (id_of pid v e) ∙ own in
          let again : some v ≡ some u = sym e ∙ ap (λ n. user_at env mailer n w) same ∙ hit in
          ground arith

      Agrees-cons :
          (pid : ℕ) (us : List (Option User))
          → Agrees id g (g u) us
          → Agrees id g (g u) (user_at env mailer pid w ∷ us)
      Agrees-cons pid us h = from (user_at env mailer pid w) refl
        where
          from : (o : Option User) → user_at env mailer pid w ≡ o → Agrees id g (g u) (o ∷ us)
          from none e = h
          from (some v) e = (agrees-at pid v e, h)

      Agrees-passengers :
          (bs : List Booking)
          → Agrees id g (g u) (map (λ b. user_at env mailer b.passenger_id w) bs)
      Agrees-passengers [] = tt
      Agrees-passengers (b ∷ bs) =
          Agrees-cons b.passenger_id (map (λ b. user_at env mailer b.passenger_id w) bs)
            (Agrees-passengers bs)

    told : (BookingStatus → Bool) → Trip → ℕ
    told p trip =
        sum_by (λ b. if b.trip_id == trip.id && p b.status && b.passenger_id == id then 1 else 0)
          w.bookings

    driver-count :
        (trip : Trip) (g : User → Bool)
        → sum_by
            (λ v. if v.id == id && g v then 1 else 0)
            (unique_from [] (user_at env mailer trip.driver_id w ∷ []))
          ≡ (if trip.driver_id == id && g u then 1 else 0)
    driver-count trip g =
        let us = user_at env mailer trip.driver_id w ∷ [] in
        let once = unique_from-count id g (g u) [] us (Agrees-cons g trip.driver_id [] tt) in
        once ∙ ground (arith, has-at trip.driver_id [])

    among-count :
        (p : BookingStatus → Bool) (trip : Trip) (g : User → Bool)
        → sum_by
            (λ v. if v.id == id && g v then 1 else 0)
            (unique_from []
              (user_at env mailer trip.driver_id w ∷ load_passengers env mailer trip.id p w))
          ≡ (if (trip.driver_id == id || ltb 0 (told p trip)) && g u then 1 else 0)
    unfolding told
    among-count p trip g =
        let passes : Booking → Bool = λ b. b.trip_id == trip.id && p b.status in
        let bs = env.bookings_repository.find passes w.bookings in
        let us = map (λ b. user_at env mailer b.passenger_id w) bs in
        let once =
          unique_from-count id g (g u) [] (user_at env mailer trip.driver_id w ∷ us)
            (Agrees-cons g trip.driver_id us (Agrees-passengers g bs)) in
        let found =
          sum_by-find env.bookings_repository (λ b. if b.passenger_id == id then 1 else 0) passes
            w.bookings in
        let joined =
          sum_by-ext (λ b. if passes b then (if b.passenger_id == id then 1 else 0) else 0)
            (λ b. if b.trip_id == trip.id && p b.status && b.passenger_id == id then 1 else 0)
            (λ b. ground arith) w.bookings in
        once ∙ ground (arith, has-at trip.driver_id us, has-passengers bs, found, joined)

    none_told : (trip : Trip) → told (λ s. false) trip ≡ 0
    unfolding told
    none_told trip =
        sum_by-ext (λ b. if b.trip_id == trip.id && false && b.passenger_id == id then 1 else 0)
          (λ b. 0) (λ b. ground arith) w.bookings
        ∙ zeros w.bookings
      where
        zeros : (bs : List Booking) → sum_by (λ b. 0) bs ≡ 0
        zeros [] = refl
        zeros (b ∷ bs) = omega (arith, zeros bs)

    -- The recipients hold a user with a test once, if the event concerns the user.
    recipients-count :
        (type : TripMailEvent) (trip : Trip) (g : User → Bool)
        → sum_by
            (λ v. if v.id == id && g v then 1 else 0)
            (resolve_recipients env mailer type trip w)
          ≡ (if concerns type trip id w && g u then 1 else 0)
    unfolding resolve_recipients unique_users told
    recipients-count TripMailEvent.ready trip g =
        driver-count trip g ∙ ground (arith, none_told trip)
    recipients-count TripMailEvent.cancelled trip g = among-count confirmed_and_pending trip g
    recipients-count TripMailEvent.confirmed trip g = among-count confirmed_only trip g
    recipients-count TripMailEvent.reminder trip g = among-count confirmed_only trip g
    recipients-count TripMailEvent.invite trip g = among-count confirmed_only trip g

    -- The email of an event on a trip goes to a user of the database exactly once if the user is the driver, or
    -- has a booking of which the event tells the passengers (a confirmed one, or a pending one too if the trip
    -- is cancelled, and none if it is ready), wants emails, and the mail is taken, and otherwise not at all.
    pub dispatch_trip-once :
        (type : TripMailEvent) (trip_id : ℕ) (link name : Option Text) (trip : Trip)
        (mails : List Mail)
        → trip_at env mailer trip_id w ≡ some trip
        → let render : Text → RenderedEmail = λ first_name.
          render_trip_email mailer.format_time type
            (trip_context env mailer trip link name first_name w) in
          mails_to id (dispatch_trip env mailer type trip_id link name w mails)
          ≡ mails_to id mails + (if concerns type trip id w && is_sent render u then 1 else 0)
    unfolding dispatch_trip
    dispatch_trip-once type trip_id link name trip mails e =
        let render : Text → RenderedEmail = λ first_name.
          render_trip_email mailer.format_time type
            (trip_context env mailer trip link name first_name w) in
        let total = send_all-count id render (resolve_recipients env mailer type trip w) mails in
        let once = recipients-count type trip (is_sent render) in
        rw (dispatch_trip, e) (omega (arith, total, once))
