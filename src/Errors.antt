-- ===== src/Errors.antt =====
-- The exceptions of @nestjs/common that the services throw, one reason for each message in the
-- source, and calls that return or throw. An exception is a value.
use gig_drive.Shared.{ℕ, Bool, true, false}

pub data Reason : Type 0 where
  trip_not_found vehicle_not_found concert_not_found booking_not_found : Reason
  waitlist_entry_not_found user_not_found review_not_found message_not_found no_message : Reason
  only_open_editable trip_already_finished only_ready_confirmable : Reason
  concert_not_past not_a_passenger already_reviewed : Reason
  not_your_vehicle min_above_max : Reason
  max_above_vehicle_seats : ℕ → Reason
  deadline_after_concert deadline_after_departure departure_after_concert : Reason
  driver_books_own_trip not_accepting_bookings already_booked : Reason
  not_enough_seats_soft not_enough_seats : Reason
  only_pending_accepted only_pending_rejected no_longer_cancellable only_confirmed_paid : Reason
  cannot_disable_self last_admin email_registered admin_required : Reason
  vehicle_in_use not_a_chat_member : Reason
  driver_joins_own_waitlist waitlist_closed seats_above_capacity already_on_waitlist : Reason

pub data HttpError : Type 0 where
  -- A TypeError of the runtime, which NestJS turns into a 500.
  internal : HttpError
  unauthorized invalid_credentials bad_request : HttpError
  forbidden not_found conflict : Reason → HttpError

pub data Result (A : Type 0) : Type 0 where
  ok : A → Result A
  err : HttpError → Result A

abbrev pub is_ok : {A : Type 0} → Result A → Bool
is_ok (ok a) = true
is_ok (err e) = false
