-- ===== src/Chat.antt =====
-- backend/src/chat/chat.service.ts and guards/trip-chat-member.guard.ts: who may read and write the chat of
-- a trip, and its messages.
pub mod Members
pub mod Gateway
pub mod Rooms
pub mod Tracked
pub mod Authors
use gig_drive.Shared.{
  ℕ, ◌==◌, leb, not, ◌&&◌, ◌||◌, Bool, true, false, Option, none, some, List, map, is_some,
}
use gig_drive.Shared.Sort.{sort_by}
use gig_drive.Entities.{Text, Trip, ChatMessage}
use gig_drive.Errors.{unauthorized, forbidden, not_found, Reason}
use gig_drive.Service.{
  World, Env, Action, pure, gets, or_throw, throw_if, modify, codes, ◌>>=◌, ◌>>◌,
}
use gig_drive.TripViews.{field}
use gig_drive.TripQueries.{display_name}
use gig_drive.Reviews.{is_passenger}
use gig_drive.Manifest.{trim}

pub record ChatMessageDto : Type 0 where
  pub id : ℕ
  pub trip_id : ℕ
  pub author_id : ℕ
  pub author_name : Text
  pub body : Text
  pub sent_at : ℕ

abbrev pub message_dto : ChatMessage → Text → ChatMessageDto
message_dto message author_name = record {
  id = message.id;
  trip_id = message.trip_id;
  author_id = message.author_id;
  author_name = author_name;
  body = message.body;
  sent_at = message.sent_at;
}

module _ (env : Env) where
  abbrev pub is_enabled : Bool
  is_enabled = env.feature_chat

  unfoldable pub is_trip_member : Trip → ℕ → World → Bool
  is_trip_member trip user_id w =
      trip.driver_id == user_id
      || is_some (env.bookings_repository.find_one (is_passenger trip.id user_id) w.bookings)

  unfoldable pub is_member : ℕ → ℕ → World → Bool
  is_member trip_id user_id w =
      field (env.trips_repository.find_one (λ t. t.id == trip_id) w.trips)
        (λ trip. is_trip_member trip user_id w) false

  unfoldable pub assert_member : ℕ → ℕ → Action (Unit {0})
  assert_member trip_id user_id = do
    trip ←
        or_throw (← gets (λ w. env.trips_repository.find_one (λ t. t.id == trip_id) w.trips))
          (not_found Reason.trip_not_found)
    member ← gets (is_trip_member trip user_id)
    throw_if (not member) (forbidden Reason.not_a_chat_member)

  abbrev pub author_display_name : ChatMessage → World → Text
  author_display_name message w =
      field (env.users_repository.find_one (λ u. u.id == message.author_id) w.users) display_name
        (codes "Unknown member")

  unfoldable pub list_history : ℕ → Action (List ChatMessageDto)
  list_history trip_id = do
    throw_if (not is_enabled) (not_found Reason.no_message)
    gets (λ w.
        map (λ m. message_dto m (author_display_name m w))
          (sort_by (λ a b. leb a.sent_at b.sent_at)
            (env.messages_repository.find (λ m. m.trip_id == trip_id) w.messages)))

  abbrev pub new_message : ℕ → ℕ → Text → World → ChatMessage
  new_message trip_id author_id body w = record {
    id = env.messages_repository.new_id w.messages;
    trip_id = trip_id;
    author_id = author_id;
    body = trim body;
    sent_at = w.now;
  }

  abbrev find_message_or_fail : ℕ → Action ChatMessage
  find_message_or_fail id = do
    or_throw (← gets (λ w. env.messages_repository.find_one (λ m. m.id == id) w.messages))
        (not_found Reason.message_not_found)

  unfoldable pub persist_message : ℕ → ℕ → Text → Action ChatMessageDto
  persist_message trip_id author_id body = do
    saved ← gets (new_message trip_id author_id body)
    modify (λ w. record w { messages = env.messages_repository.save saved w.messages })
    message ← find_message_or_fail saved.id
    gets (λ w. message_dto message (author_display_name message w))

  -- `TripChatMemberGuard.canActivate`, for the user of the request and the id in its path.
  unfoldable pub chat_guard : Option ℕ → Option ℕ → Action (Unit {0})
  unfolding assert_member
  chat_guard user param = do
    throw_if (not is_enabled) (not_found Reason.no_message)
    user_id ← or_throw user unauthorized
    trip_id ← or_throw param (not_found Reason.trip_not_found)
    assert_member trip_id user_id
