-- ===== src/Chat/Gateway.antt =====
-- backend/src/chat/chat.gateway.ts: the events of the sockets of the trip chat. The rooms of socket.io are a
-- parameter, with what it documents of them. The maps from sockets are keyed by the id of the socket.
use gig_drive.Shared.{
  ℕ, ◌==◌, not, ◌&&◌, ◌||◌, Bool, ◌≡◌, Option, none, some, List, ◌∷◌, lookup, insert, if◌then◌else◌,
}
use gig_drive.Entities.{Text, User}
use gig_drive.Errors.{HttpError, Result, ok, err}
use gig_drive.Service.{World, Env}
use gig_drive.TripQueries.{is_empty}
use gig_drive.Users.{find_by_id}
use gig_drive.Auth.{Crypto}
use gig_drive.Chat.{ChatMessageDto, is_enabled, assert_member, persist_message}

-- The rooms that sockets are in, by the trip that a room is named after.
pub record RoomServer : Type 1 where
  pub Rooms : Type 0
  pub no_rooms : Rooms
  pub in_room : ℕ → ℕ → Rooms → Bool
  pub join : ℕ → ℕ → Rooms → Rooms
  pub leave : ℕ → ℕ → Rooms → Rooms
  -- A socket that disconnects leaves its rooms.
  pub leave_all : ℕ → Rooms → Rooms
  pub in_room-join :
      (s t s' t' : ℕ) (r : Rooms)
      → in_room s t (join s' t' r) ≡ ((s == s' && t == t') || in_room s t r)
  pub in_room-leave :
      (s t s' t' : ℕ) (r : Rooms)
      → in_room s t (leave s' t' r) ≡ (not (s == s' && t == t') && in_room s t r)
  pub in_room-leave_all :
      (s t s' : ℕ) (r : Rooms) → in_room s t (leave_all s' r) ≡ (not (s == s') && in_room s t r)

-- `client.handshake.auth`: no object, an object without a token or with one that is no string, or a token.
pub data Handshake : Type 0 where
  no_auth no_token : Handshake
  token : Text → Handshake

abbrev pub read_auth_token : Handshake → Option Text
read_auth_token Handshake.no_auth = none
read_auth_token Handshake.no_token = none
read_auth_token (Handshake.token text) = if is_empty text then none else some text

-- The WsException that an event handler throws.
pub data WsError : Type 0 where
  ws_unauthorized join_first : WsError
  refused : HttpError → WsError

module _ (server : RoomServer) where
  pub record Hub : Type 0 where
    pub connected_users : List (ℕ × User)
    pub joined_trips : List (ℕ × ℕ)
    pub rooms : server.Rooms
    -- The messages sent to rooms, the latest first, with the rooms as they were.
    pub emitted : List (ℕ × ChatMessageDto × server.Rooms)

  -- What an event handler returns, and the state it leaves.
  abbrev pub Outcome : Type 0
  Outcome = Option WsError × Hub × World

  abbrev pub state_of : Outcome → Hub × World
  state_of (e, h, w) = (h, w)

module _ (server : RoomServer) (env : Env) (crypto : Crypto) where
  -- `client.disconnect()`
  abbrev pub disconnect : ℕ → Hub server → World → Outcome server
  disconnect socket h w = (none, record h { rooms = server.leave_all socket h.rooms }, w)

  abbrev user_of : Text → World → Option User
  user_of text w = elim (crypto.verify w.now text) [
    | none ↦ none
    | some payload ↦ find_by_id env payload.sub w
  ]

  unfoldable pub handle_connection : ℕ → Handshake → Hub server → World → Outcome server
  handle_connection socket handshake h w =
      if is_enabled env
      then (elim (read_auth_token handshake) [
        | none ↦ disconnect socket h w
        | some text ↦ elim (user_of text w) [
          | none ↦ disconnect socket h w
          | some user ↦
              (none, record h { connected_users = insert socket user h.connected_users }, w)
        ]
      ])
      else disconnect socket h w

  -- `await this.requireMember(tripId, user.id)` before the rest of a handler.
  abbrev go_on :
      Result (Unit {0}) × World
      → Hub server
      → (Hub server → World → Outcome server)
      → Outcome server
  go_on (ok _, w) h rest = rest h w
  go_on (err e, w) h rest = (some (WsError.refused e), h, w)

  abbrev require_member :
      ℕ → ℕ → Hub server → World → (Hub server → World → Outcome server) → Outcome server
  require_member trip_id user_id h w rest = go_on (assert_member env trip_id user_id w) h rest

  -- The rooms after `leave` of the room joined before, if it is another one, and `join`.
  abbrev pub move_to : ℕ → ℕ → Hub server → server.Rooms
  move_to socket trip_id h = server.join socket trip_id (elim (lookup socket h.joined_trips) [
    | none ↦ h.rooms
    | some previous ↦ if previous == trip_id then h.rooms else server.leave socket previous h.rooms
  ])

  unfoldable pub handle_join : ℕ → ℕ → Hub server → World → Outcome server
  handle_join socket trip_id h w = elim (lookup socket h.connected_users) [
    | none ↦ (some WsError.ws_unauthorized, h, w)
    | some user ↦ require_member trip_id user.id h w λ h w. (
      none,
      record h {
        rooms = move_to socket trip_id h;
        joined_trips = insert socket trip_id h.joined_trips;
      },
      w,
    )
  ]

  abbrev emit : ℕ → Result ChatMessageDto × World → Hub server → Outcome server
  emit trip_id (ok message, w) h =
      (none, record h { emitted = (trip_id, message, h.rooms) ∷ h.emitted }, w)
  emit trip_id (err e, w) h = (some (WsError.refused e), h, w)

  unfoldable pub handle_message : ℕ → Text → Hub server → World → Outcome server
  handle_message socket body h w = elim (lookup socket h.connected_users) [
    | none ↦ (some WsError.ws_unauthorized, h, w)
    | some user ↦ elim (lookup socket h.joined_trips) [
      | none ↦ (some WsError.join_first, h, w)
      | some trip_id ↦
          require_member trip_id user.id h w
            λ h w. emit trip_id (persist_message env trip_id user.id body w) h
    ]
  ]
