-- ===== src/Examples/Chat.antt =====
-- The sockets of the chat at a concrete table of rooms.
use gig_drive.Shared.{
  ℕ, ◌==◌, not, ◌&&◌, ◌||◌, Bool, true, false, ◌≡◌, refl, ◌⊎◌, some, List, [], ◌∷◌, lookup, arith,
}
use gig_drive.Entities.{User}
use gig_drive.Errors.{err, unauthorized}
use gig_drive.Service.{World}
use gig_drive.Users.{find_by_id}
use gig_drive.Auth.{authenticate}
use gig_drive.Chat.{assert_member, is_trip_member, persist_message}
use gig_drive.Chat.Members.{BelongsTo}
use gig_drive.Chat.Gateway.{
  RoomServer, Handshake, Hub, state_of, handle_connection, handle_join, handle_message,
}
use gig_drive.Chat.Rooms.{SocketEvent, handle, handle_all, no_sockets, handle_all-Consistent}
use gig_drive.Chat.Tracked.{joined_to, Tracked, handle_all-Tracked}
use gig_drive.Chat.Authors.{Sent, handle_message-effect, handle_connection-disabled}
use gig_drive.Examples.{env, user, world}
use gig_drive.Examples.Accounts.{crypto}

-- The rooms as the set of the pairs of a socket and a trip.
abbrev server : RoomServer
server = record {
  Rooms = ℕ → ℕ → Bool;
  no_rooms = λ s t. false;
  in_room = λ s t r. r s t;
  join = λ s' t' r s t. (s == s' && t == t') || r s t;
  leave = λ s' t' r s t. not (s == s' && t == t') && r s t;
  leave_all = λ s' r s t. not (s == s') && r s t;
  in_room-join = λ s t s' t' r. refl;
  in_room-leave = λ s t s' t' r. refl;
  in_room-leave_all = λ s t s' r. refl;
}

-- The driver of a trip and a passenger of it connect, and the driver writes.
abbrev talk : List SocketEvent
talk =
    SocketEvent.connects 10 (Handshake.token (100 ∷ 1 ∷ []))
    ∷ SocketEvent.connects 11 (Handshake.token (100 ∷ 2 ∷ []))
    ∷ SocketEvent.joins 10 1
    ∷ SocketEvent.joins 11 1
    ∷ SocketEvent.sends 10 (1 ∷ [])
    ∷ SocketEvent.joins 10 2
    ∷ SocketEvent.disconnects 11
    ∷ []

driver_in_room :
    server.in_room 10 2
      (handle_all server env crypto talk (no_sockets server env crypto) world).0.rooms
    ≡ true
unfolding handle handle_connection handle_join handle_message persist_message assert_member
    is_trip_member
driver_in_room = refl

handle_all-Consistent_example :
    lookup 10
      (handle_all server env crypto talk (no_sockets server env crypto) world).0.joined_trips
    ≡ some 2
handle_all-Consistent_example =
    handle_all-Consistent server env crypto talk (no_sockets server env crypto) world
      (λ s t m. absurd (ground arith)) 10 2 driver_in_room

-- The sockets have connected, and the one of the driver joins rooms while the other comes and goes.
abbrev arrived : Hub server × World
arrived =
    handle_all server env crypto
      (SocketEvent.connects 10 (Handshake.token (100 ∷ 1 ∷ []))
        ∷ SocketEvent.connects 11 (Handshake.token (100 ∷ 2 ∷ []))
        ∷ [])
      (no_sockets server env crypto) world

abbrev evening : List SocketEvent
evening =
    SocketEvent.joins 10 1
    ∷ SocketEvent.joins 11 1
    ∷ SocketEvent.sends 10 (1 ∷ [])
    ∷ SocketEvent.joins 10 2
    ∷ SocketEvent.disconnects 11
    ∷ []

arrived-Tracked : Tracked server env crypto 10 arrived.0
unfolding handle handle_connection
arrived-Tracked t = refl

joined_second :
    lookup 10 (handle_all server env crypto evening arrived.0 arrived.1).0.joined_trips ≡ some 2
unfolding handle handle_connection handle_join handle_message persist_message assert_member
    is_trip_member
joined_second = refl

handle_all-Tracked_example :
    let h = (handle_all server env crypto evening arrived.0 arrived.1).0 in
    server.in_room 10 2 h.rooms ≡ joined_to 2 (lookup 10 h.joined_trips)
handle_all-Tracked_example =
    handle_all-Tracked server env crypto 10 evening arrived.0 arrived.1
      (refl, (refl, (refl, (refl, (refl, tt))))) arrived-Tracked 2

-- The driver has joined the room of a trip.
abbrev hub : Hub server
hub = record {
  connected_users = (10, user 1) ∷ [];
  joined_trips = (10, 1) ∷ [];
  rooms = λ s t. s == 10 && t == 1;
  emitted = [];
}

handle_message-effect_example :
    let after = state_of server (handle_message server env crypto 10 (1 ∷ []) hub world) in
    (after ≡ (hub, world))
    ⊎ ((author : User) × (trip_id : ℕ) × (lookup 10 hub.connected_users ≡ some author)
        × (lookup 10 hub.joined_trips ≡ some trip_id)
        × BelongsTo trip_id author.id world
        × Sent server env crypto trip_id author.id (1 ∷ []) hub world after)
handle_message-effect_example = handle_message-effect server env crypto 10 (1 ∷ []) hub world

abbrev closed : User
closed = record (user 9) { disabled_at = some 50 }

abbrev moderated : World
moderated = record world { users = closed ∷ world.users }

closed_account : find_by_id env 9 moderated ≡ some closed
closed_account = refl

handle_connection-disabled_example :
    let (h', w') =
      state_of server
        (handle_connection server env crypto 12 (Handshake.token (100 ∷ 9 ∷ [])) hub moderated) in
    (authenticate env crypto (100 ∷ 9 ∷ []) moderated ≡ (err unauthorized, moderated))
    × (w' ≡ moderated)
    × (lookup 12 h'.connected_users ≡ some closed)
handle_connection-disabled_example =
    handle_connection-disabled server env crypto 12 50 (100 ∷ 9 ∷ []) record { sub = 9; email = [] }
      closed hub moderated refl refl refl closed_account refl
