-- ===== src/Chat/Rooms.antt =====
-- The rooms of the sockets over a history of events of backend/src/chat/chat.gateway.ts. Between two events
-- the other services may write the tables.
use gig_drive.Shared.{
  ℕ, ◌==◌, ==_iff, true, ◌≡◌, sym, ap, ◌∙◌, ◌⊎◌, inl, inr, some, List, [], ◌∷◌, lookup, insert,
  lookup-insert, arith, false, Option-cases, Bool-cases, subst,
}
use gig_drive.Entities.{Text, User}
use gig_drive.Service.{World, Env}
use gig_drive.Auth.{Crypto}
use gig_drive.Chat.{is_member, persist_message}
use gig_drive.Chat.Members.{assert_member-cases}
use gig_drive.Chat.Gateway.{
  RoomServer, Handshake, Hub, state_of, move_to, disconnect, handle_connection, handle_join,
  handle_message,
}

-- What happens to a socket, or to the tables.
pub data SocketEvent : Type 0 where
  connects : ℕ → Handshake → SocketEvent
  joins : ℕ → ℕ → SocketEvent
  sends : ℕ → Text → SocketEvent
  disconnects : ℕ → SocketEvent
  tables_change : World → SocketEvent

module _ (server : RoomServer) (env : Env) (crypto : Crypto) where
  unfoldable pub handle : SocketEvent → Hub server → World → Hub server × World
  handle (SocketEvent.connects socket handshake) h w =
      state_of server (handle_connection server env crypto socket handshake h w)
  handle (SocketEvent.joins socket trip_id) h w =
      state_of server (handle_join server env crypto socket trip_id h w)
  handle (SocketEvent.sends socket body) h w =
      state_of server (handle_message server env crypto socket body h w)
  handle (SocketEvent.disconnects socket) h w =
      state_of server (disconnect server env crypto socket h w)
  handle (SocketEvent.tables_change w') h w = (h, w')

  abbrev pub handle_all : List SocketEvent → Hub server → World → Hub server × World
  handle_all [] h w = (h, w)
  handle_all (e ∷ es) h w = let (h', w') = handle e h w in handle_all es h' w'

  abbrev pub no_sockets : Hub server
  no_sockets = record {
    connected_users = [];
    joined_trips = [];
    rooms = server.no_rooms;
    emitted = [];
  }

  -- A socket is in no room but the one that the gateway keeps for it; it need not be in that one.
  abbrev pub Consistent : Hub server → Type 0
  Consistent h = (s t : ℕ) → server.in_room s t h.rooms ≡ true → lookup s h.joined_trips ≡ some t

  leaves-Consistent :
      (socket : ℕ) (h : Hub server)
      → Consistent h
      → Consistent record h { rooms = server.leave_all socket h.rooms }
  leaves-Consistent socket h c s t m =
      c s t (ground (arith, server.in_room-leave_all s t socket h.rooms))

  joins-Consistent :
      (socket trip_id : ℕ) (h : Hub server) (rooms : server.Rooms)
      → Consistent h
      → ((s t : ℕ)
          → server.in_room s t rooms ≡ true
          → ((socket == s) ≡ true × ((t == trip_id) ≡ true))
            ⊎ (((socket == s) ≡ false) × (server.in_room s t h.rooms ≡ true)))
      → Consistent record h { rooms = rooms; joined_trips = insert socket trip_id h.joined_trips }
  joins-Consistent socket trip_id h rooms c moved s t m = elim (moved s t m) [
    | inl (own, there) ↦
        lookup-insert socket s trip_id h.joined_trips
        ∙ rw own (ap some (sym ((==_iff _ _).0 there)))
    | inr (other, stayed) ↦ lookup-insert socket s trip_id h.joined_trips ∙ rw other (c s t stayed)
  ]

  moved_own :
      (socket trip_id : ℕ) (h : Hub server) (t : ℕ)
      → Consistent h
      → server.in_room socket t (move_to server env crypto socket trip_id h) ≡ true
      → (t == trip_id) ≡ true
  moved_own socket trip_id h t c m = elim (Bool-cases (server.in_room socket t h.rooms)) [
    | inl there ↦
        let at = c socket t there in
        let left = server.in_room-leave socket t socket t h.rooms in
        let joined = server.in_room-join socket t socket trip_id (server.leave socket t h.rooms) in
        ground arith
    | inr away ↦ elim (Option-cases (lookup socket h.joined_trips)) [
      | inl e ↦ let joined = server.in_room-join socket t socket trip_id h.rooms in ground arith
      | inr (previous, e) ↦
          let stays = server.in_room-join socket t socket trip_id h.rooms in
          let left = server.in_room-leave socket t socket previous h.rooms in
          let joined =
            server.in_room-join socket t socket trip_id (server.leave socket previous h.rooms) in
          ground arith
    ]
  ]

  moved_other :
      (socket trip_id : ℕ) (h : Hub server) (s t : ℕ)
      → (socket == s) ≡ false
      → server.in_room s t (move_to server env crypto socket trip_id h) ≡ true
      → server.in_room s t h.rooms ≡ true
  moved_other socket trip_id h s t other m = elim (Option-cases (lookup socket h.joined_trips)) [
    | inl e ↦ let joined = server.in_room-join s t socket trip_id h.rooms in ground arith
    | inr (previous, e) ↦
        let stays = server.in_room-join s t socket trip_id h.rooms in
        let left = server.in_room-leave s t socket previous h.rooms in
        let joined =
          server.in_room-join s t socket trip_id (server.leave socket previous h.rooms) in
        ground arith
  ]

  -- Where a socket is after it moves: the room that it joins, and no other.
  moved :
      (socket trip_id : ℕ) (h : Hub server) (s t : ℕ)
      → Consistent h
      → server.in_room s t (move_to server env crypto socket trip_id h) ≡ true
      → (((socket == s) ≡ true) × ((t == trip_id) ≡ true))
        ⊎ (((socket == s) ≡ false) × (server.in_room s t h.rooms ≡ true))
  moved socket trip_id h s t c m = elim (Bool-cases (socket == s)) [
    | inl own ↦
        let m' =
          subst (λ n. server.in_room n t (move_to server env crypto socket trip_id h) ≡ true)
            (sym ((==_iff _ _).0 own)) m in
        inl (own, moved_own socket trip_id h t c m')
    | inr other ↦ inr (other, moved_other socket trip_id h s t other m)
  ]

  -- What a `join` event does: nothing but an error, or the socket of a member of the trip moves.
  pub handle_join-effect :
      (socket trip_id : ℕ) (h : Hub server) (w : World)
      → let (h', w') = state_of server (handle_join server env crypto socket trip_id h w) in
        (w' ≡ w)
        × ((h' ≡ h)
            ⊎ ((user : User) × (lookup socket h.connected_users ≡ some user)
                × (is_member env trip_id user.id w ≡ true)
                × (h' ≡ record h {
                  rooms = move_to server env crypto socket trip_id h;
                  joined_trips = insert socket trip_id h.joined_trips;
                })))
  unfolding handle_join
  handle_join-effect socket trip_id h w = elim (Option-cases (lookup socket h.connected_users)) [
    | inl e ↦ (ground arith, inl (ground arith))
    | inr (user, e) ↦ elim (assert_member-cases env trip_id user.id w) [
      | inl (passes, member) ↦ (ground arith, inr (user, e, member, ground arith))
      | inr (_, fails, _) ↦ (ground arith, inl (ground arith))
    ]
  ]

  handle_join-Consistent :
      (socket trip_id : ℕ) (h : Hub server) (w : World)
      → Consistent h
      → Consistent (state_of server (handle_join server env crypto socket trip_id h w)).0
  handle_join-Consistent socket trip_id h w c = elim (handle_join-effect socket trip_id h w).1 [
    | inl same ↦ rw same c
    | inr (_, _, _, e) ↦ rw e (
        joins-Consistent socket trip_id h (move_to server env crypto socket trip_id h) c
          (λ s t m. moved socket trip_id h s t c m))
  ]

  pub handle_message-rooms :
      (socket : ℕ) (body : Text) (h : Hub server) (w : World)
      → let h' = (state_of server (handle_message server env crypto socket body h w)).0 in
        (h'.rooms ≡ h.rooms) × (h'.joined_trips ≡ h.joined_trips)
  unfolding handle_message persist_message
  handle_message-rooms socket body h w = ground arith

  pub handle_connection-rooms :
      (socket : ℕ) (handshake : Handshake) (h : Hub server) (w : World)
      → let h' = (state_of server (handle_connection server env crypto socket handshake h w)).0 in
        (h'.joined_trips ≡ h.joined_trips)
        × ((h'.rooms ≡ h.rooms) ⊎ (h'.rooms ≡ server.leave_all socket h.rooms))
  unfolding handle_connection
  handle_connection-rooms socket handshake h w = ground arith

  handle-Consistent :
      (e : SocketEvent) (h : Hub server) (w : World) → Consistent h → Consistent (handle e h w).0
  unfolding handle
  handle-Consistent (SocketEvent.connects socket handshake) h w c =
      let (same, rooms) = handle_connection-rooms socket handshake h w in
      elim rooms [ inl e ↦ rw (same, e) c | inr e ↦ rw (same, e) (leaves-Consistent socket h c) ]
  handle-Consistent (SocketEvent.joins socket trip_id) h w c =
      handle_join-Consistent socket trip_id h w c
  handle-Consistent (SocketEvent.sends socket body) h w c =
      let (rooms, same) = handle_message-rooms socket body h w in rw (rooms, same) c
  handle-Consistent (SocketEvent.disconnects socket) h w c = leaves-Consistent socket h c
  handle-Consistent (SocketEvent.tables_change w') h w c = c

  -- After any events, with any changes of the tables between them, a socket is in no room but the one that it
  -- joined last, which is the room that the gateway writes its messages to. Where a socket has disconnected
  -- or joined no room, it need not be in any.
  pub handle_all-Consistent :
      (es : List SocketEvent) (h : Hub server) (w : World)
      → Consistent h
      → Consistent (handle_all es h w).0
  handle_all-Consistent [] h w c = c
  handle_all-Consistent (e ∷ es) h w c =
      handle_all-Consistent es (handle e h w).0 (handle e h w).1 (handle-Consistent e h w c)
