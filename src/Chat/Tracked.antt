-- ===== src/Chat/Tracked.antt =====
-- backend/src/chat/chat.gateway.ts: in which room a socket is, from its connection until it disconnects.
use gig_drive.Shared.{
  ℕ, ◌==◌, ==_iff, ◌≡◌, sym, ap, ◌∙◌, inl, inr, some, List, [], ◌∷◌, lookup, insert, lookup-insert,
  arith, All, Option, Bool, none, false, refl, Option-cases, Bool-cases, subst,
}
use gig_drive.Service.{World, Env}
use gig_drive.Auth.{Crypto}
use gig_drive.Chat.Gateway.{RoomServer, Hub, move_to}
use gig_drive.Chat.Rooms.{
  SocketEvent, handle, handle_all, handle_join-effect, handle_message-rooms,
  handle_connection-rooms,
}

-- Whether the room of a trip is the one that is kept for a socket.
abbrev pub joined_to : ℕ → Option ℕ → Bool
joined_to t none = false
joined_to t (some trip_id) = trip_id == t

module _ (server : RoomServer) (env : Env) (crypto : Crypto) where
  -- A socket is in the room that the gateway keeps for it, and in no other.
  abbrev pub Tracked : ℕ → Hub server → Type 0
  Tracked s h = (t : ℕ) → server.in_room s t h.rooms ≡ joined_to t (lookup s h.joined_trips)

  -- An event at which a socket starts or ends: its connection, and the end of it.
  abbrev pub starts_or_ends : ℕ → SocketEvent → Bool
  starts_or_ends s (SocketEvent.connects socket handshake) = socket == s
  starts_or_ends s (SocketEvent.joins socket trip_id) = false
  starts_or_ends s (SocketEvent.sends socket body) = false
  starts_or_ends s (SocketEvent.disconnects socket) = socket == s
  starts_or_ends s (SocketEvent.tables_change w) = false

  leaves-Tracked :
      (s socket : ℕ) (h : Hub server)
      → (socket == s) ≡ false
      → Tracked s h
      → Tracked s record h { rooms = server.leave_all socket h.rooms }
  leaves-Tracked s socket h other k t =
      let left = server.in_room-leave_all s t socket h.rooms in let here = k t in ground arith

  joins_own-Tracked :
      (s trip_id : ℕ) (h : Hub server)
      → Tracked s h
      → (t : ℕ) → server.in_room s t (move_to server env crypto s trip_id h) ≡ (trip_id == t)
  joins_own-Tracked s trip_id h k t = elim (Option-cases (lookup s h.joined_trips)) [
    | inl e ↦
        let joined = server.in_room-join s t s trip_id h.rooms in
        let here : server.in_room s t h.rooms ≡ false = k t ∙ ap (joined_to t) e in ground arith
    | inr (previous, e) ↦
        let stays = server.in_room-join s t s trip_id h.rooms in
        let left = server.in_room-leave s t s previous h.rooms in
        let joined = server.in_room-join s t s trip_id (server.leave s previous h.rooms) in
        let here : server.in_room s t h.rooms ≡ (previous == t) = k t ∙ ap (joined_to t) e in
        ground arith
  ]

  joins_other-Tracked :
      (s socket trip_id : ℕ) (h : Hub server) (t : ℕ)
      → (socket == s) ≡ false
      → server.in_room s t (move_to server env crypto socket trip_id h) ≡ server.in_room s t h.rooms
  joins_other-Tracked s socket trip_id h t other =
      elim (Option-cases (lookup socket h.joined_trips)) [
        | inl e ↦ let joined = server.in_room-join s t socket trip_id h.rooms in ground arith
        | inr (previous, e) ↦
            let stays = server.in_room-join s t socket trip_id h.rooms in
            let left = server.in_room-leave s t socket previous h.rooms in
            let joined =
              server.in_room-join s t socket trip_id (server.leave socket previous h.rooms) in
            ground arith
      ]

  moves-Tracked :
      (s socket trip_id : ℕ) (h : Hub server)
      → Tracked s h
      → Tracked s record h {
        rooms = move_to server env crypto socket trip_id h;
        joined_trips = insert socket trip_id h.joined_trips;
      }
  moves-Tracked s socket trip_id h k t = elim (Bool-cases (socket == s)) [
    | inl own ↦
        let same : s ≡ socket = sym ((==_iff _ _).0 own) in
        let at : lookup s (insert socket trip_id h.joined_trips) ≡ some trip_id =
          lookup-insert socket s trip_id h.joined_trips ∙ rw own refl in
        subst (λ n. server.in_room s t (move_to server env crypto n trip_id h) ≡ (trip_id == t))
          same (joins_own-Tracked s trip_id h k t)
        ∙ sym (ap (joined_to t) at)
    | inr other ↦
        let at : lookup s (insert socket trip_id h.joined_trips) ≡ lookup s h.joined_trips =
          lookup-insert socket s trip_id h.joined_trips ∙ rw other refl in
        joins_other-Tracked s socket trip_id h t other ∙ k t ∙ sym (ap (joined_to t) at)
  ]

  handle-Tracked :
      (s : ℕ) (e : SocketEvent) (h : Hub server) (w : World)
      → starts_or_ends s e ≡ false
      → Tracked s h
      → Tracked s (handle server env crypto e h w).0
  unfolding handle
  handle-Tracked s (SocketEvent.connects socket handshake) h w other k =
      let (same, rooms) = handle_connection-rooms server env crypto socket handshake h w in
      elim rooms [
        | inl e ↦ rw (same, e) k
        | inr e ↦ rw (same, e) (leaves-Tracked s socket h other k)
      ]
  handle-Tracked s (SocketEvent.joins socket trip_id) h w other k =
      elim (handle_join-effect server env crypto socket trip_id h w).1 [
        | inl same ↦ rw same k
        | inr (_, _, _, e) ↦ rw e (moves-Tracked s socket trip_id h k)
      ]
  handle-Tracked s (SocketEvent.sends socket body) h w other k =
      let (rooms, same) = handle_message-rooms server env crypto socket body h w in
      rw (rooms, same) k
  handle-Tracked s (SocketEvent.disconnects socket) h w other k = leaves-Tracked s socket h other k
  handle-Tracked s (SocketEvent.tables_change w') h w other k = k

  -- A socket that is in the room of the trip that the gateway keeps for it and in no other, or in none where
  -- the gateway keeps none, as it is when it has connected, stays so through any events of it and of other
  -- sockets, with any changes of the tables between them, until it disconnects or connects again: it is in
  -- the room of the trip that it joined last, and in no other.
  pub handle_all-Tracked :
      (s : ℕ) (es : List SocketEvent) (h : Hub server) (w : World)
      → All (λ e. starts_or_ends s e ≡ false) es
      → Tracked s h
      → Tracked s (handle_all server env crypto es h w).0
  handle_all-Tracked s [] h w stays k = k
  handle_all-Tracked s (e ∷ es) h w stays k =
      handle_all-Tracked s es (handle server env crypto e h w).0 (handle server env crypto e h w).1
        stays.1 (handle-Tracked s e h w stays.0 k)
