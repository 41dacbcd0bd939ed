-- ===== src/Chat/Authors.antt =====
-- The messages that backend/src/chat/chat.gateway.ts stores and sends, and who may connect.
use gig_drive.Shared.{
  ℕ, ◌==◌, ==_iff, true, false, ◌≡◌, refl, ◌⊎◌, inl, inr, Option, some, ◌∷◌, Mem, lookup,
  lookup-insert, arith, Option-cases,
}
use gig_drive.Entities.{Text, User, ChatMessage}
use gig_drive.Errors.{ok, err, unauthorized}
use native.Mathlib.Nat.{ℕ_set}
use gig_drive.Repository.Queries.{find_one-saved}
use gig_drive.Service.{World, Env}
use gig_drive.Users.{find_by_id}
use gig_drive.Auth.{Crypto, JwtPayload, authenticate, validate_payload}
use gig_drive.TripQueries.{is_empty}
use gig_drive.Chat.{message_dto, author_display_name, persist_message, new_message}
use gig_drive.Chat.Members.{assert_member-cases, BelongsTo, is_member-BelongsTo}
use gig_drive.Chat.Gateway.{RoomServer, Handshake, Hub, state_of, handle_connection, handle_message}

message-set : IsSet (Option ChatMessage)
message-set = hlevel ℕ_set

module _ (server : RoomServer) (env : Env) (crypto : Crypto) where
  open env use {messages_repository}

  -- A message that is stored is returned, with the name of its author.
  pub persist_message-stores :
      (trip_id author_id : ℕ) (body : Text) (w : World)
      → let message = new_message env trip_id author_id body w in
        let w' = record w { messages = messages_repository.save message w.messages } in
        persist_message env trip_id author_id body w
        ≡ (ok (message_dto message (author_display_name env message w')), w')
  unfolding persist_message
  persist_message-stores trip_id author_id body w =
      let message = new_message env trip_id author_id body w in
      let found =
        find_one-saved messages_repository message-set (λ m. m.id == message.id) message w.messages
          ((==_iff _ _).1 refl) (λ m n. other m n) in
      ground arith
    where
      other :
          (m : ChatMessage)
          → Mem m w.messages
          → m.id == messages_repository.new_id w.messages ≡ false
      other m n = let fresh = messages_repository.new_id_unused w.messages m n in ground arith

  -- What a `message` event leaves where the user is known and has joined a trip: one more message, which is
  -- sent to the sockets in the room.
  abbrev pub Sent : ℕ → ℕ → Text → Hub server → World → Hub server × World → Type 0
  Sent trip_id author_id body h w after =
      let message = new_message env trip_id author_id body w in
      let w' = record w { messages = messages_repository.save message w.messages } in
      let dto = message_dto message (author_display_name env message w') in
      after ≡ (record h { emitted = (trip_id, dto, h.rooms) ∷ h.emitted }, w')

  -- A `message` event writes nothing and sends nothing, or the user of the socket belongs to the trip that
  -- the socket has joined, as the driver or with a confirmed booking, at the time of the event, and one
  -- message of that user to that trip is stored, and is sent to the room of that trip only.
  pub handle_message-effect :
      (socket : ℕ) (body : Text) (h : Hub server) (w : World)
      → let after = state_of server (handle_message server env crypto socket body h w) in
        (after ≡ (h, w))
        ⊎ ((user : User) × (trip_id : ℕ) × (lookup socket h.connected_users ≡ some user)
            × (lookup socket h.joined_trips ≡ some trip_id)
            × BelongsTo trip_id user.id w
            × Sent trip_id user.id body h w after)
  unfolding handle_message
  handle_message-effect socket body h w = elim (Option-cases (lookup socket h.connected_users)) [
    | inl e ↦ inl (ground arith)
    | inr (user, e) ↦ elim (Option-cases (lookup socket h.joined_trips)) [
      | inl d ↦ inl (ground arith)
      | inr (trip_id, d) ↦ elim (assert_member-cases env trip_id user.id w) [
        | inr (_, fails, _) ↦ inl (ground arith)
        | inl (passes, member) ↦ inr (
          user,
          trip_id,
          e,
          d,
          is_member-BelongsTo env trip_id user.id w member,
          (let stored = persist_message-stores trip_id user.id body w in ground arith),
        )
      ]
    ]
  ]

  -- The token of a disabled account: the HTTP API refuses it, but the chat gateway, if chat is enabled, takes
  -- the socket that brings it for a socket of that account.
  pub handle_connection-disabled :
      (socket at : ℕ) (text : Text) (payload : JwtPayload) (user : User) (h : Hub server)
      (w : World)
      → env.feature_chat ≡ true
      → is_empty text ≡ false
      → crypto.verify w.now text ≡ some payload
      → find_by_id env payload.sub w ≡ some user
      → user.disabled_at ≡ some at
      → let (h', w') =
          state_of server (handle_connection server env crypto socket (Handshake.token text) h w) in
        (authenticate env crypto text w ≡ (err unauthorized, w))
        × (w' ≡ w)
        × (lookup socket h'.connected_users ≡ some user)
  unfolding handle_connection authenticate validate_payload
  handle_connection-disabled socket at text payload user h w on full valid hit off = (
    ground arith,
    ground arith,
    (let known = lookup-insert socket socket user h.connected_users in ground arith),
  )
