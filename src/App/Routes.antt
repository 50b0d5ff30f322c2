-- ===== src/App/Routes.antt =====
-- The routes of Guardian/src/app.cpp: what happens when a socket opens, sends, drains or closes, the sweep over
-- idle sockets, and `GET /buildings`.
use nicechunk_guardian.Base.{
  ℕ, ◌+◌, ◌-◌, ◌*◌, ◌/◌, ◌==◌, ltb, Bool, true, false, not, ◌&&◌, if◌then◌else◌, Option, none, some,
  List, [], ◌∷◌,
}
use nicechunk_guardian.Wire.{Bytes}
use nicechunk_guardian.Protocol.{
  valid_type, error_bad_protocol, error_bad_payload_length, msg_hello, msg_move, msg_dig,
  msg_dig_batch, msg_chat, msg_player_identity, msg_equipment, msg_building_manifest_request,
  msg_building_announce, msg_pong,
}
use nicechunk_guardian.Protocol.Decode.{decode_pong}
use nicechunk_guardian.Protocol.Encode.{encode_player_leave}
use nicechunk_guardian.Guardian.{Guardian, heartbeat_topic, building_manifest_topic, modify}
use nicechunk_guardian.Guardian.Players.{is_active_player, remove_player, release_retired_player}
use nicechunk_guardian.Guardian.Events.{make_leave}
use nicechunk_guardian.Guardian.Publish.{publish_to_aoi, is_alive}
use nicechunk_guardian.Guardian.Reads.{can_leave_room}
use nicechunk_guardian.App.{
  PerSocketData, Call, subscribe, Outcome, close_with_error, published_all,
}
use nicechunk_guardian.App.Hello.{handle_hello}
use nicechunk_guardian.App.Move.{handle_move}
use nicechunk_guardian.App.Dig.{handle_dig, handle_dig_batch}
use nicechunk_guardian.App.Talk.{
  handle_chat, handle_player_identity, handle_equipment, handle_building_manifest_request,
  handle_building_announce,
}

-- `.open`: the socket's data, and the calls.
unfoldable pub on_open : ℕ → Guardian → Guardian × PerSocketData × List Call
on_open now s = (
  record s { metrics = record (s.metrics) { connections = s.metrics.connections + 1 } },
  record { player = none; opened_ms = now },
  subscribe heartbeat_topic ∷ subscribe building_manifest_topic ∷ [],
)

-- The state, the socket's data and the calls after a message.
abbrev pub Received : Type 0
Received = Option (Guardian × PerSocketData × List Call)

-- A handler that leaves the socket's data alone.
abbrev pub keeping : PerSocketData → Option Outcome → Received
keeping user none = none
keeping user (some (s, calls)) = some (s, user, calls)

-- The `switch` over the type of a message.
unfoldable pub dispatch :
    (Bytes → Bytes) → Bool → ℕ → ℕ → Bytes → PerSocketData → Guardian → Received
dispatch sha256 written type now message user s =
    if type == msg_hello
    then handle_hello now message user s
    else if type == msg_move
    then keeping user (handle_move now message user s)
    else if type == msg_dig
    then keeping user (handle_dig now message user s)
    else if type == msg_dig_batch
    then keeping user (handle_dig_batch now message user s)
    else if type == msg_chat
    then keeping user (handle_chat message user s)
    else if type == msg_player_identity
    then keeping user (handle_player_identity now message user s)
    else if type == msg_equipment
    then keeping user (handle_equipment now message user s)
    else if type == msg_building_manifest_request
    then keeping user (handle_building_manifest_request message user s)
    else if type == msg_building_announce
    then keeping user (handle_building_announce sha256 written now message user s)
    else if type == msg_pong
    then some
        (s, user, if decode_pong message then [] else close_with_error error_bad_payload_length)
    else some (s, user, close_with_error error_bad_protocol)

-- The socket's player, if it has one, is not freed.
unfoldable pub can_follow : PerSocketData → Guardian → Bool
can_follow user s = elim user.player [ none ↦ true | some p ↦ is_alive p s ]

-- `player->last_seen_ms = now_ms()` for an active player.
unfoldable pub see_player : ℕ → PerSocketData → Guardian → Guardian
see_player now user s = elim user.player [
  | none ↦ s
  | some p ↦
      if is_active_player p s
      then record s { heap = modify p (λ q. record q { last_seen_ms = now }) s.heap }
      else s
]

-- `.message`; `seen` and `now` are the two readings of the clock, and `binary` says whether the frame is.
unfoldable pub on_message :
    (Bytes → Bytes) → Bool → Bool → ℕ → ℕ → Bytes → PerSocketData → Guardian → Received
unfolding dispatch can_follow see_player
on_message sha256 written false seen now message user s =
    some (s, user, if s.cfg.enable_text_frame then [] else close_with_error error_bad_protocol)
on_message sha256 written true seen now [] user s =
    some (s, user, close_with_error error_bad_payload_length)
on_message sha256 written true seen now (type ∷ rest) user s =
    if not (valid_type type)
    then some (s, user, close_with_error error_bad_protocol)
    else if not (can_follow user s)
    then none
    else dispatch sha256 written type now (type ∷ rest) user (see_player seen user s)

-- `.drain`, with `getBufferedAmount` of the socket.
unfoldable pub on_drain : ℕ → Guardian → Guardian
on_drain buffered s =
    if ltb (s.cfg.max_backpressure / 2) buffered
    then record s {
      metrics = record (s.metrics) {
        backpressure_connections = s.metrics.backpressure_connections + 1;
      };
    }
    else s

-- The part of `.close` for a socket with a player.
unfoldable pub close_player : ℕ → Guardian → Option Outcome
unfolding can_leave_room
close_player p s =
    let q = s.heap p in
    let (told, sent) =
      publish_to_aoi q.current_chunk_x q.current_chunk_z (encode_player_leave (make_leave q 2)) s in
    let gone = record told { heap = modify p (λ q. record q { connected = false }) told.heap } in
    if not (is_active_player p s)
    then some (release_retired_player p s, [])
    else if not (can_leave_room p gone)
    then none
    else some (remove_player p gone, published_all sent)

-- `if (connections > 0) connections -= 1`, which is what subtraction on ℕ does.
abbrev pub count_close : Guardian → Guardian
count_close s = record s {
  metrics = record (s.metrics) { connections = s.metrics.connections - 1 };
}

-- `.close`.
unfoldable pub on_close : PerSocketData → Guardian → Option Outcome
unfolding close_player can_follow
on_close user s = if not (can_follow user s) then none else elim user.player [
  | none ↦ some (count_close s, [])
  | some p ↦ elim (close_player p s) [ none ↦ none | some r ↦ some (count_close r.0, r.1) ]
]

-- Whether `reap_stale_sockets` ends a socket.
unfoldable pub is_stale : ℕ → PerSocketData → Guardian → Bool
is_stale now user s = elim user.player [
  | some p ↦
      is_active_player p s
      && ltb (s.heap p).last_seen_ms now
      && ltb (s.cfg.idle_timeout_sec * 1000) (now - (s.heap p).last_seen_ms)
  | none ↦
      not (user.opened_ms == 0)
      && ltb user.opened_ms now
      && ltb (s.cfg.hello_timeout_sec * 1000) (now - user.opened_ms)
]

-- The sockets that `reap_stale_sockets` ends with code 1001, of those that are registered.
unfoldable pub reap_stale_sockets : ℕ → List (ℕ × PerSocketData) → Guardian → Option (List ℕ)
unfolding is_stale can_follow
reap_stale_sockets now [] s = some []
reap_stale_sockets now ((ws, user) ∷ sockets) s = elim (reap_stale_sockets now sockets s) [
  | none ↦ none
  | some stale ↦
      if not (can_follow user s)
      then none
      else if is_stale now user s
      then some (ws ∷ stale)
      else some stale
]
