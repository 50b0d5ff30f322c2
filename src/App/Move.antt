-- ===== src/App/Move.antt =====
-- `handle_move` of Guardian/src/app.cpp.
use nicechunk_guardian.Base.{
  ℕ, ◌+◌, Bool, true, false, not, ◌||◌, if◌then◌else◌, Option, none, some, List, [], ◌∷◌, ◌++◌,
}
use nicechunk_guardian.Base.Int.{ℤ, eqb_ℤ}
use nicechunk_guardian.Wire.{Bytes}
use nicechunk_guardian.Chunk.{local_to_global}
use nicechunk_guardian.RateLimit.{rate_limit_allow}
use nicechunk_guardian.Protocol.{error_bad_payload_length, error_rate_limit, error_out_of_range}
use nicechunk_guardian.Protocol.Messages.{Move}
use nicechunk_guardian.Protocol.Decode.{decode_move}
use nicechunk_guardian.Protocol.Encode.{
  encode_player_join, encode_player_leave, encode_equipment_event,
}
use nicechunk_guardian.Guardian.{Guardian, modify}
use nicechunk_guardian.Guardian.Rooms.{move_player_chunk}
use nicechunk_guardian.Guardian.Reads.{can_move}
use nicechunk_guardian.Guardian.Events.{
  make_join, make_leave, make_equipment_event, update_player_move,
}
use nicechunk_guardian.Guardian.Publish.{publish_to_aoi}
use nicechunk_guardian.App.{
  PerSocketData, Call, subscribe, unsubscribe, Outcome, send_error, close_with_error, published,
  with_player, topic_of_room, count_bytes_in,
}

-- A message about the player `p` to the chunks around a chunk, if there is one to send.
unfoldable pub publish_if : Bool → ℤ → ℤ → Bytes → Guardian → Outcome
publish_if condition x z payload s =
    let (s', sent) = publish_to_aoi x z payload s in
    if condition then (s', published sent) else (s, [])

-- `if (player->current_chunk_room) ws->unsubscribe(player->current_chunk_room->topic);`
unfoldable pub unsubscribe_room : ℕ → Guardian → Option (List Call)
unsubscribe_room p s = elim (s.heap p).current_chunk_room [
  | none ↦ some []
  | some key ↦ elim (topic_of_room p s) [ none ↦ none | some topic ↦ some (unsubscribe topic ∷ []) ]
]

-- How the block under `if (changed_chunk)` ends: the handler goes on, or it has closed the socket.
pub record Transfer : Type 0 where
  pub state : Guardian
  pub calls : List Call
  pub goes_on : Bool

unfoldable pub transfer : ℕ → ℤ → ℤ → Guardian → Option Transfer
unfolding publish_if unsubscribe_room can_move
transfer p x z s =
    let q = s.heap p in
    let (told, leaving) =
      publish_if q.has_pose q.current_chunk_x q.current_chunk_z
        (encode_player_leave (make_leave q 1)) s in
    let (moved, done) = move_player_chunk p x z told in
    elim (unsubscribe_room p told) [
      | none ↦ none
      | some unsubscribed ↦
          if not (can_move p x z told)
          then none
          else if not done
          then some (record {
            state = moved;
            calls = leaving ++ (unsubscribed ++ close_with_error error_out_of_range);
            goes_on = false;
          })
          else elim (topic_of_room p moved) [
            | none ↦ none
            | some topic ↦ some (record {
              state = moved;
              calls = leaving ++ (unsubscribed ++ (subscribe topic ∷ []));
              goes_on = true;
            })
          ]
    ]

-- What the others are told of a player in a new chunk, or with its first pose.
unfoldable pub announce : ℕ → ℤ → ℤ → Guardian → Outcome
unfolding publish_if
announce p x z s =
    let q = s.heap p in
    let (joined, join_calls) = publish_if true x z (encode_player_join (make_join q)) s in
    let (equipped, equipment_calls) =
      publish_if q.has_equipment x z (encode_equipment_event (make_equipment_event q)) joined in
    (equipped, join_calls ++ equipment_calls)

-- `metrics().move_in += 1` and the bytes.
abbrev pub count_move_in : Bytes → Guardian → Guardian
count_move_in message s =
    count_bytes_in message
      (record s { metrics = record (s.metrics) { move_in = s.metrics.move_in + 1 } })

-- The handler from the block under `if (changed_chunk)` on.
unfoldable pub move_to : ℕ → Move → ℕ → ℤ → ℤ → Bytes → Guardian → Option Outcome
unfolding transfer announce
move_to p move now x z message s =
    let q = s.heap p in
    let changed_chunk = not (eqb_ℤ x q.current_chunk_x) || not (eqb_ℤ z q.current_chunk_z) in
    let first_pose = not q.has_pose in
    let transferred =
      if changed_chunk
      then transfer p x z s
      else some (record { state = s; calls = []; goes_on = true }) in
    elim transferred [
      | none ↦ none
      | some t ↦
          let updated = update_player_move p move now t.state in
          let (told, calls) = announce p x z updated in
          if not t.goes_on
          then some (t.state, t.calls)
          else if changed_chunk || first_pose
          then some (count_move_in message told, t.calls ++ calls)
          else some (count_move_in message updated, t.calls)
    ]

-- `rate_limit_allow` on the player's move window.
unfoldable pub limit_move : ℕ → ℕ → Guardian → Guardian × Bool
limit_move now p s =
    let (window, allowed) =
      rate_limit_allow now (s.heap p).move_window s.cfg.client_move_rate_limit_per_sec in
    (record s { heap = modify p (λ q. record q { move_window = window }) s.heap }, allowed)

unfoldable pub handle_move : ℕ → Bytes → PerSocketData → Guardian → Option Outcome
unfolding move_to limit_move
handle_move now message user s = with_player user s (λ p. elim (decode_move message) [
  | none ↦ some (s, close_with_error error_bad_payload_length)
  | some move ↦
      let (limited, allowed) = limit_move now p s in
      let (inside, x, z) = local_to_global s.cfg move.local_chunk_x move.local_chunk_z in
      if not allowed
      then some (limited, send_error error_rate_limit)
      else if not inside
      then some (limited, close_with_error error_out_of_range)
      else move_to p move now x z message limited
])
