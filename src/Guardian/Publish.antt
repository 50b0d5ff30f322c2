-- ===== src/Guardian/Publish.antt =====
-- How Guardian/src/guardian.cpp sends: to the chunks around a chunk, and the moves of a tick. What
-- `publish` is given is a list. A sum of an int32_t and an offset is exact, as in C++ where it does not
-- overflow.
use nicechunk_guardian.Base.{
  ℕ, zero, suc, ◌+◌, ◌%◌, ◌^◌, ◌==◌, Bool, false, ◌&&◌, ◌||◌, if◌then◌else◌, Option, none, some,
  List, [], ◌∷◌, ◌++◌, length, drop, min,
}
use nicechunk_guardian.Base.Int.{ℤ, ◌+ℤ◌}
use nicechunk_guardian.Base.Table.{lookup, insert}
use nicechunk_guardian.Wire.{Bytes}
use nicechunk_guardian.Aoi.{AoiOffset, build_aoi_offsets}
use nicechunk_guardian.Chunk.{contains_chunk, local_chunk_index}
use nicechunk_guardian.Protocol.Events.{MoveItem}
use nicechunk_guardian.Protocol.Batches.{encode_move_batch}
use nicechunk_guardian.Guardian.{Player, Guardian, Topic, chunk_topic, modify}

-- aoi_offsets_, which the constructor fills.
abbrev pub aoi_offsets : Guardian → List AoiOffset
aoi_offsets s = build_aoi_offsets s.cfg.player_aoi_radius_chunks

unfoldable pub topic_for_chunk : ℤ → ℤ → Guardian → Topic
topic_for_chunk chunk_x chunk_z s = chunk_topic (local_chunk_index s.cfg chunk_x chunk_z)

-- A message that is sent, and its counters.
abbrev pub count_message : Bytes → Guardian → Guardian
count_message payload s = record s {
  metrics = record (s.metrics) {
    messages_out = s.metrics.messages_out + 1;
    bytes_out = s.metrics.bytes_out + length payload;
  };
}

unfoldable pub publish_loop :
    ℤ → ℤ → Bytes → List AoiOffset → Guardian → Guardian × List (Topic × Bytes)
unfolding topic_for_chunk
publish_loop center_x center_z payload [] s = (s, [])
publish_loop center_x center_z payload (offset ∷ offsets) s =
    let x = center_x +ℤ offset.dx in
    let z = center_z +ℤ offset.dz in
    let inside = contains_chunk s.cfg x z in
    let (s', sent) =
      publish_loop center_x center_z payload offsets
        (if inside then count_message payload s else s) in
    (s', if inside then (topic_for_chunk x z s, payload) ∷ sent else sent)

unfoldable pub publish_to_aoi : ℤ → ℤ → Bytes → Guardian → Guardian × List (Topic × Bytes)
unfolding publish_loop
publish_to_aoi center_x center_z payload s =
    publish_loop center_x center_z payload (aoi_offsets s) s

-- `batches[index].push_back(item)`.
unfoldable pub push_batch : {A : Type 0} → ℕ → A → List (ℕ × List A) → List (ℕ × List A)
push_batch index item batches = elim (lookup index batches) [
  | none ↦ insert index (item ∷ []) batches
  | some items ↦ insert index (items ++ (item ∷ [])) batches
]

-- The inner loop of `flush_pending_moves`: the chunks that see a player.
unfoldable pub spread :
    Guardian → Player → List AoiOffset → List (ℕ × List MoveItem) → List (ℕ × List MoveItem)
unfolding push_batch
spread s q [] batches = batches
spread s q (offset ∷ offsets) batches =
    let x = q.current_chunk_x +ℤ offset.dx in
    let z = q.current_chunk_z +ℤ offset.dz in
    spread s q offsets (
      if contains_chunk s.cfg x z
      then push_batch (local_chunk_index s.cfg x z) q.pending_move batches
      else batches)

-- A player is alive while players_ or retired_players_ owns it.
unfoldable pub has_player : ℕ → List (ℕ × ℕ) → Bool
has_player p [] = false
has_player p ((id, q) ∷ players) = q == p || has_player p players

unfoldable pub has_retired : ℕ → List ℕ → Bool
has_retired p [] = false
has_retired p (q ∷ retired) = q == p || has_retired p retired

unfoldable pub is_alive : ℕ → Guardian → Bool
unfolding has_player has_retired
is_alive p s = has_player p s.players || has_retired p s.retired_players

-- The first loop of `flush_pending_moves`; none is the read of a player that is not alive.
unfoldable pub collect_moves :
    List ℕ → List (ℕ × List MoveItem) → Guardian → Option (Guardian × List (ℕ × List MoveItem))
unfolding spread is_alive
collect_moves [] batches s = some (s, batches)
collect_moves (p ∷ ps) batches s =
    let q = s.heap p in
    let sends = q.connected && q.has_pending_move in
    let sent = record s {
      heap =
          modify p (λ q. record q { has_pending_move = false; queued_pending_move = false }) s.heap;
    } in
    let rest =
      collect_moves ps (if sends then spread s q (aoi_offsets s) batches else batches)
        (if sends then sent else s) in
    if is_alive p s then rest else none

-- The `while` over one batch. Every round takes an item, so as many rounds as items are enough.
unfoldable pub send_batch : ℕ → ℕ → List MoveItem → Guardian → Guardian × List (Topic × Bytes)
send_batch zero index items s = (s, [])
send_batch (suc fuel) index [] s = (s, [])
send_batch (suc fuel) index (item ∷ items) s =
    let count = min 255 (length (item ∷ items)) in
    let payload = encode_move_batch s.server_tick (item ∷ items) count in
    let counted = count_message payload s in
    let sent = record counted {
      metrics = record (counted.metrics) {
        move_batches = counted.metrics.move_batches + 1;
        move_items = counted.metrics.move_items + count;
      };
    } in
    let (s', out) = send_batch fuel index (drop count (item ∷ items)) sent in
    (s', (chunk_topic index, payload) ∷ out)

unfoldable pub send_batches : List (ℕ × List MoveItem) → Guardian → Guardian × List (Topic × Bytes)
unfolding send_batch
send_batches [] s = (s, [])
send_batches ((index, items) ∷ batches) s =
    let (s', out) = send_batch (length items) index items s in
    let (s'', more) = send_batches batches s' in (s'', out ++ more)

unfoldable pub flush_pending_moves : Guardian → Option (Guardian × List (Topic × Bytes))
unfolding collect_moves send_batches
flush_pending_moves s =
    let ticked = record s { server_tick = (s.server_tick + 1) % 2 ^ 16 } in
    elim (collect_moves s.pending_move_players [] ticked) [
      | none ↦ none
      | some (s', batches) ↦ some (send_batches batches (record s' { pending_move_players = [] }))
    ]
