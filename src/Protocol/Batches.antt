-- ===== src/Protocol/Batches.antt =====
-- The messages of many items: MOVE_BATCH, DIG_BATCH and DIG_EVENT_BATCH of Guardian/src/protocol.cpp.
-- `items` is the vector from the pointer that is passed on, and the loops read its first `count`.
pub mod RoundTrip
use nicechunk_guardian.Base.{
  ℕ, zero, suc, ◌+◌, ◌*◌, Option, none, some, ◌||◌, ◌==◌, ◌!=◌, ltb, if◌then◌else◌, List, [], ◌∷◌,
  ◌++◌, length, take, drop,
}
use nicechunk_guardian.Base.Int.{to_u8}
use nicechunk_guardian.Wire.{Bytes, byte_at, push_u8, rd_u16, wr_u16}
use nicechunk_guardian.Protocol.{msg_move_batch, msg_dig_batch, msg_dig_event_batch}
use nicechunk_guardian.Protocol.Sizes.{k_dig_batch_header_size, k_dig_batch_item_size}
use nicechunk_guardian.Protocol.Messages.{Dig}
use nicechunk_guardian.Protocol.Events.{MoveItem, DigEvent}
use nicechunk_guardian.Protocol.Encode.{concat}

-- `if (count > 255) count = 255;`
unfoldable pub clamp_count : ℕ → ℕ
clamp_count count = if ltb 255 count then 255 else count

unfoldable pub encode_move_item : MoveItem → Bytes
encode_move_item item = concat (
    wr_u16 item.local_player_id
    ∷ push_u8 item.local_chunk_x
    ∷ push_u8 item.local_chunk_z
    ∷ wr_u16 item.pos_x
    ∷ wr_u16 item.pos_y
    ∷ wr_u16 item.pos_z
    ∷ push_u8 item.yaw
    ∷ push_u8 (to_u8 item.pitch)
    ∷ [])

unfoldable pub encode_move_items : List MoveItem → Bytes
unfolding encode_move_item
encode_move_items [] = []
encode_move_items (item ∷ items) = encode_move_item item ++ encode_move_items items

unfoldable pub encode_move_batch : ℕ → List MoveItem → ℕ → Bytes
unfolding encode_move_items clamp_count
encode_move_batch server_tick items count =
    let n = clamp_count count in
    concat (
      push_u8 msg_move_batch
      ∷ wr_u16 server_tick
      ∷ push_u8 n
      ∷ encode_move_items (take n items)
      ∷ [])

unfoldable pub encode_dig_item : Dig → Bytes
encode_dig_item item = concat (
    wr_u16 item.seq
    ∷ push_u8 item.local_chunk_x
    ∷ push_u8 item.local_chunk_z
    ∷ push_u8 item.block_x
    ∷ wr_u16 item.block_y
    ∷ push_u8 item.block_z
    ∷ push_u8 item.action
    ∷ push_u8 item.tool_hint
    ∷ [])

unfoldable pub encode_dig_items : List Dig → Bytes
unfolding encode_dig_item
encode_dig_items [] = []
encode_dig_items (item ∷ items) = encode_dig_item item ++ encode_dig_items items

unfoldable pub encode_dig_batch : List Dig → ℕ → Bytes
unfolding encode_dig_items clamp_count
encode_dig_batch items count =
    let n = clamp_count count in
    concat (push_u8 msg_dig_batch ∷ push_u8 n ∷ encode_dig_items (take n items) ∷ [])

unfoldable pub encode_dig_event_item : DigEvent → Bytes
encode_dig_event_item item = concat (
    wr_u16 item.seq
    ∷ push_u8 item.local_chunk_x
    ∷ push_u8 item.local_chunk_z
    ∷ push_u8 item.block_x
    ∷ wr_u16 item.block_y
    ∷ push_u8 item.block_z
    ∷ push_u8 item.action
    ∷ [])

unfoldable pub encode_dig_event_items : List DigEvent → Bytes
unfolding encode_dig_event_item
encode_dig_event_items [] = []
encode_dig_event_items (item ∷ items) = encode_dig_event_item item ++ encode_dig_event_items items

unfoldable pub encode_dig_event_batch : ℕ → ℕ → List DigEvent → ℕ → Bytes
unfolding encode_dig_event_items clamp_count
encode_dig_event_batch local_player_id server_tick items count =
    let n = clamp_count count in
    concat (
      push_u8 msg_dig_event_batch
      ∷ wr_u16 local_player_id
      ∷ wr_u16 server_tick
      ∷ push_u8 n
      ∷ encode_dig_event_items (take n items)
      ∷ [])

abbrev pub dig_item_fields : Bytes → Dig
dig_item_fields p = record {
  seq = rd_u16 p;
  local_chunk_x = byte_at p 2;
  local_chunk_z = byte_at p 3;
  block_x = byte_at p 4;
  block_y = rd_u16 (drop 5 p);
  block_z = byte_at p 7;
  action = byte_at p 8;
  tool_hint = byte_at p 9;
}

-- `n` rounds of the loop, with `p + offset` for the pointer.
unfoldable pub decode_dig_items : ℕ → Bytes → List Dig
decode_dig_items zero p = []
decode_dig_items (suc n) p = dig_item_fields p ∷ decode_dig_items n (drop k_dig_batch_item_size p)

unfoldable pub decode_dig_batch : Bytes → Option (List Dig)
unfolding decode_dig_items
decode_dig_batch bytes =
    let count = byte_at bytes 1 in
    if ltb (length bytes) k_dig_batch_header_size || byte_at bytes 0 != msg_dig_batch
    then none
    else if count == 0 || length bytes != k_dig_batch_header_size + count * k_dig_batch_item_size
    then none
    else some (decode_dig_items count (drop k_dig_batch_header_size bytes))
