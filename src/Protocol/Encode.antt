-- ===== src/Protocol/Encode.antt =====
-- The encoders of Guardian/src/protocol.cpp for messages of one item. `concat` joins what the
-- `push_back`, `append` and wr_* calls add to `out`, in order.
use nicechunk_guardian.Base.{ℕ, min, List, [], ◌∷◌, ◌++◌, length, take}
use nicechunk_guardian.Base.Int.{to_u8}
use nicechunk_guardian.Wire.{Bytes, push_u8, wr_u16, wr_u32, wr_u64, wr_i32}
use nicechunk_guardian.Protocol.{
  msg_hello, msg_hello_ack, msg_error, msg_ping, msg_pong, msg_move, msg_dig, msg_dig_event,
  msg_player_join, msg_player_leave, msg_chat_event, msg_equipment_event, msg_player_identity_event,
}
use nicechunk_guardian.Protocol.Sizes.{
  k_max_chat_bytes, k_max_equipment_payload_bytes, k_max_player_identity_name_bytes,
}
use nicechunk_guardian.Protocol.Messages.{Hello, Move, Dig, PlayerIdentity}
use nicechunk_guardian.Protocol.Events.{
  HelloAck, DigEvent, PlayerJoin, PlayerLeave, ChatEvent, EquipmentEvent,
}

abbrev pub concat : List Bytes → Bytes
concat [] = []
concat (b ∷ bs) = b ++ concat bs

unfoldable pub encode_hello : Hello → Bytes
encode_hello msg = concat (
    push_u8 msg_hello
    ∷ push_u8 msg.protocol_version
    ∷ wr_u16 msg.client_flags
    ∷ msg.wallet_pubkey
    ∷ wr_i32 msg.start_chunk_x
    ∷ wr_i32 msg.start_chunk_z
    ∷ wr_u64 msg.client_nonce
    ∷ [])

unfoldable pub encode_hello_ack : HelloAck → Bytes
encode_hello_ack msg = concat (
    push_u8 msg_hello_ack
    ∷ push_u8 msg.protocol_version
    ∷ wr_u16 msg.local_player_id
    ∷ wr_u16 msg.server_flags
    ∷ wr_i32 msg.center_chunk_x
    ∷ wr_i32 msg.center_chunk_z
    ∷ wr_u16 msg.service_radius_chunks
    ∷ push_u8 msg.aoi_radius_chunks
    ∷ push_u8 msg.chunk_index_mode
    ∷ wr_u16 msg.server_tick
    ∷ [])

unfoldable pub encode_error : ℕ → Bytes
encode_error code = concat (push_u8 msg_error ∷ wr_u16 code ∷ [])

unfoldable pub encode_ping : Bytes
encode_ping = push_u8 msg_ping

unfoldable pub encode_pong : Bytes
encode_pong = push_u8 msg_pong

unfoldable pub encode_move : Move → Bytes
encode_move msg = concat (
    push_u8 msg_move
    ∷ push_u8 msg.local_chunk_x
    ∷ push_u8 msg.local_chunk_z
    ∷ wr_u16 msg.pos_x
    ∷ wr_u16 msg.pos_y
    ∷ wr_u16 msg.pos_z
    ∷ push_u8 msg.yaw
    ∷ push_u8 (to_u8 msg.pitch)
    ∷ wr_u16 msg.client_tick
    ∷ [])

unfoldable pub encode_dig : Dig → Bytes
encode_dig msg = concat (
    push_u8 msg_dig
    ∷ wr_u16 msg.seq
    ∷ push_u8 msg.local_chunk_x
    ∷ push_u8 msg.local_chunk_z
    ∷ push_u8 msg.block_x
    ∷ wr_u16 msg.block_y
    ∷ push_u8 msg.block_z
    ∷ push_u8 msg.action
    ∷ push_u8 msg.tool_hint
    ∷ [])

unfoldable pub encode_dig_event : DigEvent → Bytes
encode_dig_event msg = concat (
    push_u8 msg_dig_event
    ∷ wr_u16 msg.local_player_id
    ∷ wr_u16 msg.seq
    ∷ push_u8 msg.local_chunk_x
    ∷ push_u8 msg.local_chunk_z
    ∷ push_u8 msg.block_x
    ∷ wr_u16 msg.block_y
    ∷ push_u8 msg.block_z
    ∷ push_u8 msg.action
    ∷ wr_u16 msg.server_tick
    ∷ [])

unfoldable pub encode_player_join : PlayerJoin → Bytes
encode_player_join msg = concat (
    push_u8 msg_player_join
    ∷ wr_u16 msg.local_player_id
    ∷ wr_u32 msg.owner_hash
    ∷ wr_u64 msg.owner_fingerprint
    ∷ msg.owner_wallet
    ∷ push_u8 msg.local_chunk_x
    ∷ push_u8 msg.local_chunk_z
    ∷ wr_u16 msg.pos_x
    ∷ wr_u16 msg.pos_y
    ∷ wr_u16 msg.pos_z
    ∷ push_u8 msg.yaw
    ∷ push_u8 (to_u8 msg.pitch)
    ∷ [])

unfoldable pub encode_player_leave : PlayerLeave → Bytes
encode_player_leave msg = concat (
    push_u8 msg_player_leave
    ∷ wr_u16 msg.local_player_id
    ∷ push_u8 msg.reason
    ∷ wr_u32 msg.owner_hash
    ∷ wr_u64 msg.owner_fingerprint
    ∷ msg.owner_wallet
    ∷ [])

-- `append(data, n)` adds the first `n` bytes, and `n` is at most the length here.
unfoldable pub encode_chat_event : ChatEvent → Bytes
encode_chat_event msg =
    let message_len = min (length msg.message) k_max_chat_bytes in
    concat (
      push_u8 msg_chat_event
      ∷ wr_u16 msg.local_player_id
      ∷ wr_u16 msg.seq
      ∷ push_u8 message_len
      ∷ take message_len msg.message
      ∷ [])

unfoldable pub encode_equipment_event : EquipmentEvent → Bytes
encode_equipment_event msg =
    let payload_len = min (length msg.payload) k_max_equipment_payload_bytes in
    concat (
      push_u8 msg_equipment_event
      ∷ wr_u16 msg.local_player_id
      ∷ wr_u16 msg.seq
      ∷ push_u8 msg.right_hand_kind
      ∷ push_u8 msg.right_hand_variant
      ∷ push_u8 msg.flags
      ∷ wr_u16 payload_len
      ∷ wr_u32 msg.design_hash
      ∷ take payload_len msg.payload
      ∷ [])

unfoldable pub encode_player_identity : PlayerIdentity → Bytes
encode_player_identity msg =
    let name_len = min (length msg.display_name) k_max_player_identity_name_bytes in
    concat (
      push_u8 msg_player_identity_event
      ∷ wr_u16 msg.local_player_id
      ∷ msg.owner_wallet
      ∷ push_u8 name_len
      ∷ take name_len msg.display_name
      ∷ [])
