-- ===== src/Protocol/Decode.antt =====
-- The decoders of Guardian/src/protocol.cpp for messages of one item. A decoder that returns false gives
-- `none`; one that returns true gives what it stored through `out`.
use nicechunk_guardian.Base.{
  ℕ, ◌+◌, Bool, Option, none, some, ◌&&◌, ◌||◌, ◌==◌, ◌!=◌, ltb, if◌then◌else◌, length, take, drop,
}
use nicechunk_guardian.Base.Int.{to_i8}
use nicechunk_guardian.Wire.{Bytes, byte_at, rd_u16, rd_u32, rd_u64, rd_i32}
use nicechunk_guardian.Protocol.{
  k_protocol_version, msg_hello, msg_move, msg_dig, msg_pong, msg_chat, msg_equipment,
  msg_player_identity, msg_building_manifest_request,
}
use nicechunk_guardian.Protocol.Sizes.{
  k_hello_size, k_move_size, k_dig_size, k_chat_header_size, k_max_chat_bytes,
  k_equipment_header_size, k_max_equipment_payload_bytes, k_player_identity_header_size,
  k_max_player_identity_name_bytes, k_building_manifest_request_size,
}
use nicechunk_guardian.Protocol.Messages.{
  Hello, Move, Dig, Chat, Equipment, BuildingManifestRequest,
}

abbrev pub hello_fields : Bytes → Hello
hello_fields p = record {
  protocol_version = byte_at p 1;
  client_flags = rd_u16 (drop 2 p);
  wallet_pubkey = take 32 (drop 4 p);
  start_chunk_x = rd_i32 (drop 36 p);
  start_chunk_z = rd_i32 (drop 40 p);
  client_nonce = rd_u64 (drop 44 p);
}

unfoldable pub decode_hello : Bytes → Option Hello
decode_hello bytes =
    if length bytes != k_hello_size || byte_at bytes 0 != msg_hello
    then none
    else if byte_at bytes 1 == k_protocol_version
    then some (hello_fields bytes)
    else none

abbrev pub move_fields : Bytes → Move
move_fields p = record {
  local_chunk_x = byte_at p 1;
  local_chunk_z = byte_at p 2;
  pos_x = rd_u16 (drop 3 p);
  pos_y = rd_u16 (drop 5 p);
  pos_z = rd_u16 (drop 7 p);
  yaw = byte_at p 9;
  pitch = to_i8 (byte_at p 10);
  client_tick = rd_u16 (drop 11 p);
}

unfoldable pub decode_move : Bytes → Option Move
decode_move bytes =
    if length bytes != k_move_size || byte_at bytes 0 != msg_move
    then none
    else some (move_fields bytes)

abbrev pub dig_fields : Bytes → Dig
dig_fields p = record {
  seq = rd_u16 (drop 1 p);
  local_chunk_x = byte_at p 3;
  local_chunk_z = byte_at p 4;
  block_x = byte_at p 5;
  block_y = rd_u16 (drop 6 p);
  block_z = byte_at p 8;
  action = byte_at p 9;
  tool_hint = byte_at p 10;
}

unfoldable pub decode_dig : Bytes → Option Dig
decode_dig bytes =
    if length bytes != k_dig_size || byte_at bytes 0 != msg_dig
    then none
    else some (dig_fields bytes)

unfoldable pub decode_pong : Bytes → Bool
decode_pong bytes = length bytes == 1 && byte_at bytes 0 == msg_pong

unfoldable pub decode_chat : Bytes → Option Chat
decode_chat bytes =
    let message_len = byte_at bytes 3 in
    if ltb (length bytes) k_chat_header_size || byte_at bytes 0 != msg_chat
    then none
    else if message_len == 0
        || ltb k_max_chat_bytes message_len
        || length bytes != k_chat_header_size + message_len
    then none
    else some (record {
      seq = rd_u16 (drop 1 bytes);
      message = take message_len (drop k_chat_header_size bytes);
    })

abbrev pub equipment_fields : ℕ → Bytes → Equipment
equipment_fields payload_len p = record {
  seq = rd_u16 (drop 1 p);
  right_hand_kind = byte_at p 3;
  right_hand_variant = byte_at p 4;
  flags = byte_at p 5;
  design_hash = rd_u32 (drop 8 p);
  payload = take payload_len (drop k_equipment_header_size p);
}

unfoldable pub decode_equipment : Bytes → Option Equipment
decode_equipment bytes =
    let payload_len = rd_u16 (drop 6 bytes) in
    if ltb (length bytes) k_equipment_header_size || byte_at bytes 0 != msg_equipment
    then none
    else if ltb k_max_equipment_payload_bytes payload_len
        || length bytes != k_equipment_header_size + payload_len
    then none
    else some (equipment_fields payload_len bytes)

-- Of `out` it stores the display name alone, which is what is returned here.
unfoldable pub decode_player_identity : Bytes → Option Bytes
decode_player_identity bytes =
    let name_len = byte_at bytes 1 in
    if ltb (length bytes) k_player_identity_header_size || byte_at bytes 0 != msg_player_identity
    then none
    else if ltb k_max_player_identity_name_bytes name_len
        || length bytes != k_player_identity_header_size + name_len
    then none
    else some (take name_len (drop k_player_identity_header_size bytes))

unfoldable pub decode_building_manifest_request : Bytes → Option BuildingManifestRequest
decode_building_manifest_request bytes =
    if length bytes != k_building_manifest_request_size
      || byte_at bytes 0 != msg_building_manifest_request
    then none
    else some (record { known_revision = rd_u64 (drop 1 bytes) })
