-- ===== src/Tests/Wire.antt =====
-- Concrete messages of Guardian/src/protocol.cpp, a burst for Guardian/src/player.cpp and the default
-- values of Guardian/src/config.h.
use nicechunk_guardian.Base.{
  ◌+◌, ◌-◌, ◌*◌, ◌≤◌, ◌≡◌, refl, ◌↔◌, [], ◌∷◌, ◌++◌, some, none, length, take, min, arith,
}
use nicechunk_guardian.Base.Int.{pos, negsuc}
use nicechunk_guardian.Wire.{Bytes, byte_at}
use nicechunk_guardian.Protocol.Sizes.{
  k_move_batch_header_size, k_move_item_size, k_dig_event_batch_header_size,
  k_dig_event_batch_item_size,
}
use nicechunk_guardian.Protocol.Messages.{
  Hello, Move, Dig, Equipment, BuildingRecord, IsMove, IsDig, IsHello, IsEquipment,
  IsBuildingRecord,
}
use nicechunk_guardian.Protocol.Events.{MoveItem, DigEvent}
use nicechunk_guardian.Protocol.Decode.{decode_hello, decode_move, decode_dig}
use nicechunk_guardian.Protocol.Encode.{encode_hello, encode_move, encode_dig}
use nicechunk_guardian.Protocol.Batches.{
  encode_dig_batch, decode_dig_batch, encode_move_batch, encode_dig_event_batch, clamp_count,
}
use nicechunk_guardian.Protocol.Buildings.{
  decode_building_record, append_building_record, decode_building_announce,
  encode_building_announce,
}
use nicechunk_guardian.Protocol.RoundTrip.{
  decode_move-encode_move, decode_dig-encode_dig, decode_hello-encode_hello,
}
use nicechunk_guardian.Protocol.Batches.RoundTrip.{decode_dig_batch-encode_dig_batch, batch_sizes}
use nicechunk_guardian.Protocol.Buildings.RoundTrip.{
  decode_building_record-append_building_record, decode_building_announce-encode_building_announce,
}
use nicechunk_guardian.Config.{default_config, validate_config}
use nicechunk_guardian.Config.Valid.{IsValidConfig, validate_config_iff}
use nicechunk_guardian.RateLimit.{RateWindow}
use nicechunk_guardian.RateLimit.Window.{allowed, allowed_same_window, allowed-le-twice}

-- Bytes 1 to 16, and a wallet of twice these.
abbrev pub sixteen : Bytes
sixteen = 1 ∷ 2 ∷ 3 ∷ 4 ∷ 5 ∷ 6 ∷ 7 ∷ 8 ∷ 9 ∷ 10 ∷ 11 ∷ 12 ∷ 13 ∷ 14 ∷ 15 ∷ 16 ∷ []

abbrev pub some_wallet : Bytes
some_wallet = sixteen ++ sixteen

abbrev pub some_hello : Hello
some_hello = record {
  protocol_version = 1;
  client_flags = 513;
  wallet_pubkey = some_wallet;
  start_chunk_x = negsuc 4;
  start_chunk_z = pos 6;
  client_nonce = 72623859790382856;
}

abbrev pub some_move : Move
some_move = record {
  local_chunk_x = 3;
  local_chunk_z = 4;
  pos_x = 513;
  pos_y = 65535;
  pos_z = 7;
  yaw = 200;
  pitch = negsuc 30;
  client_tick = 999;
}

abbrev some_dig : Dig
some_dig = record {
  seq = 258;
  local_chunk_x = 1;
  local_chunk_z = 2;
  block_x = 3;
  block_y = 300;
  block_z = 5;
  action = 1;
  tool_hint = 9;
}

abbrev some_equipment : Equipment
some_equipment = record {
  seq = 77;
  right_hand_kind = 1;
  right_hand_variant = 2;
  flags = 1;
  design_hash = 4026531840;
  payload = 1 ∷ 2 ∷ 255 ∷ [];
}

abbrev pub some_building : BuildingRecord
some_building = record {
  foundation_id = 72057594037927937;
  min_x = negsuc 9;
  min_z = pos 20;
  surface_y = pos 64;
  flags = 1;
  width = 5;
  depth = 4;
  active_revision = 2;
  content_hash = sixteen;
  updated_slot = 4294967297;
}

some_move-IsMove : IsMove some_move
some_move-IsMove = ground arith

some_dig-IsDig : IsDig some_dig
some_dig-IsDig = ground arith

some_hello-IsHello : IsHello some_hello
some_hello-IsHello = ground arith

some_equipment-IsEquipment : IsEquipment some_equipment
some_equipment-IsEquipment = ground arith

pub some_building-IsBuildingRecord : IsBuildingRecord some_building
some_building-IsBuildingRecord = ground arith

decode_move-encode_move_example : decode_move (encode_move some_move) ≡ some some_move
decode_move-encode_move_example = decode_move-encode_move some_move some_move-IsMove

decode_dig-encode_dig_example : decode_dig (encode_dig some_dig) ≡ some some_dig
decode_dig-encode_dig_example = decode_dig-encode_dig some_dig some_dig-IsDig

decode_hello-encode_hello_example : decode_hello (encode_hello some_hello) ≡ some some_hello
decode_hello-encode_hello_example = decode_hello-encode_hello some_hello some_hello-IsHello refl

decode_dig_batch-encode_dig_batch_example :
    decode_dig_batch (encode_dig_batch (some_dig ∷ some_dig ∷ []) 2)
    ≡ some (take (clamp_count 2) (some_dig ∷ some_dig ∷ []))
decode_dig_batch-encode_dig_batch_example =
    decode_dig_batch-encode_dig_batch (some_dig ∷ some_dig ∷ []) 2
      (some_dig-IsDig, (some_dig-IsDig, tt)) (omega arith) (omega arith)

abbrev pub some_item : MoveItem
some_item = record {
  local_player_id = 12;
  local_chunk_x = 3;
  local_chunk_z = 4;
  pos_x = 513;
  pos_y = 65535;
  pos_z = 7;
  yaw = 200;
  pitch = negsuc 30;
}

abbrev some_dig_event : DigEvent
some_dig_event = record {
  local_player_id = 12;
  seq = 258;
  local_chunk_x = 1;
  local_chunk_z = 2;
  block_x = 3;
  block_y = 300;
  block_z = 5;
  action = 1;
  server_tick = 40;
}

batch_sizes_example :
    (length (encode_move_batch 40 (some_item ∷ some_item ∷ []) 2)
      ≡ k_move_batch_header_size + clamp_count 2 * k_move_item_size)
    × (byte_at (encode_move_batch 40 (some_item ∷ some_item ∷ []) 2) 3 ≡ min 2 255)
    × (length (encode_dig_event_batch 12 40 (some_dig_event ∷ some_dig_event ∷ []) 2)
        ≡ k_dig_event_batch_header_size + clamp_count 2 * k_dig_event_batch_item_size)
    × (byte_at (encode_dig_event_batch 12 40 (some_dig_event ∷ some_dig_event ∷ []) 2) 5
        ≡ min 2 255)
batch_sizes_example =
    batch_sizes 12 40 2 (some_item ∷ some_item ∷ []) (some_dig_event ∷ some_dig_event ∷ [])
      (omega arith) (omega arith)

decode_building_record-append_building_record_example :
    decode_building_record (append_building_record some_building) ≡ some some_building
decode_building_record-append_building_record_example =
    decode_building_record-append_building_record some_building some_building-IsBuildingRecord

decode_building_announce-encode_building_announce_example :
    decode_building_announce (encode_building_announce some_building) ≡ some some_building
decode_building_announce-encode_building_announce_example =
    decode_building_announce-encode_building_announce some_building some_building-IsBuildingRecord

validate_config_iff_example : (validate_config default_config ≡ none) ↔ IsValidConfig default_config
validate_config_iff_example = validate_config_iff default_config

abbrev quiet : RateWindow
quiet = record { window_ms = 5000; count = 1 }

allowed_same_window_example : allowed quiet 3 (5100 ∷ 5200 ∷ 5999 ∷ []) ≡ min (3 - 1) 3
allowed_same_window_example =
    allowed_same_window quiet 3 (5100 ∷ 5200 ∷ 5999 ∷ []) (omega arith) (omega arith) (ground arith)

allowed-le-twice_example : allowed quiet 2 (5900 ∷ 6000 ∷ 6100 ∷ 6200 ∷ []) ≤ 2 * 2
allowed-le-twice_example =
    allowed-le-twice quiet 5900 6900 2 (5900 ∷ 6000 ∷ 6100 ∷ 6200 ∷ []) (omega arith) (omega arith)
      (omega arith) (omega arith) (ground arith)
