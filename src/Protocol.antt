-- ===== src/Protocol.antt =====
-- The message types and error codes of Guardian/src/protocol.h, and `valid_type` of
-- Guardian/src/protocol.cpp.
pub mod Sizes
pub mod Messages
pub mod Events
pub mod Decode
pub mod Encode
pub mod Batches
pub mod Buildings
pub mod RoundTrip
use nicechunk_guardian.Base.{ℕ, Bool, ◌||◌, ◌==◌}

abbrev pub k_protocol_version : ℕ
k_protocol_version = 1

abbrev pub k_server_flag_equipment_sync : ℕ
k_server_flag_equipment_sync = 1

abbrev pub k_server_flag_dig_batch : ℕ
k_server_flag_dig_batch = 2

abbrev pub k_server_flag_building_manifest : ℕ
k_server_flag_building_manifest = 4

abbrev pub msg_hello : ℕ
msg_hello = 0x01

abbrev pub msg_hello_ack : ℕ
msg_hello_ack = 0x02

abbrev pub msg_error : ℕ
msg_error = 0x03

abbrev pub msg_ping : ℕ
msg_ping = 0x04

abbrev pub msg_pong : ℕ
msg_pong = 0x05

abbrev pub msg_move : ℕ
msg_move = 0x10

abbrev pub msg_move_batch : ℕ
msg_move_batch = 0x11

abbrev pub msg_dig : ℕ
msg_dig = 0x20

abbrev pub msg_dig_event : ℕ
msg_dig_event = 0x21

abbrev pub msg_dig_batch : ℕ
msg_dig_batch = 0x22

abbrev pub msg_dig_event_batch : ℕ
msg_dig_event_batch = 0x23

abbrev pub msg_player_join : ℕ
msg_player_join = 0x30

abbrev pub msg_player_leave : ℕ
msg_player_leave = 0x31

abbrev pub msg_chat : ℕ
msg_chat = 0x40

abbrev pub msg_chat_event : ℕ
msg_chat_event = 0x41

abbrev pub msg_equipment : ℕ
msg_equipment = 0x42

abbrev pub msg_equipment_event : ℕ
msg_equipment_event = 0x43

abbrev pub msg_player_identity : ℕ
msg_player_identity = 0x44

abbrev pub msg_player_identity_event : ℕ
msg_player_identity_event = 0x45

abbrev pub msg_building_region_digest : ℕ
msg_building_region_digest = 0x50

abbrev pub msg_building_manifest_request : ℕ
msg_building_manifest_request = 0x51

abbrev pub msg_building_manifest_page : ℕ
msg_building_manifest_page = 0x52

abbrev pub msg_building_announce : ℕ
msg_building_announce = 0x53

abbrev pub error_bad_protocol : ℕ
error_bad_protocol = 1

abbrev pub error_not_hello : ℕ
error_not_hello = 2

abbrev pub error_out_of_range : ℕ
error_out_of_range = 3

abbrev pub error_bad_payload_length : ℕ
error_bad_payload_length = 4

abbrev pub error_rate_limit : ℕ
error_rate_limit = 5

abbrev pub error_bad_player_id : ℕ
error_bad_player_id = 6

abbrev pub error_server_full : ℕ
error_server_full = 7

abbrev pub error_unsupported_chunk_index_mode : ℕ
error_unsupported_chunk_index_mode = 8

abbrev pub error_bad_dig_seq : ℕ
error_bad_dig_seq = 9

abbrev pub error_backpressure_limit : ℕ
error_backpressure_limit = 10

abbrev pub equipment_empty : ℕ
equipment_empty = 0

abbrev pub equipment_pickaxe : ℕ
equipment_pickaxe = 1

abbrev pub equipment_block : ℕ
equipment_block = 2

abbrev pub equipment_forged : ℕ
equipment_forged = 3

unfoldable pub valid_type : ℕ → Bool
valid_type type =
    type == msg_hello
    || type == msg_hello_ack
    || type == msg_error
    || type == msg_ping
    || type == msg_pong
    || type == msg_move
    || type == msg_move_batch
    || type == msg_dig
    || type == msg_dig_event
    || type == msg_dig_batch
    || type == msg_dig_event_batch
    || type == msg_player_join
    || type == msg_player_leave
    || type == msg_chat
    || type == msg_chat_event
    || type == msg_equipment
    || type == msg_equipment_event
    || type == msg_player_identity
    || type == msg_player_identity_event
    || type == msg_building_region_digest
    || type == msg_building_manifest_request
    || type == msg_building_manifest_page
    || type == msg_building_announce
