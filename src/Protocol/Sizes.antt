-- ===== src/Protocol/Sizes.antt =====
-- The sizes and limits of Guardian/src/protocol.h, in bytes.
use nicechunk_guardian.Base.{ℕ, ◌+◌}

abbrev pub k_hello_size : ℕ
k_hello_size = 52

abbrev pub k_hello_ack_size : ℕ
k_hello_ack_size = 20

abbrev pub k_move_size : ℕ
k_move_size = 13

abbrev pub k_move_batch_header_size : ℕ
k_move_batch_header_size = 4

abbrev pub k_move_item_size : ℕ
k_move_item_size = 12

abbrev pub k_dig_size : ℕ
k_dig_size = 11

abbrev pub k_dig_event_size : ℕ
k_dig_event_size = 14

abbrev pub k_dig_batch_header_size : ℕ
k_dig_batch_header_size = 2

abbrev pub k_dig_batch_item_size : ℕ
k_dig_batch_item_size = 10

abbrev pub k_dig_event_batch_header_size : ℕ
k_dig_event_batch_header_size = 6

abbrev pub k_dig_event_batch_item_size : ℕ
k_dig_event_batch_item_size = 9

abbrev pub k_legacy_player_join_size : ℕ
k_legacy_player_join_size = 13

abbrev pub k_player_join_v1_size : ℕ
k_player_join_v1_size = 17

abbrev pub k_player_join_v2_size : ℕ
k_player_join_v2_size = 25

abbrev pub k_player_join_size : ℕ
k_player_join_size = 57

abbrev pub k_legacy_player_leave_size : ℕ
k_legacy_player_leave_size = 4

abbrev pub k_player_leave_v1_size : ℕ
k_player_leave_v1_size = 8

abbrev pub k_player_leave_v2_size : ℕ
k_player_leave_v2_size = 16

abbrev pub k_player_leave_size : ℕ
k_player_leave_size = 48

abbrev pub k_chat_header_size : ℕ
k_chat_header_size = 4

abbrev pub k_chat_event_header_size : ℕ
k_chat_event_header_size = 6

abbrev pub k_max_chat_bytes : ℕ
k_max_chat_bytes = 120

abbrev pub k_equipment_header_size : ℕ
k_equipment_header_size = 12

abbrev pub k_equipment_event_header_size : ℕ
k_equipment_event_header_size = 14

abbrev pub k_max_equipment_payload_bytes : ℕ
k_max_equipment_payload_bytes = 2048

abbrev pub k_player_identity_header_size : ℕ
k_player_identity_header_size = 2

abbrev pub k_player_identity_event_header_size : ℕ
k_player_identity_event_header_size = 36

abbrev pub k_max_player_identity_name_bytes : ℕ
k_max_player_identity_name_bytes = 64

abbrev pub k_legacy_building_record_size : ℕ
k_legacy_building_record_size = 48

abbrev pub k_building_record_size : ℕ
k_building_record_size = 56

abbrev pub k_building_region_digest_size : ℕ
k_building_region_digest_size = 38

abbrev pub k_building_manifest_request_size : ℕ
k_building_manifest_request_size = 9

abbrev pub k_building_manifest_page_header_size : ℕ
k_building_manifest_page_header_size = 44

abbrev pub k_building_announce_size : ℕ
k_building_announce_size = 1 + k_building_record_size

abbrev pub k_legacy_building_announce_size : ℕ
k_legacy_building_announce_size = 1 + k_legacy_building_record_size

abbrev pub k_building_manifest_page_records : ℕ
k_building_manifest_page_records = 128
