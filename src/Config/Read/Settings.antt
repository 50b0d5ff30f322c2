-- ===== src/Config/Read/Settings.antt =====
-- What a line of the file sets in the Config of Guardian/src/config.h, by the name of the setting.
use nicechunk_guardian.Base.{ℕ, ◌%◌, ◌^◌, Bool, Option, none, some}
use nicechunk_guardian.Base.Int.{ℤ}
use nicechunk_guardian.Wire.{Bytes}
use nicechunk_guardian.Config.{Config, codes}
use nicechunk_guardian.Config.Text.{parse_bool, stoul, stoi}

pub data Setting : Type 0 where
  guardian_id listen_host listen_port public_port public_url path tls cert_file key_file
        guardian_center_chunk_x guardian_center_chunk_z service_radius_chunks player_aoi_chunks
        player_aoi_radius_chunks chunk_size_blocks position_precision max_connections max_players
        max_players_per_chunk movement_broadcast_hz client_move_rate_limit_per_sec
        client_dig_rate_limit_per_sec client_equipment_rate_limit_per_sec
        client_building_announce_rate_limit_per_sec max_building_records building_manifest_file
        max_payload_length max_backpressure close_on_backpressure_limit echo_self enable_text_frame
        enable_ws_compression enable_tui tui_refresh_hz tui_log_capacity idle_timeout_sec
        heartbeat_interval_sec hello_timeout_sec stats_interval_sec log_level :
      Setting

abbrev pub key_of : Setting → Bytes
key_of guardian_id = codes "guardian_id"
key_of listen_host = codes "listen_host"
key_of listen_port = codes "listen_port"
key_of public_port = codes "public_port"
key_of public_url = codes "public_url"
key_of path = codes "path"
key_of tls = codes "tls"
key_of cert_file = codes "cert_file"
key_of key_file = codes "key_file"
key_of guardian_center_chunk_x = codes "guardian_center_chunk_x"
key_of guardian_center_chunk_z = codes "guardian_center_chunk_z"
key_of service_radius_chunks = codes "service_radius_chunks"
key_of player_aoi_chunks = codes "player_aoi_chunks"
key_of player_aoi_radius_chunks = codes "player_aoi_radius_chunks"
key_of chunk_size_blocks = codes "chunk_size_blocks"
key_of position_precision = codes "position_precision"
key_of max_connections = codes "max_connections"
key_of max_players = codes "max_players"
key_of max_players_per_chunk = codes "max_players_per_chunk"
key_of movement_broadcast_hz = codes "movement_broadcast_hz"
key_of client_move_rate_limit_per_sec = codes "client_move_rate_limit_per_sec"
key_of client_dig_rate_limit_per_sec = codes "client_dig_rate_limit_per_sec"
key_of client_equipment_rate_limit_per_sec = codes "client_equipment_rate_limit_per_sec"
key_of client_building_announce_rate_limit_per_sec =
    codes "client_building_announce_rate_limit_per_sec"
key_of max_building_records = codes "max_building_records"
key_of building_manifest_file = codes "building_manifest_file"
key_of max_payload_length = codes "max_payload_length"
key_of max_backpressure = codes "max_backpressure"
key_of close_on_backpressure_limit = codes "close_on_backpressure_limit"
key_of echo_self = codes "echo_self"
key_of enable_text_frame = codes "enable_text_frame"
key_of enable_ws_compression = codes "enable_ws_compression"
key_of enable_tui = codes "enable_tui"
key_of tui_refresh_hz = codes "tui_refresh_hz"
key_of tui_log_capacity = codes "tui_log_capacity"
key_of idle_timeout_sec = codes "idle_timeout_sec"
key_of heartbeat_interval_sec = codes "heartbeat_interval_sec"
key_of hello_timeout_sec = codes "hello_timeout_sec"
key_of stats_interval_sec = codes "stats_interval_sec"
key_of log_level = codes "log_level"

-- What a setting holds: a text, a truth value, a chunk coordinate, or a number of some bits.
pub data Kind : Type 0 where
  text : (Bytes → Config) → Kind
  flag : (Bool → Config) → Kind
  chunk : (ℤ → Config) → Kind
  number : ℕ → (ℕ → Config) → Kind

-- The field of a setting.
abbrev pub kind_of : Setting → Config → Kind
kind_of guardian_id cfg = text (λ value. record cfg { guardian_id = value })
kind_of listen_host cfg = text (λ value. record cfg { listen_host = value })
kind_of listen_port cfg = number 16 (λ value. record cfg { listen_port = value })
kind_of public_port cfg = number 16 (λ value. record cfg { public_port = value })
kind_of public_url cfg = text (λ value. record cfg { public_url = value })
kind_of path cfg = text (λ value. record cfg { path = value })
kind_of tls cfg = flag (λ value. record cfg { tls = value })
kind_of cert_file cfg = text (λ value. record cfg { cert_file = value })
kind_of key_file cfg = text (λ value. record cfg { key_file = value })
kind_of guardian_center_chunk_x cfg =
    chunk (λ value. record cfg { guardian_center_chunk_x = value })
kind_of guardian_center_chunk_z cfg =
    chunk (λ value. record cfg { guardian_center_chunk_z = value })
kind_of service_radius_chunks cfg =
    number 16 (λ value. record cfg { service_radius_chunks = value })
kind_of player_aoi_chunks cfg = number 16 (λ value. record cfg { player_aoi_chunks = value })
kind_of player_aoi_radius_chunks cfg =
    number 8 (λ value. record cfg { player_aoi_radius_chunks = value })
kind_of chunk_size_blocks cfg = number 16 (λ value. record cfg { chunk_size_blocks = value })
kind_of position_precision cfg = number 16 (λ value. record cfg { position_precision = value })
kind_of max_connections cfg = number 32 (λ value. record cfg { max_connections = value })
kind_of max_players cfg = number 32 (λ value. record cfg { max_players = value })
kind_of max_players_per_chunk cfg =
    number 32 (λ value. record cfg { max_players_per_chunk = value })
kind_of movement_broadcast_hz cfg =
    number 16 (λ value. record cfg { movement_broadcast_hz = value })
kind_of client_move_rate_limit_per_sec cfg =
    number 16 (λ value. record cfg { client_move_rate_limit_per_sec = value })
kind_of client_dig_rate_limit_per_sec cfg =
    number 16 (λ value. record cfg { client_dig_rate_limit_per_sec = value })
kind_of client_equipment_rate_limit_per_sec cfg =
    number 16 (λ value. record cfg { client_equipment_rate_limit_per_sec = value })
kind_of client_building_announce_rate_limit_per_sec cfg =
    number 16 (λ value. record cfg { client_building_announce_rate_limit_per_sec = value })
kind_of max_building_records cfg = number 32 (λ value. record cfg { max_building_records = value })
kind_of building_manifest_file cfg = text (λ value. record cfg { building_manifest_file = value })
kind_of max_payload_length cfg = number 32 (λ value. record cfg { max_payload_length = value })
kind_of max_backpressure cfg = number 32 (λ value. record cfg { max_backpressure = value })
kind_of close_on_backpressure_limit cfg =
    flag (λ value. record cfg { close_on_backpressure_limit = value })
kind_of echo_self cfg = flag (λ value. record cfg { echo_self = value })
kind_of enable_text_frame cfg = flag (λ value. record cfg { enable_text_frame = value })
kind_of enable_ws_compression cfg = flag (λ value. record cfg { enable_ws_compression = value })
kind_of enable_tui cfg = flag (λ value. record cfg { enable_tui = value })
kind_of tui_refresh_hz cfg = number 16 (λ value. record cfg { tui_refresh_hz = value })
kind_of tui_log_capacity cfg = number 16 (λ value. record cfg { tui_log_capacity = value })
kind_of idle_timeout_sec cfg = number 16 (λ value. record cfg { idle_timeout_sec = value })
kind_of heartbeat_interval_sec cfg =
    number 16 (λ value. record cfg { heartbeat_interval_sec = value })
kind_of hello_timeout_sec cfg = number 16 (λ value. record cfg { hello_timeout_sec = value })
kind_of stats_interval_sec cfg = number 16 (λ value. record cfg { stats_interval_sec = value })
kind_of log_level cfg = text (λ value. record cfg { log_level = value })

-- What a value means: the text itself, whether it is "true", "1", "yes" or "on", or the number at its start, cut to
-- the bits of the field; none is an exception.
abbrev pub written : Kind → Bytes → Option Config
written (text set) value = some (set value)
written (flag set) value = some (set (parse_bool value))
written (chunk set) value = elim (stoi value) [ none ↦ none | some n ↦ some (set n) ]
written (number bits set) value = elim (stoul value) [
  | none ↦ none
  | some n ↦ some (set (n % 2 ^ bits))
]
