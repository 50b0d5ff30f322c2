-- ===== src/Config.antt =====
-- The settings of Guardian/src/config.h, with their defaults, and `validate_config` of
-- Guardian/src/config.cpp. A text is the list of its bytes.
pub mod Valid
pub mod Text
pub mod Read
pub mod Args
pub mod Prompt
use Prim.Native.Char.{code}
use Prim.Native.String.{String}
use Prim.Native.String
use nicechunk_guardian.Base.{
  ℕ, ◌+◌, ◌/◌, ◌%◌, Bool, true, false, ◌&&◌, ◌||◌, not, ◌==◌, ◌!=◌, ltb, leb, if◌then◌else◌, List,
  [], ◌∷◌, Option, none, some,
}
use nicechunk_guardian.Base.Int.{ℤ, pos}
use nicechunk_guardian.Wire.{Bytes, byte_at}

abbrev pub codes : String → Bytes
codes String.[] = []
codes (String.◌∷◌ c s) = code c ∷ codes s

pub record Config : Type 0 where
  pub guardian_id : Bytes
  pub listen_host : Bytes
  pub listen_port : ℕ
  pub public_port : ℕ
  pub public_url : Bytes
  pub path : Bytes
  pub tls : Bool
  pub cert_file : Bytes
  pub key_file : Bytes
  pub guardian_center_chunk_x : ℤ
  pub guardian_center_chunk_z : ℤ
  pub service_radius_chunks : ℕ
  pub player_aoi_chunks : ℕ
  pub player_aoi_radius_chunks : ℕ
  pub chunk_size_blocks : ℕ
  pub position_precision : ℕ
  pub max_connections : ℕ
  pub max_players : ℕ
  pub max_players_per_chunk : ℕ
  pub movement_broadcast_hz : ℕ
  pub client_move_rate_limit_per_sec : ℕ
  pub client_dig_rate_limit_per_sec : ℕ
  pub client_equipment_rate_limit_per_sec : ℕ
  pub client_building_announce_rate_limit_per_sec : ℕ
  pub max_building_records : ℕ
  pub building_manifest_file : Bytes
  pub max_payload_length : ℕ
  pub max_backpressure : ℕ
  pub close_on_backpressure_limit : Bool
  pub echo_self : Bool
  pub enable_text_frame : Bool
  pub enable_ws_compression : Bool
  pub enable_tui : Bool
  pub tui_refresh_hz : ℕ
  pub tui_log_capacity : ℕ
  pub idle_timeout_sec : ℕ
  pub heartbeat_interval_sec : ℕ
  pub hello_timeout_sec : ℕ
  pub stats_interval_sec : ℕ
  pub log_level : Bytes

abbrev pub default_config : Config
default_config = record {
  guardian_id = codes "guardian-001";
  listen_host = codes "0.0.0.0";
  listen_port = 8080;
  public_port = 8080;
  public_url = codes "ws://127.0.0.1:8080/ws";
  path = codes "/ws";
  tls = false;
  cert_file = [];
  key_file = [];
  guardian_center_chunk_x = pos 0;
  guardian_center_chunk_z = pos 0;
  service_radius_chunks = 100;
  player_aoi_chunks = 15;
  player_aoi_radius_chunks = 7;
  chunk_size_blocks = 16;
  position_precision = 64;
  max_connections = 50000;
  max_players = 60000;
  max_players_per_chunk = 1024;
  movement_broadcast_hz = 20;
  client_move_rate_limit_per_sec = 30;
  client_dig_rate_limit_per_sec = 10;
  client_equipment_rate_limit_per_sec = 10;
  client_building_announce_rate_limit_per_sec = 4;
  max_building_records = 16384;
  building_manifest_file = codes "guardian-buildings.bin";
  max_payload_length = 4096;
  max_backpressure = 262144;
  close_on_backpressure_limit = false;
  echo_self = true;
  enable_text_frame = false;
  enable_ws_compression = false;
  enable_tui = true;
  tui_refresh_hz = 2;
  tui_log_capacity = 200;
  idle_timeout_sec = 15;
  heartbeat_interval_sec = 5;
  hello_timeout_sec = 5;
  stats_interval_sec = 10;
  log_level = codes "info";
}

-- One constructor for each text that `validate_config` stores through `error`.
pub data ConfigError : Type 0 where
  path_must_start_with_slash max_players_out_of_range max_building_records_out_of_range
        service_radius_too_large aoi_not_odd aoi_radius_mismatch tls_without_files
        compression_enabled tui_refresh_out_of_range tui_log_capacity_too_small
        heartbeat_out_of_range :
      ConfigError

abbrev pub is_empty : Bytes → Bool
is_empty [] = true
is_empty (x ∷ xs) = false

-- `none` stands for true, and `some e` for false with the error `e`.
unfoldable pub validate_config : Config → Option ConfigError
validate_config cfg =
    if is_empty cfg.path || byte_at cfg.path 0 != b'/'
    then some path_must_start_with_slash
    else if cfg.max_players == 0 || ltb 65535 cfg.max_players
    then some max_players_out_of_range
    else if cfg.max_building_records == 0 || ltb 1_000_000 cfg.max_building_records
    then some max_building_records_out_of_range
    else if ltb 127 cfg.service_radius_chunks
    then some service_radius_too_large
    else if cfg.player_aoi_chunks % 2 == 0 || cfg.player_aoi_chunks == 0
    then some aoi_not_odd
    else if cfg.player_aoi_radius_chunks != cfg.player_aoi_chunks / 2
    then some aoi_radius_mismatch
    else if cfg.tls && (is_empty cfg.cert_file || is_empty cfg.key_file)
    then some tls_without_files
    else if cfg.enable_ws_compression
    then some compression_enabled
    else if cfg.tui_refresh_hz == 0 || ltb 10 cfg.tui_refresh_hz
    then some tui_refresh_out_of_range
    else if ltb cfg.tui_log_capacity 20
    then some tui_log_capacity_too_small
    else if cfg.heartbeat_interval_sec == 0 || leb cfg.idle_timeout_sec cfg.heartbeat_interval_sec
    then some heartbeat_out_of_range
    else none
