-- ===== src/Config/Read.antt =====
-- How Guardian/src/config.cpp fills a Config from a file and from the command line.
pub mod Lines
pub mod Settings
use nicechunk_guardian.Base.{
  ℕ, ◌+◌, ◌/◌, ◌%◌, ◌^◌, ◌==◌, Bool, true, false, not, ◌&&◌, ◌||◌, if◌then◌else◌, Option, none,
  some, List, [], ◌∷◌,
}
use nicechunk_guardian.Base.Int.{ℤ}
use nicechunk_guardian.Wire.{Bytes}
use nicechunk_guardian.Config.{Config, codes, is_empty}
use nicechunk_guardian.Config.Text.{is_text, trim, parse_bool, stoul, stoi}

-- `(uint16_t)std::stoul(value)` and its kin, into a field.
abbrev pub number_of : ℕ → Bytes → (ℕ → Config) → Option Config
number_of bits value set = elim (stoul value) [ none ↦ none | some n ↦ some (set (n % 2 ^ bits)) ]

abbrev pub chunk_of : Bytes → (ℤ → Config) → Option Config
chunk_of value set = elim (stoi value) [ none ↦ none | some n ↦ some (set n) ]

-- The settings of `apply_pair` from close_on_backpressure_limit on. An unknown key changes nothing.
unfoldable pub apply_last_pair : Config → Bytes → Bytes → Option Config
unfolding stoul stoi parse_bool is_text
apply_last_pair cfg key value =
    if is_text key (codes "close_on_backpressure_limit")
    then some (record cfg { close_on_backpressure_limit = parse_bool value })
    else if is_text key (codes "echo_self")
    then some (record cfg { echo_self = parse_bool value })
    else if is_text key (codes "enable_text_frame")
    then some (record cfg { enable_text_frame = parse_bool value })
    else if is_text key (codes "enable_ws_compression")
    then some (record cfg { enable_ws_compression = parse_bool value })
    else if is_text key (codes "enable_tui")
    then some (record cfg { enable_tui = parse_bool value })
    else if is_text key (codes "tui_refresh_hz")
    then number_of 16 value (λ n. record cfg { tui_refresh_hz = n })
    else if is_text key (codes "tui_log_capacity")
    then number_of 16 value (λ n. record cfg { tui_log_capacity = n })
    else if is_text key (codes "idle_timeout_sec")
    then number_of 16 value (λ n. record cfg { idle_timeout_sec = n })
    else if is_text key (codes "heartbeat_interval_sec")
    then number_of 16 value (λ n. record cfg { heartbeat_interval_sec = n })
    else if is_text key (codes "hello_timeout_sec")
    then number_of 16 value (λ n. record cfg { hello_timeout_sec = n })
    else if is_text key (codes "stats_interval_sec")
    then number_of 16 value (λ n. record cfg { stats_interval_sec = n })
    else if is_text key (codes "log_level")
    then some (record cfg { log_level = value })
    else some cfg

-- The settings of `apply_pair` from chunk_size_blocks on.
unfoldable pub apply_later_pair : Config → Bytes → Bytes → Option Config
unfolding stoul stoi parse_bool is_text apply_last_pair
apply_later_pair cfg key value =
    if is_text key (codes "chunk_size_blocks")
    then number_of 16 value (λ n. record cfg { chunk_size_blocks = n })
    else if is_text key (codes "position_precision")
    then number_of 16 value (λ n. record cfg { position_precision = n })
    else if is_text key (codes "max_connections")
    then number_of 32 value (λ n. record cfg { max_connections = n })
    else if is_text key (codes "max_players")
    then number_of 32 value (λ n. record cfg { max_players = n })
    else if is_text key (codes "max_players_per_chunk")
    then number_of 32 value (λ n. record cfg { max_players_per_chunk = n })
    else if is_text key (codes "movement_broadcast_hz")
    then number_of 16 value (λ n. record cfg { movement_broadcast_hz = n })
    else if is_text key (codes "client_move_rate_limit_per_sec")
    then number_of 16 value (λ n. record cfg { client_move_rate_limit_per_sec = n })
    else if is_text key (codes "client_dig_rate_limit_per_sec")
    then number_of 16 value (λ n. record cfg { client_dig_rate_limit_per_sec = n })
    else if is_text key (codes "client_equipment_rate_limit_per_sec")
    then number_of 16 value (λ n. record cfg { client_equipment_rate_limit_per_sec = n })
    else if is_text key (codes "client_building_announce_rate_limit_per_sec")
    then number_of 16 value (λ n. record cfg { client_building_announce_rate_limit_per_sec = n })
    else if is_text key (codes "max_building_records")
    then number_of 32 value (λ n. record cfg { max_building_records = n })
    else if is_text key (codes "building_manifest_file")
    then some (record cfg { building_manifest_file = value })
    else if is_text key (codes "max_payload_length")
    then number_of 32 value (λ n. record cfg { max_payload_length = n })
    else if is_text key (codes "max_backpressure")
    then number_of 32 value (λ n. record cfg { max_backpressure = n })
    else apply_last_pair cfg key value

-- The function; none is an exception.
unfoldable pub apply_pair : Config → Bytes → Bytes → Option Config
unfolding stoul stoi parse_bool is_text apply_later_pair
apply_pair cfg key value =
    if is_text key (codes "guardian_id")
    then some (record cfg { guardian_id = value })
    else if is_text key (codes "listen_host")
    then some (record cfg { listen_host = value })
    else if is_text key (codes "listen_port")
    then number_of 16 value (λ n. record cfg { listen_port = n })
    else if is_text key (codes "public_port")
    then number_of 16 value (λ n. record cfg { public_port = n })
    else if is_text key (codes "public_url")
    then some (record cfg { public_url = value })
    else if is_text key (codes "path")
    then some (record cfg { path = value })
    else if is_text key (codes "tls")
    then some (record cfg { tls = parse_bool value })
    else if is_text key (codes "cert_file")
    then some (record cfg { cert_file = value })
    else if is_text key (codes "key_file")
    then some (record cfg { key_file = value })
    else if is_text key (codes "guardian_center_chunk_x")
    then chunk_of value (λ n. record cfg { guardian_center_chunk_x = n })
    else if is_text key (codes "guardian_center_chunk_z")
    then chunk_of value (λ n. record cfg { guardian_center_chunk_z = n })
    else if is_text key (codes "service_radius_chunks")
    then number_of 16 value (λ n. record cfg { service_radius_chunks = n })
    else if is_text key (codes "player_aoi_chunks")
    then number_of 16 value (λ n. record cfg { player_aoi_chunks = n })
    else if is_text key (codes "player_aoi_radius_chunks")
    then number_of 8 value (λ n. record cfg { player_aoi_radius_chunks = n })
    else apply_later_pair cfg key value

-- `line.find(mark)`: what is before the first mark and what is behind it.
unfoldable pub split_at : ℕ → Bytes → Option (Bytes × Bytes)
split_at mark [] = none
split_at mark (c ∷ text) =
    let rest = split_at mark text in
    if c == mark
    then some ([], text)
    else elim rest [ none ↦ none | some (before, behind) ↦ some (c ∷ before, behind) ]

-- The line up to the first `#`.
unfoldable pub without_comment : Bytes → Bytes
unfolding split_at
without_comment line = elim (split_at b'#' line) [ none ↦ line | some (before, behind) ↦ before ]

-- The body of the loop of `load_config_file`.
unfoldable pub read_line : Config → Bytes → Option Config
unfolding without_comment split_at apply_pair trim
read_line cfg line = elim (split_at b'=' (without_comment line)) [
  | none ↦ some cfg
  | some (key, value) ↦
      if not (is_empty (trim key)) && not (is_empty (trim value))
      then apply_pair cfg (trim key) (trim value)
      else some cfg
]

unfoldable pub read_lines : Config → List Bytes → Option Config
unfolding read_line
read_lines cfg [] = some cfg
read_lines cfg (line ∷ lines) = elim (read_line cfg line) [
  | none ↦ none
  | some next ↦ read_lines next lines
]

abbrev pub put_first : ℕ → List Bytes → List Bytes
put_first c [] = (c ∷ []) ∷ []
put_first c (line ∷ lines) = (c ∷ line) ∷ lines

-- What `std::getline` gives until the end of the file.
unfoldable pub lines_of : Bytes → List Bytes
lines_of [] = []
lines_of (c ∷ text) = let rest = lines_of text in if c == 10 then [] ∷ rest else put_first c rest

-- The answer, and the settings; `file` is none where it cannot be opened.
unfoldable pub load_config_file : Config → Option Bytes → Option (Bool × Config)
unfolding lines_of read_lines
load_config_file cfg none = some (false, cfg)
load_config_file cfg (some text) = elim (read_lines cfg (lines_of text)) [
  | none ↦ none
  | some next ↦ some (true, next)
]
