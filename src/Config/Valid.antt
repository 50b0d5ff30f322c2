-- ===== src/Config/Valid.antt =====
-- What a configuration that passes `validate_config` of Guardian/src/config.cpp gives to the rest.
use nicechunk_guardian.Base.{◌+◌, ◌*◌, ◌≤◌, ◌<◌, ◌≡◌, refl, ◌≢◌, ◌⊎◌, ◌↔◌, false, none, arith, []}
use nicechunk_guardian.Wire.{byte_at}
use nicechunk_guardian.Config.{Config, default_config, validate_config}

-- The limits that the other parts rely on, each as its own fact.
pub record IsValidConfig (cfg : Config) : Type 0 where
  pub path : (cfg.path ≢ []) × (byte_at cfg.path 0 ≡ b'/')
  pub players : (1 ≤ cfg.max_players) × (cfg.max_players ≤ 65535)
  pub records : (1 ≤ cfg.max_building_records) × (cfg.max_building_records ≤ 1_000_000)
  pub radius : cfg.service_radius_chunks ≤ 127
  pub aoi : cfg.player_aoi_chunks ≡ 2 * cfg.player_aoi_radius_chunks + 1
  pub tls : (cfg.tls ≡ false) ⊎ ((cfg.cert_file ≢ []) × (cfg.key_file ≢ []))
  pub compression : cfg.enable_ws_compression ≡ false
  pub refresh : (1 ≤ cfg.tui_refresh_hz) × (cfg.tui_refresh_hz ≤ 10)
  pub log : 20 ≤ cfg.tui_log_capacity
  pub heartbeat :
      (1 ≤ cfg.heartbeat_interval_sec) × (cfg.heartbeat_interval_sec < cfg.idle_timeout_sec)

validate_config_sound : (cfg : Config) → validate_config cfg ≡ none → IsValidConfig cfg
unfolding validate_config
validate_config_sound cfg h = ground arith

validate_config_complete : (cfg : Config) → IsValidConfig cfg → validate_config cfg ≡ none
unfolding validate_config
validate_config_complete cfg v = ground arith

-- `validate_config` accepts a configuration exactly when it is within all of the limits of
-- IsValidConfig.
pub validate_config_iff : (cfg : Config) → (validate_config cfg ≡ none) ↔ IsValidConfig cfg
validate_config_iff cfg = (validate_config_sound cfg, validate_config_complete cfg)

default_config-IsValidConfig : IsValidConfig default_config
unfolding validate_config
default_config-IsValidConfig = validate_config_sound default_config refl
