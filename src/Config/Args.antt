-- ===== src/Config/Args.antt =====
-- The command line of Guardian/src/config.cpp.
use nicechunk_guardian.Base.{
  ℕ, ◌/◌, ◌%◌, ◌^◌, true, false, if◌then◌else◌, Option, none, some, List, [], ◌∷◌,
}
use nicechunk_guardian.Wire.{Bytes}
use nicechunk_guardian.Config.{Config, codes}
use nicechunk_guardian.Config.Text.{is_text}
use nicechunk_guardian.Config.Read.{number_of, chunk_of, load_config_file}

-- How `apply_cli_args` ends: it returns true with the settings, or false, an exception leaves it, or it ends the
-- process with a code.
pub data Applied : Type 0 where
  accepts : Config → Applied
  refuses throws : Applied
  exits : ℕ → Applied

-- What an argument asks for: a write of the next argument, none where that throws, a write, the guide, or
-- nothing that is known.
pub data Argument : Type 0 where
  takes_value : (Bytes → Option Config) → Argument
  flag : Config → Argument
  help unknown : Argument

abbrev pub load_named : (Bytes → Option Bytes) → Config → Bytes → Option Config
load_named files cfg name = elim (load_config_file cfg (files name)) [
  | none ↦ none
  | some (found, next) ↦ some next
]

-- The tests of the loop; `files` gives the content of a file that can be opened.
unfoldable pub argument_of : (Bytes → Option Bytes) → Config → Bytes → Argument
unfolding is_text load_config_file
argument_of files cfg arg =
    if is_text arg (codes "--config")
    then takes_value (load_named files cfg)
    else if is_text arg (codes "--host")
    then takes_value (λ value. some (record cfg { listen_host = value }))
    else if is_text arg (codes "--port")
    then takes_value
        (λ value. number_of 16 value (λ n. record cfg { listen_port = n; public_port = n }))
    else if is_text arg (codes "--public-url")
    then takes_value (λ value. some (record cfg { public_url = value }))
    else if is_text arg (codes "--center-x")
    then takes_value (λ value. chunk_of value (λ n. record cfg { guardian_center_chunk_x = n }))
    else if is_text arg (codes "--center-z")
    then takes_value (λ value. chunk_of value (λ n. record cfg { guardian_center_chunk_z = n }))
    else if is_text arg (codes "--service-radius")
    then takes_value (λ value. number_of 16 value (λ n. record cfg { service_radius_chunks = n }))
    else if is_text arg (codes "--aoi")
    then takes_value (λ value.
      number_of 16 value
        (λ n. record cfg { player_aoi_chunks = n; player_aoi_radius_chunks = n / 2 % 2 ^ 8 }))
    else if is_text arg (codes "--tls")
    then flag (record cfg { tls = true })
    else if is_text arg (codes "--no-tls")
    then flag (record cfg { tls = false })
    else if is_text arg (codes "--tui")
    then flag (record cfg { enable_tui = true })
    else if is_text arg (codes "--no-tui")
    then flag (record cfg { enable_tui = false })
    else if is_text arg (codes "--idle-timeout")
    then takes_value (λ value. number_of 16 value (λ n. record cfg { idle_timeout_sec = n }))
    else if is_text arg (codes "--heartbeat")
    then takes_value (λ value. number_of 16 value (λ n. record cfg { heartbeat_interval_sec = n }))
    else if is_text arg (codes "--cert")
    then takes_value (λ value. some (record cfg { cert_file = value }))
    else if is_text arg (codes "--key")
    then takes_value (λ value. some (record cfg { key_file = value }))
    else if is_text arg (codes "--help")
    then help
    else unknown

-- The loop, over the arguments behind `argv[0]`.
unfoldable pub apply_cli_args : (Bytes → Option Bytes) → Config → List Bytes → Applied
unfolding argument_of
apply_cli_args files cfg [] = accepts cfg
apply_cli_args files cfg (arg ∷ []) = elim (argument_of files cfg arg) [
  | takes_value set ↦ exits 2
  | flag next ↦ accepts next
  | help ↦ exits 0
  | unknown ↦ refuses
]
apply_cli_args files cfg (arg ∷ value ∷ rest) = elim (argument_of files cfg arg) [
  | takes_value set ↦ elim (set value) [
    | none ↦ throws
    | some next ↦ apply_cli_args files next rest
  ]
  | flag next ↦ apply_cli_args files next (value ∷ rest)
  | help ↦ exits 0
  | unknown ↦ refuses
]
