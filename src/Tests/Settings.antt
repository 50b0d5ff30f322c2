-- ===== src/Tests/Settings.antt =====
-- Texts that Guardian/src/config.cpp reads.
use nicechunk_guardian.Base.{arith, ◌≡◌, refl, true, false, [], ◌∷◌, some, none}
use nicechunk_guardian.Base.Int.{negsuc, ◌-ℤ◌}
use nicechunk_guardian.Wire.{Bytes}
use nicechunk_guardian.Config.{codes, default_config}
use nicechunk_guardian.Config.Text.{trim, stoul, stoi}
use nicechunk_guardian.Config.Read.{load_config_file}
use nicechunk_guardian.Config.Read.Settings.{Setting.listen_port}
use nicechunk_guardian.Config.Prompt.{IsAnswered, prompt_u16, prompt_u16-IsAnswered}
use nicechunk_guardian.Config.Args.{Applied.exits, apply_cli_args}

trimmed : trim (codes " \"a b\" ") ≡ codes "a b"
unfolding trim
trimmed = refl

wrapped : stoul (codes "-1") ≡ some 18446744073709551615
unfolding stoul
wrapped = refl

negative : stoi (codes " -12x") ≡ some (negsuc 11)
unfolding stoi ◌-ℤ◌
negative = refl

abbrev port_line : Bytes
port_line = codes "listen_port = 9000 # the port\n\n# path = /x\nnot a setting\n"

port_read :
    load_config_file default_config (some port_line)
    ≡ some (true, record default_config { listen_port = 9000 })
unfolding load_config_file
port_read = refl

no_file : load_config_file default_config none ≡ some (false, default_config)
unfolding load_config_file
no_file = refl

no_value : apply_cli_args (λ name. none) default_config (codes "--host" ∷ []) ≡ exits 2
unfolding apply_cli_args
no_value = refl

asked_again : prompt_u16 8080 (codes "70000" ∷ codes " 9000 " ∷ []) ≡ some (9000, [])
unfolding prompt_u16
asked_again = refl

prompt_u16-IsAnswered_example : IsAnswered (prompt_u16 8080 (codes "x" ∷ codes "70000" ∷ []))
prompt_u16-IsAnswered_example =
    prompt_u16-IsAnswered 8080 (codes "x" ∷ codes "70000" ∷ []) (omega arith)
