-- ===== src/Cli/Tests.antt =====
-- The command line at concrete inputs, those of the source's tests among them.
use live_cdn.Common.{◌≡◌, refl, [], ◌∷◌, codes, strip_starts, ok, err}
use live_cdn.Cli.{run, version, parse_cli_args}

forms :
    (parse_cli_args [] ≡ ok (run (codes "configs/agent.toml")))
    × (parse_cli_args (codes "-c" ∷ codes "/etc/agent.toml" ∷ [])
        ≡ ok (run (codes "/etc/agent.toml")))
    × (parse_cli_args (codes "--version" ∷ codes "x" ∷ []) ≡ ok version)
    × (parse_cli_args (codes "agent.toml" ∷ []) ≡ ok (run (codes "agent.toml")))
unfolding parse_cli_args
forms = (refl, refl, refl, refl)

refused :
    (parse_cli_args (codes "--unknown" ∷ []) ≡ err (codes "unknown argument: --unknown"))
    × (parse_cli_args (codes "-c" ∷ []) ≡ err (codes "-c requires a config path"))
    × (parse_cli_args (codes "--config=" ∷ []) ≡ err (codes "--config requires a config path"))
    × (parse_cli_args (codes "a" ∷ codes "b" ∷ codes "c" ∷ [])
        ≡ err (codes "unexpected extra arguments: b c"))
unfolding parse_cli_args strip_starts
refused = (refl, refl, refl, refl)
