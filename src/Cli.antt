-- ===== src/Cli.antt =====
-- The command line of the agent: `CliAction` and `parse_cli_args` of agent-rust/src/main.rs. The
-- arguments come without the program's name.
pub mod Forms
mod Tests
use live_cdn.Common.{
  ℕ, Bool, true, false, ◌||◌, Option, none, some, List, [], ◌∷◌, ◌++◌, if◌then◌else◌, codes, is_nil,
  same, starts_with, trim_start_matches, Result, ok, err,
}

pub data CliAction : Type 0 where
  run : List ℕ → CliAction
  version : CliAction

-- `args.join(" ")`
abbrev pub spaced : List (List ℕ) → List ℕ
spaced [] = []
spaced (a ∷ []) = a
spaced (a ∷ b ∷ args) = a ++ (codes " " ++ spaced (b ∷ args))

abbrev pub extra : List (List ℕ) → Result (List ℕ) CliAction
extra args = err (codes "unexpected extra arguments: " ++ spaced args)

-- `-c` and `--config`, with the arguments behind them.
abbrev flag_path : List ℕ → List (List ℕ) → Result (List ℕ) CliAction
flag_path flag [] = err (flag ++ codes " requires a config path")
flag_path flag (path ∷ []) = ok (run path)
flag_path flag (path ∷ a ∷ args) = extra (a ∷ args)

abbrev only_path : List ℕ → List (List ℕ) → Result (List ℕ) CliAction
only_path path [] = ok (run path)
only_path path (a ∷ args) = extra (a ∷ args)

abbrev inline_path : List ℕ → List (List ℕ) → Result (List ℕ) CliAction
inline_path path args =
    if is_nil path then err (codes "--config requires a config path") else only_path path args

unfoldable pub parse_cli_args : List (List ℕ) → Result (List ℕ) CliAction
parse_cli_args [] = ok (run (codes "configs/agent.toml"))
parse_cli_args (a ∷ args) =
    if same a (codes "--version") || (same a (codes "-V") || same a (codes "version"))
    then ok version
    else if same a (codes "-c") || same a (codes "--config")
    then flag_path a args
    else if starts_with a (codes "--config=")
    then inline_path (trim_start_matches a (codes "--config=")) args
    else if starts_with a (codes "-")
    then err (codes "unknown argument: " ++ a)
    else only_path a args
