-- ===== src/Cli/Forms.antt =====
-- The ways to name the file of settings.
use live_cdn.Common.{
  ℕ, ◌≡◌, refl, is_some-none, false, List, [], ◌∷◌, ◌++◌, codes, is_nil, starts_with, strip_prefix,
  strip_starts,
}
use live_cdn.Cli.{parse_cli_args}

-- A path that is not empty and does not start with `--config=` itself: the form with the equals sign
-- and the form with `-c` give the same.
pub parse_cli_args-inline :
    (path : List ℕ)
    → is_nil path ≡ false
    → starts_with path (codes "--config=") ≡ false
    → parse_cli_args ((codes "--config=" ++ path) ∷ []) ≡ parse_cli_args (codes "-c" ∷ path ∷ [])
unfolding parse_cli_args strip_starts
parse_cli_args-inline path h k = rw (is_some-none (strip_prefix path (codes "--config=")) k, h) refl
