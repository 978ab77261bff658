-- ===== src/Caps.antt =====
-- `resolve` of src/caps.rs: the capability chain that a client presents.
pub mod Precedence
use ce_pin.Prelude.{◌≡◌, Option, none, some, List, [], ◌∷◌, if◌then◌else◌, unwrap_or}
use ce_pin.Prelude.Text.{Text, lit, is_empty, trim}
use ce_pin.Config.{EnvVars}
use ce_pin.Paths.{caps_file, or_else}

-- A source, trimmed, unless nothing is left.
abbrev pub chain_of : Option Text → Option Text
chain_of none = none
chain_of (some c) = if is_empty (trim c) then none else some (trim c)

-- `std::fs::read_to_string` of a path that may be missing; `read` is `none` where it fails.
abbrev pub read_at : (Text → Option Text) → Option Text → Option Text
read_at read none = none
read_at read (some path) = read path

-- The flag, then the environment, then the file, or no chain.
unfoldable pub resolve : Option Text → EnvVars → Option Text → (Text → Option Text) → Text
unfolding caps_file
resolve explicit env config_dir read =
    unwrap_or
      (or_else (chain_of explicit) (
        or_else (chain_of (env (lit "CE_PIN_CAPS")))
          (chain_of (read_at read (caps_file env config_dir)))))
      []
