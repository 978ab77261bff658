-- ===== src/Paths.antt =====
-- Where the files are: `PinSet::default_path` of src/pinset.rs, `held_set_path` of src/host.rs,
-- `caps_file` of src/caps.rs, and the path of `load_roots` in src/lib.rs. The directories of
-- `directories::ProjectDirs` are parameters; paths are those of Unix.
use ce_pin.Prelude.{Bool, false, Option, none, some, [], ◌∷◌, ◌++◌, ◌==◌, if◌then◌else◌, unwrap_or}
use ce_pin.Prelude.Text.{Text, lit}
use ce_pin.Config.{EnvVars}

abbrev ends_in_slash : Text → Bool
ends_in_slash [] = false
ends_in_slash (c ∷ []) = c == b'/'
ends_in_slash (c ∷ d ∷ s) = ends_in_slash (d ∷ s)

-- `Path::join` with the name of a file.
unfoldable pub join : Text → Text → Text
join [] file = file
join (c ∷ directory) file =
    if ends_in_slash (c ∷ directory)
    then (c ∷ directory) ++ file
    else (c ∷ directory) ++ (lit "/" ++ file)

-- `Option::map` at `join`, and `Option::or_else`.
abbrev pub join_in : Option Text → Text → Option Text
join_in none file = none
join_in (some directory) file = some (join directory file)

abbrev pub or_else : Option Text → Option Text → Option Text
or_else none other = other
or_else (some a) other = some a

-- `config_dir` is `ProjectDirs::config_dir` of ce-pin.
unfoldable pub default_path : EnvVars → Option Text → Text
unfolding join
default_path env config_dir = elim (env (lit "CE_PIN_DIR")) [
  | some d ↦ join d (lit "pins.json")
  | none ↦ join (unwrap_or config_dir (lit ".ce-pin")) (lit "pins.json")
]

unfoldable pub held_set_path : EnvVars → Option Text → Text
unfolding join
held_set_path env config_dir = elim (env (lit "CE_PIN_DIR")) [
  | some d ↦ join d (lit "held.json")
  | none ↦ unwrap_or (join_in config_dir (lit "held.json")) (lit ".ce-pin/held.json")
]

unfoldable pub caps_file : EnvVars → Option Text → Option Text
unfolding join
caps_file env config_dir = elim (env (lit "CE_PIN_DIR")) [
  | some d ↦ some (join d (lit "caps"))
  | none ↦ join_in config_dir (lit "caps")
]

-- `data_dir` is `ProjectDirs::data_dir` of ce.
unfoldable pub roots_path : EnvVars → Option Text → Text
unfolding join
roots_path env data_dir =
    unwrap_or
      (or_else (env (lit "CE_PIN_ROOTS")) (
        or_else (join_in (env (lit "CE_DATA_DIR")) (lit "roots")) (join_in data_dir (lit "roots"))))
      (lit "roots")
