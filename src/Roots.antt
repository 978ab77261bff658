-- ===== src/Roots.antt =====
-- `load_roots` of src/lib.rs: the root keys that a host accepts, one to a line of a file.
pub mod Reading
use ce_pin.Prelude.{
  ℕ, ◌≡◌, Bool, Option, none, some, List, [], ◌∷◌, ◌++◌, length, ◌==◌, if◌then◌else◌, is_some,
}
use ce_pin.Prelude.Text.{Text, lit, trim, is_empty}
use ce_pin.Config.{EnvVars}
use ce_pin.Files.{Bytes}
use ce_pin.Paths.{roots_path}
use ce_pin.Audit.{Hashing}

-- `str::lines`: `line` is what was read of a line, the end of a text ends a line that has anything.
abbrev strip_return : Text → Text
strip_return [] = []
strip_return (c ∷ []) = if c == 13 then [] else c ∷ []
strip_return (c ∷ d ∷ s) = c ∷ strip_return (d ∷ s)

lines_from : Text → Text → List Text
lines_from line [] = if is_empty line then [] else line ∷ []
lines_from line (c ∷ s) =
    let next = lines_from [] s in
    let more = lines_from (line ++ c ∷ []) s in if c == 10 then strip_return line ∷ next else more

unfoldable pub lines : Text → List Text
unfolding lines_from
lines s = lines_from [] s

-- `l.split('#').next()`
unfoldable pub before_hash : Text → Text
before_hash [] = []
before_hash (c ∷ s) = if c == b'#' then [] else c ∷ before_hash s

abbrev pub key_of : Option Bytes → Option Bytes
key_of none = none
key_of (some bytes) = if length bytes == 32 then some bytes else none

-- The key of a line, where it has one.
unfoldable pub line_root : Hashing → Text → Option Bytes
unfolding before_hash
line_root hs line =
    let text = trim (before_hash line) in if is_empty text then none else key_of (hs.decode text)

unfoldable pub roots_of : Hashing → List Text → List Bytes
unfolding line_root
roots_of hs [] = []
roots_of hs (line ∷ rest) = elim (line_root hs line) [
  | none ↦ roots_of hs rest
  | some key ↦ key ∷ roots_of hs rest
]

-- `read` is `std::fs::read_to_string`, `none` where it fails.
unfoldable pub load_roots : Hashing → EnvVars → Option Text → (Text → Option Text) → List Bytes
unfolding roots_of lines roots_path
load_roots hs env data_dir read = elim (read (roots_path env data_dir)) [
  | none ↦ []
  | some text ↦ roots_of hs (lines text)
]
