-- ===== src/Held/Storage.antt =====
-- `HeldSet::load` and `HeldSet::save` of src/held.rs, on the directory of the held-set's file. The
-- JSON of `serde_json` is a parameter.
pub mod Recovery
use ce_pin.Prelude.{
  ℕ, ◌≡◌, Bool, true, false, not, ◌&&◌, ◌==◌, Option, none, some, List, [], ◌∷◌, ◌++◌,
  if◌then◌else◌,
}
use ce_pin.Prelude.Text.{Text, lit}
use ce_pin.Prelude.Map
use ce_pin.Prelude.Map.{Map}
use ce_pin.Files.{
  Bytes, Directory, Faults, FileOp, rename, perform, perform_all, WriteResult, written,
  atomic_write,
}
use ce_pin.Held.{HeldEntry, HeldSet, default_record, default_set, held_schema_version}

-- `serde_json` at the types that the held-set's file is read and written as. `legacy` reads the
-- field `cids` of the old shape.
pub record HeldJson : Type 0 where
  pub to_vec : HeldSet → Option Bytes
  pub from_slice : Bytes → Option HeldSet
  pub legacy : Bytes → Option (List Text)

-- What `std::fs::read` answers.
pub data ReadResult : Type 0 where
  content : Bytes → ReadResult
  not_found read_failed : ReadResult

abbrev found : Option Bytes → ReadResult
found none = not_found
found (some bytes) = content bytes

unfoldable pub read : Bool → Text → Directory → ReadResult
read true file d = found (Map.lookup file d)
read false file d = read_failed

pub data LoadResult : Type 0 where
  loaded : HeldSet → LoadResult
  io_error corrupt : LoadResult

-- The part of a file name before its last dot.
before_dot : Text → Option Text
before_dot [] = none
before_dot (c ∷ s) = elim (before_dot s) [
  | some t ↦ some (c ∷ t)
  | none ↦ if c == b'.' then some [] else none
]

abbrev stem : Text → Option Text → Text
stem file none = file
stem file (some []) = file
stem file (some (c ∷ s)) = c ∷ s

-- `Path::with_extension` at a file name.
unfoldable pub with_extension : Text → Text → Text
unfolding before_dot
with_extension file extension = stem file (before_dot file) ++ (lit "." ++ extension)

-- The loop that carries the CIDs of the old shape over.
unfoldable pub migrate : List Text → Map HeldEntry → Map HeldEntry
migrate [] m = m
migrate (cid ∷ cids) m = migrate cids (Map.insert cid default_record m)

abbrev no_entries : Map HeldEntry → Bool
no_entries [] = true
no_entries (e ∷ m) = false

abbrev pub legacy_cids : Option (List Text) → List Text
legacy_cids none = []
legacy_cids (some cids) = cids

-- A parsed set, migrated and stamped with the schema version.
unfoldable pub upgrade : HeldJson → Bytes → HeldSet → HeldSet
upgrade json bytes set = record {
  version = held_schema_version;
  entries =
      if set.version == 0 && no_entries set.entries
      then migrate (legacy_cids (json.legacy bytes)) set.entries
      else set.entries;
}

abbrev pub move_aside : Bool → Text → Directory → Directory
move_aside true file d = perform (rename file (with_extension file (lit "corrupt"))) d
move_aside false file d = d

abbrev pub parsed :
    HeldJson → Bool → Text → Directory → Bytes → Option HeldSet → LoadResult × Directory
parsed json renames file d bytes (some set) = (loaded (upgrade json bytes set), d)
parsed json renames file d bytes none = (corrupt, move_aside renames file d)

abbrev load_from : HeldJson → Bool → Text → Directory → ReadResult → LoadResult × Directory
load_from json renames file d (content bytes) =
    parsed json renames file d bytes (json.from_slice bytes)
load_from json renames file d not_found = (loaded default_set, d)
load_from json renames file d read_failed = (io_error, d)

-- `reads` and `renames` say whether the file system grants the read and the move.
unfoldable pub load : HeldJson → Bool → Bool → Text → Directory → LoadResult × Directory
unfolding upgrade with_extension read perform
load json reads renames file d = load_from json renames file d (read reads file d)

pub data SaveResult : Type 0 where
  saved save_failed : SaveResult

abbrev pub save_result : WriteResult → SaveResult
save_result written = saved
save_result _ = save_failed

abbrev pub save_json : Option Bytes → Faults → Text → Text → Directory → SaveResult × Directory
save_json none faults pid file d = (save_failed, d)
save_json (some bytes) faults pid file d =
    let (ops, result) = atomic_write faults pid file bytes in
    (save_result result, perform_all ops d)

-- `directory_ok` says whether the directory is there or can be made.
unfoldable pub save :
    HeldJson → Bool → Faults → Text → Text → HeldSet → Directory → SaveResult × Directory
save json false faults pid file h d = (save_failed, d)
save json true faults pid file h d = save_json (json.to_vec h) faults pid file d
