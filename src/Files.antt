-- ===== src/Files.antt =====
-- `atomic_write` of src/held.rs, on a directory of files: the operations that it asks of the file
-- system, one byte of the content at a time, so that a crash may fall between any two of them.
pub mod Crash
use ce_pin.Prelude.{ℕ, ◌≡◌, Bool, true, false, Option, none, some, List, [], ◌∷◌, ◌++◌, map, take}
use ce_pin.Prelude.Text.{Text, lit}
use ce_pin.Prelude.Map.{Map, lookup, insert, remove, modify}

abbrev pub Bytes : Type 0
Bytes = List ℕ

-- The files of one directory, by name.
abbrev pub Directory : Type 0
Directory = Map Bytes

pub data FileOp : Type 0 where
  create : Text → FileOp
  append : Text → ℕ → FileOp
  sync : Text → FileOp
  rename : Text → Text → FileOp
  unlink : Text → FileOp

-- What the operation does when the file system grants it.
unfoldable pub perform : FileOp → Directory → Directory
perform (create name) d = insert name [] d
perform (append name byte) d = modify name (λ content. content ++ byte ∷ []) d
perform (sync name) d = d
perform (rename from to) d = elim (lookup from d) [
  | none ↦ d
  | some content ↦ insert to content (remove from d)
]
perform (unlink name) d = remove name d

unfoldable pub perform_all : List FileOp → Directory → Directory
unfolding perform
perform_all [] d = d
perform_all (op ∷ ops) d = perform_all ops (perform op d)

-- What the file system refuses; `write_stops` is the number of bytes written before an error.
pub record Faults : Type 0 where
  pub create_ok : Bool
  pub write_stops : Option ℕ
  pub rename_ok : Bool

pub data WriteResult : Type 0 where
  written create_failed write_failed rename_failed : WriteResult

-- The temporary name: `.<file>.tmp.<process id>`.
unfoldable pub temp_name : Text → Text → Text
temp_name pid file = lit "." ++ (file ++ (lit ".tmp." ++ pid))

unfoldable pub write_all : Text → Bytes → List FileOp
write_all tmp [] = []
write_all tmp (byte ∷ bytes) = append tmp byte ∷ write_all tmp bytes

-- Creating the temporary file, writing and syncing it.
abbrev pub prepare : Text → Bytes → List FileOp
prepare tmp bytes = create tmp ∷ (write_all tmp bytes ++ sync tmp ∷ [])

-- By what fails: the flush and the fsync are best effort; a failed rename removes the temporary
-- file, a failed write leaves it.
unfoldable pub attempt : Bool → Option ℕ → Bool → Text → Text → Bytes → List FileOp × WriteResult
unfolding write_all
attempt false stops renames tmp file bytes = ([], create_failed)
attempt true (some k) renames tmp file bytes =
    (create tmp ∷ write_all tmp (take k bytes), write_failed)
attempt true none false tmp file bytes = (prepare tmp bytes ++ unlink tmp ∷ [], rename_failed)
attempt true none true tmp file bytes = (prepare tmp bytes ++ rename tmp file ∷ [], written)

-- The operations, and the result.
unfoldable pub atomic_write : Faults → Text → Text → Bytes → List FileOp × WriteResult
unfolding attempt
atomic_write faults pid file bytes =
    attempt faults.create_ok faults.write_stops faults.rename_ok (temp_name pid file) file bytes
