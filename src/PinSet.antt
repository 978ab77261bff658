-- ===== src/PinSet.antt =====
-- src/pinset.rs: the client's index of what it has published and where it is replicated, and its
-- file. The JSON of `serde_json` is a parameter.
pub mod Recovery
pub mod Updates
pub mod Views
pub mod Refinement
use ce_pin.Prelude.{ℕ, ◌≡◌, Bool, true, false, Option, none, some, List, [], ◌∷◌, length, filter}
use ce_pin.Prelude.Text.{Text}
use ce_pin.Prelude.Map
use ce_pin.Prelude.Map.{Map}
use ce_pin.Files.{Bytes, Directory, Faults, perform_all, atomic_write}
use ce_pin.Held.Storage.{
  ReadResult, content, not_found, read_failed, read, SaveResult, save_failed, save_json,
}

pub record PinJob : Type 0 where
  pub cid : Text
  pub bytes_len : ℕ
  pub replication : ℕ
  pub rent_per_gb_hour : Text
  pub expiry_height : ℕ
  pub label : Option Text

pub record Replica : Type 0 where
  pub holder : Text
  pub channel_id : Text
  pub last_proof_ok : Bool

pub record Entry : Type 0 where
  pub job : PinJob
  pub replicas : List Replica

unfoldable pub healthy_replicas : Entry → ℕ
healthy_replicas e = length (filter (λ r. r.last_proof_ok) e.replicas)

pub record PinSet : Type 0 where
  pub pins : Map Entry

abbrev pub empty_set : PinSet
empty_set = record { pins = [] }

unfoldable pub upsert : PinSet → Entry → PinSet
upsert s entry = record { pins = Map.insert (entry.job.cid) entry s.pins }

unfoldable pub remove : PinSet → Text → Option Entry × PinSet
remove s cid = (Map.lookup cid s.pins, record { pins = Map.remove cid s.pins })

unfoldable pub get : PinSet → Text → Option Entry
get s cid = Map.lookup cid s.pins

-- A change through `get_mut`.
unfoldable pub update : PinSet → Text → (Entry → Entry) → PinSet
update s cid f = record { pins = Map.modify cid f s.pins }

-- `serde_json` at the type of the file.
pub record PinJson : Type 0 where
  pub to_vec_pretty : PinSet → Option Bytes
  pub from_slice : Bytes → Option PinSet

pub data LoadResult : Type 0 where
  loaded : PinSet → LoadResult
  read_error parse_error : LoadResult

abbrev parsed : Option PinSet → LoadResult
parsed none = parse_error
parsed (some s) = loaded s

abbrev load_from : PinJson → ReadResult → LoadResult
load_from json (content bytes) = parsed (json.from_slice bytes)
load_from json not_found = loaded empty_set
load_from json read_failed = read_error

-- `reads` says whether the file system grants the read.
unfoldable pub load : PinJson → Bool → Text → Directory → LoadResult
unfolding read
load json reads file d = load_from json (read reads file d)

-- `directory_ok` says whether the directory is there or can be made.
unfoldable pub save :
    PinJson → Bool → Faults → Text → Text → PinSet → Directory → SaveResult × Directory
save json false faults pid file s d = (save_failed, d)
save json true faults pid file s d = save_json (json.to_vec_pretty s) faults pid file d
