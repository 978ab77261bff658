-- ===== src/Commands/Add.antt =====
-- `cmd_add` of src/main.rs: publish a file, replicate it, and record it in the pin-set.
pub mod Publishing
pub mod Recording
use ce_pin.Prelude.{
  ℕ, Bool, ◌&&◌, Option, none, some, List, [], ◌∷◌, ltb, if◌then◌else◌, unwrap_or, ℤ,
}
use ce_pin.Prelude.Text.{Text}
use ce_pin.Files.{Bytes}
use ce_pin.Held.Storage.{SaveResult, saved, save_failed}
use ce_pin.Placement.{Candidate}
use ce_pin.PinSet.{Entry, Replica, LoadResult, loaded, upsert}
use ce_pin.Proto.{service_for}
use ce_pin.Client.{candidate_hosts, Terms, replicate}
use ce_pin.Client.Requests.{add_bytes}
use ce_pin.Commands.{
  World, Session, Outcome, done, error, Error, stat_failed, too_large, input_unreadable, bad_rent,
  publish_failed, load_error, save_error, announced, send, wait, caps_hex, load_set, save_set,
  show_int, wrapping_add_64,
}

pub record AddArgs : Type 0 where
  pub file : Text
  pub replication : ℕ
  pub rent : Text
  pub expiry_blocks : ℕ
  pub label : Option Text
  pub caps_arg : Option Text
  pub no_replicate : Bool
  pub max_size : ℕ

-- What is known once the object is published.
pub record Published : Type 0 where
  pub cid : Text
  pub bytes_len : ℕ
  pub rent_base : Text

pub data Prepared : Type 0 where
  published : Published → Prepared
  refused : Error → Prepared

abbrev pub publish : World → Bytes → Option ℤ → Prepared
publish w bytes none = refused bad_rent
publish w bytes (some rent) = elim (add_bytes w.node bytes) [
  | none ↦ refused publish_failed
  | some (cid, bytes_len) ↦
      published (record { cid = cid; bytes_len = bytes_len; rent_base = show_int rent })
]

-- The checks of the file and of the rent, and the upload.
unfoldable pub prepare : World → AddArgs → Prepared
unfolding add_bytes show_int
prepare w a = elim (w.file_size a.file) [
  | none ↦ refused stat_failed
  | some size ↦
      if ltb 0 a.max_size && ltb a.max_size size
      then refused too_large
      else elim (w.file_bytes a.file) [
        | none ↦ refused input_unreadable
        | some bytes ↦ publish w bytes (w.parse_credits a.rent)
      ]
]

-- Open-ended where the node does not tell its height.
unfoldable pub expiry_of : Option ℕ → ℕ → ℕ
unfolding wrapping_add_64
expiry_of none expiry_blocks = 0
expiry_of (some height) expiry_blocks =
    if ltb 0 expiry_blocks then wrapping_add_64 height expiry_blocks else 0

abbrev pub add_terms : World → AddArgs → Published → Terms
add_terms w a p = record {
  cid = p.cid;
  bytes_len = p.bytes_len;
  rent_per_gb_hour = p.rent_base;
  expiry_height = expiry_of w.node.height a.expiry_blocks;
  caps = caps_hex w a.caps_arg;
}

abbrev pub replicate_to : World → AddArgs → Published → List Candidate → List Replica
replicate_to w a p [] = []
replicate_to w a p (c ∷ candidates) =
    unwrap_or (replicate w.market (add_terms w a p) a.replication (c ∷ candidates) []) []

-- A replication that fails leaves the pin without replicas.
unfoldable pub new_replicas : World → AddArgs → Published → List Replica
unfolding expiry_of caps_hex
new_replicas w a p = if a.no_replicate then [] else replicate_to w a p (candidate_hosts w.network)

unfoldable pub added_entry : World → AddArgs → Published → Entry
unfolding new_replicas
added_entry w a p = record {
  job = record {
    cid = p.cid;
    bytes_len = p.bytes_len;
    replication = a.replication;
    rent_per_gb_hour = p.rent_base;
    expiry_height = expiry_of w.node.height a.expiry_blocks;
    label = a.label;
  };
  replicas = new_replicas w a p;
}

abbrev pub finished : SaveResult × Session → Outcome × Session
finished (saved, s) = (done, s)
finished (save_failed, s) = (error save_error, s)

-- From the loaded set on; the other processes have run by the time of the save.
abbrev pub record_pin :
    World → Text → AddArgs → Published → LoadResult → Session → Outcome × Session
record_pin w file a p (loaded set) s = finished (
    save_set w file (upsert set (added_entry w a p))
      (send (if a.no_replicate then [] else announced (service_for p.cid) ∷ []) (wait w s)))
record_pin w file a p _ s = (error load_error, s)

abbrev pub add_prepared : World → Text → AddArgs → Prepared → Session → Outcome × Session
add_prepared w file a (refused e) s = (error e, s)
add_prepared w file a (published p) s = record_pin w file a p (load_set w file s) s

unfoldable pub cmd_add : World → Text → AddArgs → Session → Outcome × Session
unfolding prepare added_entry load_set save_set
cmd_add w file a s = add_prepared w file a (prepare w a) s
