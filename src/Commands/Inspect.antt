-- ===== src/Commands/Inspect.antt =====
-- `cmd_get`, `cmd_ls`, `cmd_announce` and `cmd_status` of src/main.rs.
pub mod Marking
use ce_pin.Prelude.{
  ℕ, Bool, false, Option, none, some, List, [], ◌∷◌, ◌++◌, length, filter, map, if◌then◌else◌,
  unwrap_or,
}
use ce_pin.Prelude.Text.{Text, lit, contains}
use ce_pin.PinSet.{
  PinSet, Entry, Replica, LoadResult, loaded, read_error, parse_error, get, update,
  healthy_replicas,
}
use ce_pin.Proto.{StatusResp, service_for}
use ce_pin.Client.Probe.{AuditResult, audited, audit_error, index_panic, audit_replica}
use ce_pin.Client.Requests.{fetch, announce, find_replicas, probe_status}
use ce_pin.Commands.{
  World, Session, Outcome, done, error, fetch_error, output_unwritable, announce_error, announced,
  send, wait, caps_hex, load_set, save_set,
}

unfoldable pub output_path : Text → Option Text → Text
output_path cid none = cid ++ lit ".bin"
output_path cid (some out) = out

unfoldable pub cmd_get : World → Text → Option Text → Outcome
unfolding fetch output_path
cmd_get w cid out = elim (fetch w.node cid) [
  | none ↦ error fetch_error
  | some bytes ↦ if w.write_file (output_path cid out) bytes then done else error output_unwritable
]

-- A line of the table.
pub record Row : Type 0 where
  pub cid : Text
  pub bytes_len : ℕ
  pub replication : ℕ
  pub healthy : ℕ
  pub replicas : ℕ
  pub label : Text

unfoldable pub row_of : Text × Entry → Row
unfolding healthy_replicas
row_of (cid, e) = record {
  cid = cid;
  bytes_len = e.job.bytes_len;
  replication = e.job.replication;
  healthy = healthy_replicas e;
  replicas = length e.replicas;
  label = unwrap_or e.job.label (lit "-");
}

abbrev list_rows : LoadResult → Option (List Row)
list_rows (loaded set) = some (map row_of set.pins)
list_rows _ = none

-- The rows of the table, in the order of the set; `none` is an error.
unfoldable pub cmd_ls : World → Text → Session → Option (List Row)
unfolding row_of load_set
cmd_ls w file s = list_rows (load_set w file s)

unfoldable pub cmd_announce : World → Text → Session → Outcome × Session
unfolding announce
cmd_announce w cid s = (
  if announce w.node cid then done else error announce_error,
  send (announced (service_for cid) ∷ []) s,
)

-- The replicas of a recorded pin, none where the file or the pin is missing.
abbrev pub replicas_of : Option Entry → List Replica
replicas_of none = []
replicas_of (some e) = e.replicas

unfoldable pub recorded_replicas : Text → LoadResult → List Replica
unfolding get
recorded_replicas cid (loaded set) = replicas_of (get set cid)
recorded_replicas cid read_error = []
recorded_replicas cid parse_error = []

-- The loop that adds the recorded holders to those of the DHT.
unfoldable pub combine : List Text → List Replica → List Text
combine all [] = all
combine all (r ∷ rs) = combine (if contains all r.holder then all else all ++ r.holder ∷ []) rs

abbrev passed : AuditResult → Bool
passed (audited ok) = ok
passed audit_error = false
passed index_panic = false

abbrev is_held : Option StatusResp → Bool
is_held none = false
is_held (some resp) = resp.held

-- Whether a holder passes: by an audit, or by the cheap probe.
unfoldable pub holds : World → Text → Text → Bool → Text → Bool
unfolding probe_status
holds w caps cid do_audit host =
    if do_audit
    then passed (audit_replica w.hs (w.auditor host) caps cid)
    else is_held (probe_status w.node host caps cid)

abbrev pub mark_holder : List Text → Replica → Replica
mark_holder healthy_holders r = record r { last_proof_ok = contains healthy_holders r.holder }

abbrev pub reflect : List Text → Entry → Entry
reflect healthy_holders e = record e { replicas = map (mark_holder healthy_holders) e.replicas }

abbrev pub write_back_found :
    World → Text → Text → List Text → PinSet → Option Entry → Session → Session
write_back_found w file cid healthy_holders set none s = s
write_back_found w file cid healthy_holders set (some e) s =
    (save_set w file (update set cid (reflect healthy_holders)) s).1

abbrev pub write_back : World → Text → Text → List Text → LoadResult → Session → Session
write_back w file cid healthy_holders (loaded set) s =
    write_back_found w file cid healthy_holders set (get set cid) s
write_back w file cid healthy_holders _ s = s

-- The holders that are asked.
unfoldable pub known_holders : World → Text → Text → Session → List Text
unfolding find_replicas combine recorded_replicas
known_holders w file cid s =
    combine (unwrap_or (find_replicas w.node cid) []) (recorded_replicas cid (load_set w file s))

abbrev pub status_all : World → Text → Text → Option Text → Bool → List Text → Session → Session
status_all w file cid caps_arg do_audit [] s = s
status_all w file cid caps_arg do_audit (host ∷ hosts) s =
    let healthy = filter (holds w (caps_hex w caps_arg) cid do_audit) (host ∷ hosts) in
    let later = wait w s in write_back w file cid healthy (load_set w file later) later

-- Always succeeds: a set that cannot be loaded or saved is passed over.
unfoldable pub cmd_status : World → Text → Text → Option Text → Bool → Session → Outcome × Session
unfolding known_holders holds
cmd_status w file cid caps_arg do_audit s =
    (done, status_all w file cid caps_arg do_audit (known_holders w file cid s) s)
