-- ===== src/Host/Start/Durable.antt =====
-- `do_offer` and `serve_with` of src/host.rs: an accepted pin outlives the process.
use ce_pin.Prelude.{
  if◌then◌else◌, ◌≡◌, refl, ap, ◌∙◌, sym, Bool, true, false, some, length, Bool-cases, inl, inr,
  arith, ltb,
}
use ce_pin.Prelude.Text.{Text}
use ce_pin.Prelude.Map
use ce_pin.Files.{Bytes, Directory, atomic_write, attempt}
use ce_pin.Files.Crash.{no_faults}
use ce_pin.Held.{HeldSet, contains, held_schema_version}
use ce_pin.Held.Storage.{HeldJson, SaveResult, saved, save, load, loaded}
use ce_pin.Held.Storage.Recovery.{RoundTrips, load-save}
use ce_pin.Config.{Admission, admitted, rejected}
use ce_pin.Audit.{Hashing}
use ce_pin.Proto.{OfferReq}
use ce_pin.Host.{Host, HostState, Disk, persist}
use ce_pin.Host.Offer.{
  OfferCall, Fetched, object, failed, timed_out, commit, settle, fetch_and_commit, admit_then,
  admission, do_offer,
}
use ce_pin.Host.Offer.Replies.{do_offer-Accepted}
use ce_pin.Host.Start.{initial_state, new_host, Launch, running, host_key, start}

-- The file of the state is what a save of its held-set, to some directory, left there.
pub record IsSaved (host : Host) (disk : Disk) (t : HostState) : Type 0 where
  pub before : Directory
  pub result : SaveResult
  pub written :
      save host.json disk.directory_ok disk.faults host.pid host.held_file t.held before
      ≡ (result, t.directory)

commit-IsSaved :
    (host : Host) (call : OfferCall) (req : OfferReq) (publisher : Text) (bytes : Bytes)
    (s : HostState)
    → IsSaved host call.disk (commit host call req publisher (length bytes) s).1
unfolding commit persist
commit-IsSaved host call req publisher bytes s = record {
  before = s.directory;
  result = _;
  written = refl;
}

settle-IsSaved :
    (host : Host) (call : OfferCall) (req : OfferReq) (publisher : Text) (already : Bool)
    (s : HostState) (f : Fetched)
    → let (reply, t) = settle host call req publisher already s f in
      reply.accepted ≡ true → IsSaved host call.disk t
unfolding settle
settle-IsSaved host call req publisher already s failed a = cc
settle-IsSaved host call req publisher already s timed_out a = cc
settle-IsSaved host call req publisher true s (object bytes) a =
    commit-IsSaved host call req publisher bytes s
settle-IsSaved host call req publisher false s (object bytes) a =
    elim (Bool-cases (ltb host.cfg.max_object_bytes (length bytes))) [
      | inl big ↦ absurd (ground arith)
      | inr small ↦ rw small (commit-IsSaved host call req publisher bytes s)
    ]

admit_then-IsSaved :
    (host : Host) (call : OfferCall) (req : OfferReq) (publisher : Text) (a : Admission × HostState)
    → let (reply, t) = admit_then host call req publisher a in
      reply.accepted ≡ true → IsSaved host call.disk t
unfolding fetch_and_commit
admit_then-IsSaved host call req publisher (rejected r, s) h = cc
admit_then-IsSaved host call req publisher (admitted, s) h =
    settle-IsSaved host call req publisher false (call.while_fetching s) call.fetched h

do_offer-IsSaved :
    (host : Host) (call : OfferCall) (req : OfferReq) (publisher : Text) (s : HostState)
    → (do_offer host call req publisher s).0.accepted ≡ true
    → IsSaved host call.disk (do_offer host call req publisher s).1
unfolding do_offer fetch_and_commit
do_offer-IsSaved host call req publisher s =
    elim (contains s.held req.cid)
      as (λ b.
        let (reply, t) =
          if b
          then fetch_and_commit host call req publisher true s
          else admit_then host call req publisher (admission host call req s) in
        reply.accepted ≡ true → IsSaved host call.disk t) [
          | true ↦ settle-IsSaved host call req publisher true (call.while_fetching s) call.fetched
          | false ↦ admit_then-IsSaved host call req publisher (admission host call req s)
        ]

-- With a file system that refuses nothing a save succeeds.
save-saved :
    (json : HeldJson) (pid file : Text) (h : HeldSet) (bytes : Bytes) (d : Directory)
    → json.to_vec h ≡ some bytes
    → (save json true no_faults pid file h d).0 ≡ saved
unfolding save atomic_write attempt
save-saved json pid file h bytes d e = rw e refl

-- A launch of the same host on its file.
pub record IsRestart (hs : Hashing) (host : Host) (l : Launch) : Type 0 where
  pub node :
      (host_hex : Text) × (l.node_id ≡ some host_hex) × (host_key hs host_hex ≡ some host.host_id)
  pub same_json : l.json ≡ host.json
  pub same_file : l.held_file ≡ host.held_file
  pub can_read : l.reads ≡ true

-- A start that comes up with the same held entries, stamped with the schema version.
pub record Resumes (hs : Hashing) (host : Host) (l : Launch) (t : HostState) : Type 0 where
  pub again : Host
  pub state : HostState
  pub starts : start hs l t.directory ≡ running again state
  pub same_id : again.host_id ≡ host.host_id
  pub same_entries : state.held ≡ record (t.held) { version = held_schema_version }

start-loaded :
    (hs : Hashing) (host : Host) (l : Launch) (t : HostState)
    → IsRestart hs host l
    → load host.json true l.renames host.held_file t.directory
      ≡ (loaded (record (t.held) { version = held_schema_version }), t.directory)
    → Resumes hs host l t
unfolding start
start-loaded hs host l t r e = record {
  again = new_host l host.host_id;
  state = initial_state (record (t.held) { version = held_schema_version }) t.directory;
  starts = ground (arith, r.node.1, r.same_json, r.same_file, r.can_read, e);
  same_id = refl;
  same_entries = refl;
}

pub record Durable (hs : Hashing) (host : Host) (l : Launch) (call : OfferCall) (req : OfferReq)
    (publisher : Text) (t : HostState) : Type 0 where
  pub object_bytes : Bytes
  pub was_fetched : call.fetched ≡ object object_bytes
  pub resumes : Resumes hs host l t
  pub held_again :
      Map.lookup req.cid resumes.state.held.entries
      ≡ some (record {
        bytes = length object_bytes;
        rent_per_gb_hour = req.rent_per_gb_hour;
        expiry_height = req.expiry_height;
        pinned_at = call.pinned_at;
        last_access = call.last_access;
        publisher = publisher;
      })

-- A set that was saved with no fault is the one that the next start comes up with.
IsSaved-Resumes :
    (hs : Hashing) (host : Host) (l : Launch) (disk : Disk) (bytes : Bytes) (t : HostState)
    → RoundTrips host.json
    → disk ≡ record { directory_ok = true; faults = no_faults }
    → host.json.to_vec t.held ≡ some bytes
    → IsRestart hs host l
    → IsSaved host disk t
    → Resumes hs host l t
IsSaved-Resumes hs host l disk bytes t json good encodes r w =
    let done : w.result ≡ saved =
      sym (ap (λ (p : SaveResult × Directory). p.0) (rw good at w.written))
      ∙ save-saved host.json host.pid host.held_file t.held bytes w.before encodes in
    start-loaded hs host l t r (
      load-save host.json json disk.directory_ok l.renames disk.faults host.pid host.held_file
        t.held w.before t.directory (rw done at w.written))

-- After an offer that was accepted with a disk that refused nothing, a host that is started again
-- on the same file comes up holding the object under its CID, with its real size and the rent, the
-- expiry and the publisher of the offer, if JSON can write the held-set and reads back what it writes.
pub do_offer-Durable :
    (hs : Hashing) (host : Host) (l : Launch) (call : OfferCall) (req : OfferReq) (publisher : Text)
    (bytes : Bytes) (s : HostState)
    → RoundTrips host.json
    → call.disk ≡ record { directory_ok = true; faults = no_faults }
    → IsRestart hs host l
    → (do_offer host call req publisher s).0.accepted ≡ true
    → host.json.to_vec (do_offer host call req publisher s).1.held ≡ some bytes
    → Durable hs host l call req publisher (do_offer host call req publisher s).1
do_offer-Durable hs host l call req publisher bytes s json good r a encodes =
    let t = (do_offer host call req publisher s).1 in
    let again =
      IsSaved-Resumes hs host l call.disk bytes t json good encodes r
        (do_offer-IsSaved host call req publisher s a) in
    let accepted = do_offer-Accepted host call req publisher s a in
    record {
      object_bytes = accepted.bytes;
      was_fetched = accepted.was_fetched;
      resumes = again;
      held_again =
          ap (λ (h : HeldSet). Map.lookup req.cid h.entries) again.same_entries ∙ accepted.recorded;
    }
