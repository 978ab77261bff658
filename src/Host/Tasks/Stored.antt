-- ===== src/Host/Tasks/Stored.antt =====
-- The file of the held-set of src/host.rs under any schedule, and a start on it.
pub mod Turns
pub mod Restart
use ce_pin.Prelude.{
  ℕ, ◌≡◌, refl, sym, ap, ◌∙◌, subst, ◌⊎◌, inl, inr, Bool, true, false, not, ◌&&◌, ltb, length,
  Option, none, some, List, [], ◌∷◌, ◌++◌, get_elem?, Option-cases, Bool-cases, if◌then◌else◌,
  arith,
}
use ce_pin.Prelude.Text.{Text}
use ce_pin.Prelude.Map
use ce_pin.Files.{Bytes, Directory}
use ce_pin.Audit.{Hashing}
use ce_pin.Config.{Admission, admitted, rejected}
use ce_pin.Held.{HeldSet, contains, held_schema_version, default_set}
use ce_pin.Held.Storage.{
  HeldJson, parsed, read, SaveResult, saved, save_failed, save, load, loaded, upgrade,
}
use ce_pin.Held.Storage.Recovery.{RoundTrips, load-save, save_failed-lookup}
use ce_pin.Proto.{OfferReq, RenewReq, ReleaseReq, ReleaseResp}
use ce_pin.Host.{Host, HostState, Disk, persist}
use ce_pin.Host.Offer.{OfferCall, Fetched, object, failed, timed_out, settle, commit}
use ce_pin.Host.Requests.{do_renew, do_release, released_if}
use ce_pin.Host.Gc.{run_gc, finish_gc}
use ce_pin.Host.Dispatch.{Gate}

-- A load finds the set, and moves nothing.
abbrev pub Loads : Host → Directory → HeldSet → Type 0
Loads host d h = (renames : Bool) → load host.json true renames host.held_file d ≡ (loaded h, d)

load_absent :
    (json : HeldJson) (renames : Bool) (file : Text) (d : Directory)
    → Map.lookup file d ≡ none
    → load json true renames file d ≡ (loaded default_set, d)
unfolding load read
load_absent json renames file d e = rw (e, read) refl

load_bytes :
    (json : HeldJson) (renames : Bool) (file : Text) (d : Directory) (bytes : Bytes)
    → Map.lookup file d ≡ some bytes
    → load json true renames file d ≡ parsed json renames file d bytes (json.from_slice bytes)
unfolding load read
load_bytes json renames file d bytes e = rw (e, read) refl

first {ℓ κ} : {A : Type ℓ} {B : Type κ} {p q : A × B} → p ≡ q → p.0 ≡ q.0
first e = ap (λ x. x.0) e

load_parsed :
    (json : HeldJson) (renames : Bool) (file : Text) (d d' : Directory) (h : HeldSet)
    (bytes : Bytes) (p : Option HeldSet)
    → parsed json renames file d bytes p ≡ (loaded h, d)
    → parsed json renames file d' bytes p ≡ (loaded h, d')
load_parsed json renames file d d' h bytes none e = cc (first e)
load_parsed json renames file d d' h bytes (some set) e = ap (λ x. (x, d')) (first e)

-- A load sees of a directory only the file.
pub load_found :
    (json : HeldJson) (renames : Bool) (file : Text) (d d' : Directory) (h : HeldSet)
    (found : Option Bytes)
    → Map.lookup file d ≡ found
    → Map.lookup file d' ≡ found
    → load json true renames file d ≡ (loaded h, d)
    → load json true renames file d' ≡ (loaded h, d')
load_found json renames file d d' h none e e' there =
    load_absent json renames file d' e'
    ∙ ap (λ x. (x, d')) (first (sym (load_absent json renames file d e) ∙ there))
load_found json renames file d d' h (some bytes) e e' there =
    load_bytes json renames file d' bytes e'
    ∙ load_parsed json renames file d d' h bytes (json.from_slice bytes)
        (sym (load_bytes json renames file d bytes e) ∙ there)

-- What becomes of the file when the held-set is saved: nothing, or a load finds that set.
abbrev pub Stores : Host → Directory → HeldSet → Directory → Type 0
Stores host d h d' =
    (Map.lookup host.held_file d' ≡ Map.lookup host.held_file d)
    ⊎ Loads host d' (record h { version = held_schema_version })

-- What a turn does to the file.
abbrev pub Writes : Host → HostState → HostState → Type 0
Writes host s t = Stores host s.directory t.held t.directory

persist_result :
    (host : Host) (disk : Disk) (h : HeldSet) (d d' : Directory) (result : SaveResult)
    → RoundTrips host.json
    → save host.json disk.directory_ok disk.faults host.pid host.held_file h d ≡ (result, d')
    → Stores host d h d'
persist_result host disk h d d' saved json e = inr (λ renames.
    load-save host.json json disk.directory_ok renames disk.faults host.pid host.held_file h d d' e)
persist_result host disk h d d' save_failed json e =
    inl
      (save_failed-lookup host.json disk.directory_ok disk.faults host.pid host.held_file h d d' e)

finish_gc-Writes :
    (host : Host) (disk : Disk) (cids : List Text) (s : HostState)
    → RoundTrips host.json
    → Writes host s (finish_gc host disk cids s)
unfolding persist
finish_gc-Writes host disk [] s json = inl refl
finish_gc-Writes host disk (cid ∷ cids) s json = persist_result host disk _ _ _ _ json refl

pub run_gc-Writes :
    (host : Host) (answer : Option ℕ) (disk : Disk) (s : HostState)
    → RoundTrips host.json
    → Writes host s (run_gc host answer disk s)
unfolding run_gc
run_gc-Writes host answer disk s json = finish_gc-Writes host disk _ _ json

pub settle-Writes :
    (host : Host) (call : OfferCall) (req : OfferReq) (publisher : Text) (already : Bool)
    (s : HostState) (f : Fetched)
    → RoundTrips host.json
    → Writes host s (settle host call req publisher already s f).1
unfolding settle commit persist
settle-Writes host call req publisher already s failed json = inl refl
settle-Writes host call req publisher already s timed_out json = inl refl
settle-Writes host call req publisher already s (object bytes) json =
    elim (Bool-cases (not already && ltb host.cfg.max_object_bytes (length bytes))) [
      | inl big ↦ rw big (inl refl)
      | inr small ↦ rw small (persist_result host call.disk _ _ _ _ json refl)
    ]

pub do_renew-Writes :
    (host : Host) (disk : Disk) (now : ℕ) (req : RenewReq) (s : HostState)
    → RoundTrips host.json
    → Writes host s (do_renew host disk now req s).1
unfolding do_renew persist
do_renew-Writes host disk now req s json = elim (Option-cases (Map.lookup req.cid s.held.entries)) [
  | inl gone ↦ rw gone (inl refl)
  | inr (e, there) ↦ rw there (persist_result host disk _ _ _ _ json refl)
]

released_if-Writes :
    (host : Host) (s : HostState) (was_held : Bool) (r : SaveResult) (t : HostState)
    → Writes host s t
    → Writes host s (released_if was_held (r, t)).1
released_if-Writes host s was_held save_failed t w = w
released_if-Writes host s true saved t w = w
released_if-Writes host s false saved t w = w

pub do_release-Writes :
    (host : Host) (disk : Disk) (req : ReleaseReq) (s : HostState)
    → RoundTrips host.json
    → Writes host s (do_release host disk req s).1
unfolding do_release persist
do_release-Writes host disk req s json =
    released_if-Writes host s (contains s.held req.cid) _ _
      (persist_result host disk _ _ _ _ json refl)
