-- ===== src/Host/Tasks/Budget/Entries.antt =====
-- Every turn of src/host.rs keeps what is said of the entries by their CID and their bytes.
use ce_pin.Prelude.{
  ℕ, ◌≡◌, refl, sym, subst, inl, inr, Bool, not, ◌&&◌, ltb, length, Option, none, some, List, All,
  Option-cases, Bool-cases,
}
use ce_pin.Prelude.Text.{Text}
use ce_pin.Prelude.Map
use ce_pin.Prelude.Map.{Map}
use ce_pin.Prelude.Map.Entries.{All-insert, All-remove, All-remove_all, All-modify}
use ce_pin.Files.{Bytes}
use ce_pin.Audit.{Hashing}
use ce_pin.Held.{HeldEntry, HeldSet, contains, touch, insert, remove, remove_each, expired}
use ce_pin.Held.Capacity.{remove_each-entries}
use ce_pin.Proto.{OfferReq, AuditReq, StatusReq, RenewReq, ReleaseReq}
use ce_pin.Host.{Host, HostState, Disk, height_or_zero}
use ce_pin.Host.Offer.{OfferCall, Fetched, object, failed, timed_out, settle, commit, drop_expired}
use ce_pin.Host.Requests.Cases.{answer_manifest-elim}
use ce_pin.Proto.{AuditResp}
use ce_pin.Host.Requests.{
  BlobCall, Manifest, manifest_of, answer_manifest, answer_status, renew_entry, do_renew,
  do_release,
}
use ce_pin.Host.Gc.{gc_expired, gc_held, run_gc}
use ce_pin.Host.Gc.Laws.{run_gc-held}
use ce_pin.Host.Steps.Handlers.{release_result-held, released_if-held}
use ce_pin.Host.Steps.Invariant.{refresh_revoked-held, readvertise-held}
use ce_pin.Host.Dispatch.{Gate, Call, Action}
use ce_pin.Host.Tasks.Cases.{dispatch-elim}
use ce_pin.Host.Tasks.{
  Task, arrived, authorized, asking_height, fetching, reading_audit, reading_status, finished,
  refreshing, readvertising, collecting, ended, dispatch, resume, receive,
}
use ce_pin.Host.Tasks.Invariant.{check-held, await_object-held}

module _ (P : Text × HeldEntry → Type 0)
    (by_bytes : (cid : Text) (e e' : HeldEntry)
      → e'.bytes ≡ e.bytes
      → P (cid, e)
      → P (cid, e')) where
  abbrev pub Holds : HeldSet → Type 0
  Holds h = All P h.entries

  same_held : (h h' : HeldSet) → h' ≡ h → Holds h → Holds h'
  same_held h h' e k = subst Holds (sym e) k

  touch-Holds : (h : HeldSet) (cid : Text) (now : ℕ) → Holds h → Holds (touch h cid now)
  unfolding touch
  touch-Holds h cid now k = All-modify P cid _ h.entries (λ j e p. by_bytes j e _ refl p) k

  remove_each-Holds : (cids : List Text) (h : HeldSet) → Holds h → Holds (remove_each cids h)
  remove_each-Holds cids h k =
      subst (All P) (sym (remove_each-entries cids h)) (All-remove_all P cids h.entries k)

  pub drop_expired-Holds :
      (height : ℕ) (s : HostState) → Holds s.held → Holds (drop_expired height s).held
  unfolding drop_expired
  drop_expired-Holds height s k = remove_each-Holds (expired s.held height) s.held k

  run_gc-Holds :
      (host : Host) (answer : Option ℕ) (disk : Disk) (s : HostState)
      → Holds s.held
      → Holds (run_gc host answer disk s).held
  unfolding gc_held gc_expired
  run_gc-Holds host answer disk s k =
      same_held _ _ (run_gc-held host answer disk s) (
        remove_each-Holds _ _ (remove_each-Holds (expired s.held (height_or_zero answer)) s.held k))

  settle-Holds :
      (host : Host) (call : OfferCall) (req : OfferReq) (publisher : Text) (already : Bool)
      (s : HostState) (f : Fetched)
      → ((bytes : Bytes) (e : HeldEntry)
          → f ≡ object bytes
          → e.bytes ≡ length bytes
          → P (req.cid, e))
      → Holds s.held
      → Holds (settle host call req publisher already s f).1.held
  unfolding settle commit insert
  settle-Holds host call req publisher already s failed new k = k
  settle-Holds host call req publisher already s timed_out new k = k
  settle-Holds host call req publisher already s (object bytes) new k =
      elim (Bool-cases (not already && ltb host.cfg.max_object_bytes (length bytes))) [
        | inl big ↦ rw big k
        | inr small ↦ rw small (All-insert P req.cid _ s.held.entries (new bytes _ refl refl) k)
      ]

  answer_manifest-Holds :
      (hs : Hashing) (call : BlobCall) (req : AuditReq) (s : HostState) (m : Option Manifest)
      → Holds s.held
      → Holds (answer_manifest hs call req s m).1.held
  answer_manifest-Holds hs call req s m k =
      answer_manifest-elim (λ (p : AuditResp × HostState). Holds p.1.held) hs call req s m
        (λ reason. k) (λ chunk. touch-Holds s.held req.cid call.now k)

  answer_status-Holds :
      (call : BlobCall) (req : StatusReq) (s : HostState) (m : Option Manifest)
      → Holds s.held
      → Holds (answer_status call req s m).1.held
  answer_status-Holds call req s none k = k
  answer_status-Holds call req s (some m) k = touch-Holds s.held req.cid call.now k

  renew_entry-bytes :
      (req : RenewReq) (now : ℕ) (e : HeldEntry) → (renew_entry req now e).bytes ≡ e.bytes
  unfolding renew_entry
  renew_entry-bytes req now e = refl

  do_renew-Holds :
      (host : Host) (disk : Disk) (now : ℕ) (req : RenewReq) (s : HostState)
      → Holds s.held
      → Holds (do_renew host disk now req s).1.held
  unfolding do_renew
  do_renew-Holds host disk now req s k = elim (Option-cases (Map.lookup req.cid s.held.entries)) [
    | inl gone ↦ rw gone k
    | inr (e, there) ↦ rw there (
        All-modify P req.cid (renew_entry req now) s.held.entries
          (λ j v p. by_bytes j v _ (renew_entry-bytes req now v) p) k)
  ]

  do_release-Holds :
      (host : Host) (disk : Disk) (req : ReleaseReq) (s : HostState)
      → Holds s.held
      → Holds (do_release host disk req s).1.held
  unfolding do_release remove
  do_release-Holds host disk req s k =
      same_held _ _ (released_if-held (contains s.held req.cid) _ _)
        (All-remove P req.cid s.held.entries k)

  module _ (host : Host) (hs : Hashing) (gate : Gate) where
    dispatch-Holds :
        (call : Call) (action : Action) (from_hex : Text) (payload : Bytes) (s : HostState)
        → Holds s.held
        → Holds (dispatch host gate call action from_hex payload s).1.held
    dispatch-Holds call action from_hex payload s k =
        dispatch-elim host gate (λ (u : Task × HostState). Holds u.1.held) call action from_hex
          payload s k (λ req is_offer good held. k) (λ req is_offer good. k)
          (λ req is_audit good held. k) (λ req. k) (λ req is_status good held. k) (λ req. k)
          (λ req is_renew good. do_renew-Holds host call.disk call.now req s k)
          (λ req is_release good.
            same_held _ _
              (release_result-held (do_release host call.disk req s).0
                (do_release host call.disk req s).1)
              (do_release-Holds host call.disk req s k))

    -- What a task brings to the held-set.
    abbrev pub Brings : Task → Type 0
    Brings (fetching call req publisher already_held) =
        (bytes : Bytes) (e : HeldEntry)
        → call.offer.fetched ≡ object bytes
        → e.bytes ≡ length bytes
        → P (req.cid, e)
    Brings _ = Unit {0}

    pub resume-Holds :
        (t : Task) (s : HostState)
        → Brings t
        → Holds s.held
        → Holds (resume host hs gate t s).1.held
    unfolding resume receive
    resume-Holds (arrived r) s b k =
        same_held s.held _ (check-held host hs gate r.call r.from_hex _ _ _ s) k
    resume-Holds (authorized call action from_hex payload) s b k =
        dispatch-Holds call action from_hex payload s k
    resume-Holds (asking_height call req publisher) s b k =
        same_held _ _ (await_object-held host hs gate call req publisher _ _)
          (drop_expired-Holds (height_or_zero call.offer.height) s k)
    resume-Holds (fetching call req publisher already_held) s b k =
        settle-Holds host call.offer req publisher already_held s call.offer.fetched b k
    resume-Holds (reading_audit call req) s b k =
        answer_manifest-Holds hs call.blobs req s (manifest_of call.blobs req.cid) k
    resume-Holds (reading_status call req) s b k =
        answer_status-Holds call.blobs req s (manifest_of call.blobs req.cid) k
    resume-Holds (finished reply) s b k = k
    resume-Holds (refreshing pairs) s b k = same_held s.held _ (refresh_revoked-held hs pairs s) k
    resume-Holds readvertising s b k = same_held s.held _ (readvertise-held s) k
    resume-Holds (collecting height disk) s b k = run_gc-Holds host height disk s k
    resume-Holds ended s b k = k
