-- ===== src/Host/Steps/Handlers.antt =====
-- The handlers of src/host.rs keep the keys of the held-set in order.
use ce_pin.Prelude.{
  Bool, ℕ, sym, subst, ◌≡◌, refl, true, false, none, some, Option, Option-cases, Bool-cases, inl,
  inr,
}
use ce_pin.Prelude.Text.{Text}
use ce_pin.Prelude.Map
use ce_pin.Prelude.Map.Laws.{modify-IsMap}
use ce_pin.Files.{Bytes}
use ce_pin.Audit.{Hashing}
use ce_pin.Held.{contains}
use ce_pin.Held.Capacity.{IsHeldSet, touch-IsHeldSet, remove-IsHeldSet}
use ce_pin.Held.Storage.{SaveResult, saved, save_failed}
use ce_pin.Proto.{ReleaseResp, AuditReq, StatusReq, RenewReq, ReleaseReq}
use ce_pin.Host.{Host, HostState, Disk}
use ce_pin.Host.Offer.Capacity.{IsHostState, Keeps, do_offer-IsHostState}
use ce_pin.Host.Requests.Cases.{answer_manifest-elim}
use ce_pin.Proto.{AuditResp}
use ce_pin.Host.Requests.{
  BlobCall, Manifest, manifest_of, answer_manifest, do_audit, answer_status, do_status, renew_entry,
  do_renew, do_release, released_if,
}
use ce_pin.Host.Dispatch.{
  Gate, Call, Action, run_action, release_result, is_authorized, check_and_run,
}
use ce_pin.Host.Steps.{Event, request, timer}

-- The other tasks keep the held-set in order wherever a request waits for the node.
pub record Kept (call : Call) : Type 0 where
  pub authorizing : Keeps call.after_authorize
  pub offering : Keeps call.offer.while_status
  pub fetching : Keeps call.offer.while_fetching
  pub reading : Keeps call.blobs.while_reading

abbrev pub IsKept : Event → Type 0
IsKept (request call topic from_hex payload_hex) = Kept call
IsKept (timer tick) = Unit

pub answer_manifest-IsHostState :
    (hs : Hashing) (call : BlobCall) (req : AuditReq) (s : HostState) (m : Option Manifest)
    → IsHostState s
    → IsHostState (answer_manifest hs call req s m).1
answer_manifest-IsHostState hs call req s m h =
    answer_manifest-elim (λ (p : AuditResp × HostState). IsHostState p.1) hs call req s m
      (λ reason. h) (λ chunk. touch-IsHeldSet s.held req.cid call.now h)

do_audit-IsHostState :
    (hs : Hashing) (call : BlobCall) (req : AuditReq)
    → Keeps call.while_reading
    → (s : HostState) → IsHostState s
    → IsHostState (do_audit hs call req s).1
unfolding do_audit
do_audit-IsHostState hs call req k s h = elim (Bool-cases (contains s.held req.cid)) [
  | inl held ↦ rw held (
      answer_manifest-IsHostState hs call req (call.while_reading s) (manifest_of call req.cid)
        (k s h))
  | inr unheld ↦ rw unheld h
]

pub answer_status-IsHostState :
    (call : BlobCall) (req : StatusReq) (s : HostState) (m : Option Manifest)
    → IsHostState s
    → IsHostState (answer_status call req s m).1
answer_status-IsHostState call req s none h = h
answer_status-IsHostState call req s (some m) h = touch-IsHeldSet s.held req.cid call.now h

do_status-IsHostState :
    (call : BlobCall) (req : StatusReq)
    → Keeps call.while_reading
    → (s : HostState) → IsHostState s
    → IsHostState (do_status call req s).1
unfolding do_status
do_status-IsHostState call req k s h = elim (Bool-cases (contains s.held req.cid)) [
  | inl held ↦
      rw held (
        answer_status-IsHostState call req (call.while_reading s) (manifest_of call req.cid)
          (k s h))
  | inr unheld ↦ rw unheld h
]

pub do_renew-IsHostState :
    (host : Host) (disk : Disk) (now : ℕ) (req : RenewReq) (s : HostState)
    → IsHostState s
    → IsHostState (do_renew host disk now req s).1
unfolding do_renew
do_renew-IsHostState host disk now req s h =
    elim (Option-cases (Map.lookup req.cid s.held.entries)) [
      | inl gone ↦ rw gone h
      | inr (e, there) ↦ rw there (modify-IsMap req.cid (renew_entry req now) s.held.entries h)
    ]

pub released_if-held :
    (was_held : Bool) (r : SaveResult) (s : HostState)
    → (released_if was_held (r, s)).1.held ≡ s.held
released_if-held was_held save_failed s = refl
released_if-held true saved s = refl
released_if-held false saved s = refl

pub release_result-held :
    (r : Option ReleaseResp) (s : HostState) → (release_result (r, s)).1.held ≡ s.held
release_result-held none s = refl
release_result-held (some r) s = refl

pub do_release-IsHostState :
    (host : Host) (disk : Disk) (req : ReleaseReq) (s : HostState)
    → IsHostState s
    → IsHostState (do_release host disk req s).1
unfolding do_release
do_release-IsHostState host disk req s h =
    subst IsHeldSet (sym (released_if-held (contains s.held req.cid) _ _))
      (remove-IsHeldSet s.held req.cid h)

run_action-IsHostState :
    (host : Host) (hs : Hashing) (gate : Gate) (call : Call) (action : Action) (from_hex : Text)
    (payload : Bytes)
    → Kept call
    → (s : HostState) → IsHostState s
    → IsHostState (run_action host hs gate call action from_hex payload s).1
unfolding run_action
run_action-IsHostState host hs gate call Action.offer from_hex payload k s h =
    elim (Option-cases (gate.offer_req payload)) [
      | inl bad ↦ rw bad h
      | inr (req, good) ↦
          rw good (do_offer-IsHostState host call.offer req from_hex k.offering k.fetching s h)
    ]
run_action-IsHostState host hs gate call Action.audit from_hex payload k s h =
    elim (Option-cases (gate.audit_req payload)) [
      | inl bad ↦ rw bad h
      | inr (req, good) ↦ rw good (do_audit-IsHostState hs call.blobs req k.reading s h)
    ]
run_action-IsHostState host hs gate call Action.status from_hex payload k s h =
    elim (Option-cases (gate.status_req payload)) [
      | inl bad ↦ rw bad h
      | inr (req, good) ↦ rw good (do_status-IsHostState call.blobs req k.reading s h)
    ]
run_action-IsHostState host hs gate call Action.renew from_hex payload k s h =
    elim (Option-cases (gate.renew_req payload)) [
      | inl bad ↦ rw bad h
      | inr (req, good) ↦ rw good (do_renew-IsHostState host call.disk call.now req s h)
    ]
run_action-IsHostState host hs gate call Action.release from_hex payload k s h =
    elim (Option-cases (gate.release_req payload)) [
      | inl bad ↦ rw bad h
      | inr (req, good) ↦ rw good (
          subst IsHeldSet
            (sym (
              release_result-held (do_release host call.disk req s).0
                (do_release host call.disk req s).1))
            (do_release-IsHostState host call.disk req s h))
    ]

pub check_and_run-IsHostState :
    (host : Host) (hs : Hashing) (gate : Gate) (call : Call) (from_hex : Text)
    (payload from : Option Bytes) (action : Option Action)
    → Kept call
    → (s : HostState) → IsHostState s
    → IsHostState (check_and_run host hs gate call from_hex payload from action s).1
unfolding check_and_run
check_and_run-IsHostState host hs gate call from_hex none from action k s h = h
check_and_run-IsHostState host hs gate call from_hex (some payload) none action k s h = h
check_and_run-IsHostState host hs gate call from_hex (some payload) (some from) none k s h = h
check_and_run-IsHostState host hs gate call from_hex (some payload) (some from) (some action) k s
      h =
    elim (Option-cases (gate.caps_of payload)) [
      | inl no_caps ↦ rw (no_caps, check_and_run) h
      | inr (caps, has_caps) ↦ elim (Option-cases (gate.decode_chain caps)) [
        | inl no_chain ↦ rw (has_caps, no_chain, check_and_run) h
        | inr (chain, has_chain) ↦
            elim (Bool-cases (is_authorized gate host call action from chain s)) [
              | inl yes' ↦
                  rw (has_caps, has_chain, yes', check_and_run)
                    (run_action-IsHostState host hs gate call action from_hex payload k
                      (call.after_authorize s) (k.authorizing s h))
              | inr no' ↦ rw (has_caps, has_chain, no', check_and_run) h
            ]
      ]
    ]
