-- ===== src/Host/Tasks/Counters/Replies.antt =====
-- The handlers of src/host.rs count the replies that they make, and leave the revoked set alone.
use ce_pin.Prelude.{
  true, false, ◌∷◌, [], ℕ, ◌≡◌, refl, inl, inr, Bool, not, ◌&&◌, ltb, length, Option, none, some,
  List, Option-cases, Bool-cases,
}
use ce_pin.Prelude.Text.{Text}
use ce_pin.Prelude.Map
use ce_pin.Prelude.Map.{Map}
use ce_pin.Audit.{Hashing}
use ce_pin.Held.{contains, remove}
use ce_pin.Proto.{OfferReq, AuditReq, StatusReq, RenewReq, ReleaseReq}
use ce_pin.Host.{Host, HostState, Disk}
use ce_pin.Host.Offer.{OfferCall, Fetched, object, failed, timed_out, settle, commit}
use ce_pin.Host.Requests.Cases.{answer_manifest-elim}
use ce_pin.Proto.{AuditResp}
use ce_pin.Host.Requests.{BlobCall, Manifest, answer_manifest, answer_status, do_renew, do_release}
use ce_pin.Host.Dispatch.{Call}
use ce_pin.Host.Tasks.{Task, refreshing}
use ce_pin.Config.{Admission, admitted, rejected}
use ce_pin.Held.Storage.{SaveResult, saved, save_failed}
use ce_pin.Metrics.{HostMetrics}
use ce_pin.Host.{persist}
use ce_pin.Host.Requests.{released_if}
use ce_pin.Host.Dispatch.{release_result, offer_reply, audit_reply, status_reply, renew_reply}
use ce_pin.Host.Tasks.{finish, finish_reply, await_object}
use ce_pin.Host.Tasks.Counters.{note_of, note}
use ce_pin.Host.Gc.{advertise_each, refresh_revoked}

-- A task that is not about to write the revoked set.
abbrev pub NotRefreshing : Task → Type 0
NotRefreshing (refreshing pairs) = ⊥
NotRefreshing _ = Unit {0}

-- The counters after a turn are those before it and the one of its reply.
abbrev pub Counts : HostMetrics → Task × HostState → Type 0
Counts m (t, s) = s.metrics ≡ note (note_of t) m

-- So they are, and the revoked set is what it was.
abbrev pub Noted : HostState → Task × HostState → Type 0
Noted before (t, s) =
    Counts before.metrics (t, s) × ((s.revoked ≡ before.revoked) × NotRefreshing t)

pub settle-Noted :
    (host : Host) (call : OfferCall) (req : OfferReq) (publisher : Text) (already : Bool)
    (s : HostState) (f : Fetched)
    → Noted s (finish offer_reply (settle host call req publisher already s f))
unfolding settle commit persist
settle-Noted host call req publisher already s failed = (refl, (refl, tt))
settle-Noted host call req publisher already s timed_out = (refl, (refl, tt))
settle-Noted host call req publisher already s (object bytes) =
    elim (Bool-cases (not already && ltb host.cfg.max_object_bytes (length bytes))) [
      | inl big ↦ rw big (refl, (refl, tt))
      | inr small ↦ rw small (refl, (refl, tt))
    ]

pub answer_manifest-Noted :
    (hs : Hashing) (call : BlobCall) (req : AuditReq) (s : HostState) (m : Option Manifest)
    → Noted s (finish audit_reply (answer_manifest hs call req s m))
answer_manifest-Noted hs call req s m =
    answer_manifest-elim (λ (p : AuditResp × HostState). Noted s (finish audit_reply p)) hs call req
      s m (λ reason. (refl, (refl, tt))) (λ chunk. (refl, (refl, tt)))

pub answer_status-Noted :
    (call : BlobCall) (req : StatusReq) (s : HostState) (m : Option Manifest)
    → Noted s (finish status_reply (answer_status call req s m))
answer_status-Noted call req s none = (refl, (refl, tt))
answer_status-Noted call req s (some m) = (refl, (refl, tt))

pub do_renew-Noted :
    (host : Host) (disk : Disk) (now : ℕ) (req : RenewReq) (s : HostState)
    → Noted s (finish renew_reply (do_renew host disk now req s))
unfolding do_renew persist
do_renew-Noted host disk now req s = elim (Option-cases (Map.lookup req.cid s.held.entries)) [
  | inl gone ↦ rw gone (refl, (refl, tt))
  | inr (e, there) ↦ rw there (refl, (refl, tt))
]

released_if-Noted :
    (was_held : Bool) (r : SaveResult) (s : HostState)
    → Noted s (finish_reply (release_result (released_if was_held (r, s))))
released_if-Noted true saved s = (refl, (refl, tt))
released_if-Noted false saved s = (refl, (refl, tt))
released_if-Noted true save_failed s = (refl, (refl, tt))
released_if-Noted false save_failed s = (refl, (refl, tt))

pub do_release-Noted :
    (host : Host) (disk : Disk) (req : ReleaseReq) (s : HostState)
    → Noted s (finish_reply (release_result (do_release host disk req s)))
unfolding do_release persist
do_release-Noted host disk req s =
    released_if-Noted (contains s.held req.cid)
      (persist host disk (record s { held = (remove s.held req.cid).0 })).0
      (persist host disk (record s { held = (remove s.held req.cid).0 })).1

pub refresh_revoked-metrics :
    (hs : Hashing) (pairs : Option (List (Text × ℕ))) (s : HostState)
    → (refresh_revoked hs pairs s).metrics ≡ s.metrics
unfolding refresh_revoked
refresh_revoked-metrics hs none s = refl
refresh_revoked-metrics hs (some pairs) s = refl

pub advertise_each-rest :
    (cids : List Text) (s : HostState)
    → ((advertise_each cids s).metrics ≡ s.metrics) × ((advertise_each cids s).revoked ≡ s.revoked)
unfolding advertise_each
advertise_each-rest [] s = (refl, refl)
advertise_each-rest (cid ∷ cids) s = advertise_each-rest cids _

pub await_object-Noted :
    (call : Call) (req : OfferReq) (publisher : Text) (a : Admission) (s : HostState)
    → Noted s (await_object call req publisher (a, s))
await_object-Noted call req publisher (rejected r) s = (refl, (refl, tt))
await_object-Noted call req publisher admitted s = (refl, (refl, tt))
