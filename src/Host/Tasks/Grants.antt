-- ===== src/Host/Tasks/Grants.antt =====
-- What stands behind the replies of src/host.rs under any schedule: the grant of a sender, and what
-- the host held.
use ce_pin.Prelude.{
  ◌≡◌, refl, inl, inr, true, false, not, ◌&&◌, ltb, length, Bool, Option, none, some, Bool-cases,
  Option-cases,
}
use ce_pin.Prelude.Text.{Text}
use ce_pin.Prelude.Map
use ce_pin.Files.{Bytes}
use ce_pin.Audit.{Hashing}
use ce_pin.Held.{contains, remove}
use ce_pin.Held.Storage.{SaveResult, saved, save_failed}
use ce_pin.Proto.{OfferReq, OfferResp, AuditReq, StatusReq, RenewReq, ReleaseReq}
use ce_pin.Host.{Host, HostState, persist}
use ce_pin.Host.Offer.{Fetched, object, failed, timed_out, settle, commit}
use ce_pin.Host.Requests.{
  Manifest, manifest_of, answer_manifest, answer_status, do_renew, do_release, released_if,
}
use ce_pin.Host.Requests.Possession.{Proved, answer_manifest-Proved}
use ce_pin.Prelude.{unwrap_or}
use ce_pin.Prelude.Text.{strip_prefix}
use ce_pin.Proto.{topic_prefix}
use ce_pin.Host.Dispatch.Abilities.{name_of, Grants}
use ce_pin.Host.Tasks.{Request}
use ce_pin.Host.Dispatch.{
  Gate, Call, Action, Reply, offer_reply, audit_reply, status_reply, renew_reply, release_reply,
  negative, release_result, sender_key,
}

-- The reply says that what was asked for is done or so.
abbrev pub Yes : Reply → Type 0
Yes (offer_reply r) = r.accepted ≡ true
Yes (audit_reply r) = (proof : Text) × (r.proof ≡ some proof)
Yes (status_reply r) = r.held ≡ true
Yes (renew_reply r) = r.renewed ≡ true
Yes (release_reply r) = r.released ≡ true
Yes (negative f) = ⊥

module _ (host : Host) (hs : Hashing) (gate : Gate) (P : HostState → Type 0)
    (Q : Request → Type 0) where
  -- A request that `Q` holds of carries the payload and names the action, and its sender has shown in
  -- it a chain that grants the ability for that, with the revoked capabilities of a state that `P`
  -- holds of.
  pub record Grant (call : Call) (action : Action) (from_hex : Text) (payload : Bytes)
      : Type 0 where
    pub request : Request
    pub sent : Q request
    pub is_call : request.call ≡ call
    pub is_sender : request.from_hex ≡ from_hex
    pub is_payload : hs.decode request.payload_hex ≡ some payload
    pub is_action :
        unwrap_or (strip_prefix topic_prefix request.topic) request.topic ≡ name_of action
    pub from : Bytes
    pub has_sender : sender_key (hs.decode from_hex) ≡ some from
    pub caps : Text
    pub has_caps : gate.caps_of payload ≡ some caps
    pub chain : gate.Chain
    pub has_chain : gate.decode_chain caps ≡ some chain
    pub state : HostState
    pub past : P state
    pub grant : Grants gate host call action from chain state

  -- A payload that parses as the request, and its grant.
  pub record Behind {Req : Type 0} (parse : Bytes → Option Req) (action : Action) (call : Call)
      (req : Req) : Type 0 where
    pub from_hex : Text
    pub payload : Bytes
    pub parses : parse payload ≡ some req
    pub granted : Grant call action from_hex payload

  abbrev pub OfferGrant : Call → OfferReq → Text → Type 0
  OfferGrant call req publisher =
      (payload : Bytes) × (gate.offer_req payload ≡ some req)
      × Grant call Action.offer publisher payload

  -- The CID was held in a state that `P` holds of.
  abbrev pub HeldAt : Text → Type 0
  HeldAt cid = (s : HostState) × P s × (contains s.held cid ≡ true)

  -- A request under a grant of which the rest holds.
  abbrev pub Asked : {Req : Type 0} → (Bytes → Option Req) → Action → (Call → Req → Type 0) → Type 0
  Asked {Req} parse action Rest =
      (call : Call) × (req : Req) × Behind parse action call req × Rest call req

  -- The object that the reply to an offer tells of was fetched.
  abbrev pub Brought : OfferResp → Call → OfferReq → Type 0
  Brought r call req =
      (bytes : Bytes) × (call.offer.fetched ≡ object bytes) × (r.stored_bytes ≡ length bytes)

  -- What stands behind a reply that says yes.
  abbrev pub Backing : Reply → Type 0
  Backing (offer_reply r) = Asked gate.offer_req Action.offer (Brought r)
  Backing (audit_reply r) =
      (proof : Text) × (r.proof ≡ some proof)
      × Asked gate.audit_req Action.audit
          (λ call req. (s : HostState) × P s × Proved hs call.blobs req s proof)
  Backing (status_reply r) = Asked gate.status_req Action.status (λ call req. HeldAt req.cid)
  Backing (renew_reply r) = Asked gate.renew_req Action.renew (λ call req. HeldAt req.cid)
  Backing (release_reply r) = Asked gate.release_req Action.release (λ call req. HeldAt req.cid)
  Backing (negative f) = ⊥

  abbrev pub Backed : Reply → Type 0
  Backed (negative f) = Unit {0}
  Backed (offer_reply r) = Yes (offer_reply r) → Backing (offer_reply r)
  Backed (audit_reply r) = Yes (audit_reply r) → Backing (audit_reply r)
  Backed (status_reply r) = Yes (status_reply r) → Backing (status_reply r)
  Backed (renew_reply r) = Yes (renew_reply r) → Backing (renew_reply r)
  Backed (release_reply r) = Yes (release_reply r) → Backing (release_reply r)

  pub Backed-Yes : (reply : Reply) → Backed reply → Yes reply → Backing reply
  Backed-Yes (offer_reply r) b yes' = b yes'
  Backed-Yes (audit_reply r) b yes' = b yes'
  Backed-Yes (status_reply r) b yes' = b yes'
  Backed-Yes (renew_reply r) b yes' = b yes'
  Backed-Yes (release_reply r) b yes' = b yes'
  Backed-Yes (negative f) b yes' = yes'

  pub settle-Backed :
      (call : Call) (req : OfferReq) (publisher : Text) (already : Bool) (s : HostState)
      (f : Fetched)
      → call.offer.fetched ≡ f
      → OfferGrant call req publisher
      → Backed (offer_reply (settle host call.offer req publisher already s f).0)
  unfolding settle commit
  settle-Backed call req publisher already s failed got g = λ yes'. cc
  settle-Backed call req publisher already s timed_out got g = λ yes'. cc
  settle-Backed call req publisher already s (object bytes) got (payload, parses, granted) =
      let behind : Behind gate.offer_req Action.offer call req = record {
        from_hex = publisher;
        payload = payload;
        parses = parses;
        granted = granted;
      } in
      elim (Bool-cases (not already && ltb host.cfg.max_object_bytes (length bytes))) [
        | inl big ↦ rw big (λ yes'. cc)
        | inr small ↦ rw small (λ yes'. (call, req, behind, (bytes, got, refl)))
      ]

  pub answer_manifest-Backed :
      (call : Call) (req : AuditReq) (s : HostState)
      → Behind gate.audit_req Action.audit call req
      → HeldAt req.cid
      → Backed
          (audit_reply (answer_manifest hs call.blobs req s (manifest_of call.blobs req.cid)).0)
  answer_manifest-Backed call req s b (held_in, past, held) (proof, e) = (
    proof,
    e,
    (
      call,
      req,
      b,
      (held_in, past, answer_manifest-Proved hs call.blobs req held_in s proof held e),
    ),
  )

  pub answer_status-Backed :
      (call : Call) (req : StatusReq) (s : HostState) (m : Option Manifest)
      → Behind gate.status_req Action.status call req
      → HeldAt req.cid
      → Backed (status_reply (answer_status call.blobs req s m).0)
  answer_status-Backed call req s none b h = λ yes'. cc
  answer_status-Backed call req s (some m) b h = λ yes'. (call, req, b, h)

  pub do_renew-Backed :
      (call : Call) (req : RenewReq) (s : HostState)
      → P s
      → Behind gate.renew_req Action.renew call req
      → Backed (renew_reply (do_renew host call.disk call.now req s).0)
  unfolding do_renew contains Map.has_key
  do_renew-Backed call req s p b = elim (Option-cases (Map.lookup req.cid s.held.entries)) [
    | inl gone ↦ rw gone (λ yes'. cc)
    | inr (e, there) ↦ rw there (λ yes'. (call, req, b, (s, p, rw there refl)))
  ]

  released_if-Backed :
      (call : Call) (req : ReleaseReq) (s : HostState) (was_held : Bool) (r : SaveResult)
      (t : HostState)
      → P s
      → contains s.held req.cid ≡ was_held
      → Behind gate.release_req Action.release call req
      → Backed (release_result (released_if was_held (r, t))).0
  released_if-Backed call req s true saved t p h b = λ yes'. (call, req, b, (s, p, h))
  released_if-Backed call req s false saved t p h b = λ yes'. cc
  released_if-Backed call req s true save_failed t p h b = tt
  released_if-Backed call req s false save_failed t p h b = tt

  pub do_release-Backed :
      (call : Call) (req : ReleaseReq) (s : HostState)
      → P s
      → Behind gate.release_req Action.release call req
      → Backed (release_result (do_release host call.disk req s)).0
  unfolding do_release
  do_release-Backed call req s p b =
      released_if-Backed call req s (contains s.held req.cid)
        (persist host call.disk (record s { held = (remove s.held req.cid).0 })).0
        (persist host call.disk (record s { held = (remove s.held req.cid).0 })).1 p refl b
