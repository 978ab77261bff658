-- ===== src/Host/Dispatch.antt =====
-- `handle` and `handle_inner` of src/host.rs: authorize a request by its capability chain, then
-- dispatch it. The crates for capabilities and JSON are parameters; a reply is the value that is
-- serialized.
pub mod Abilities
pub mod Authority
use ce_pin.Prelude.{
  ℕ, ◌≡◌, Bool, true, false, ◌&&◌, Option, none, some, List, [], ◌∷◌, any, length, ◌==◌,
  if◌then◌else◌, unwrap_or,
}
use ce_pin.Prelude.Text.{Text, lit, text_eq, strip_prefix}
use ce_pin.Files.{Bytes}
use ce_pin.Audit.{Hashing}
use ce_pin.Metrics.{auth_deny}
use ce_pin.Proto.{
  topic_prefix, ability_store, ability_read, ability_audit, ability_release, ability_renew,
  OfferReq, OfferResp, AuditReq, AuditResp, StatusReq, StatusResp, RenewReq, RenewResp, ReleaseReq,
  ReleaseResp,
}
use ce_pin.Host.{Host, HostState, Interference, Disk, count}
use ce_pin.Host.Offer.{OfferCall, do_offer}
use ce_pin.Host.Requests.{BlobCall, do_audit, do_status, do_renew, do_release}

-- `ce_iam_core`, and `serde_json` at the types of the requests.
pub record Gate : Type 1 where
  pub Chain : Type 0
  pub decode_chain : Text → Option Chain
  pub authorize : Bytes → List Bytes → ℕ → Bytes → Text → Chain → (Bytes → ℕ → Bool) → Bool
  pub caps_of : Bytes → Option Text
  pub offer_req : Bytes → Option OfferReq
  pub audit_req : Bytes → Option AuditReq
  pub status_req : Bytes → Option StatusReq
  pub renew_req : Bytes → Option RenewReq
  pub release_req : Bytes → Option ReleaseReq

-- What the world answers while one request is handled.
pub record Call : Type 0 where
  pub now : ℕ
  pub after_authorize : Interference
  pub offer : OfferCall
  pub blobs : BlobCall
  pub disk : Disk

pub data Action : Type 0 where
  offer audit status renew release : Action

unfoldable pub action_of : Text → Option Action
action_of name =
    if text_eq name (lit "offer")
    then some offer
    else if text_eq name (lit "audit")
    then some audit
    else if text_eq name (lit "status")
    then some status
    else if text_eq name (lit "renew")
    then some renew
    else if text_eq name (lit "release")
    then some release
    else none

unfoldable pub ability_of : Action → Text
ability_of offer = ability_store
ability_of audit = ability_audit
ability_of status = ability_read
ability_of renew = ability_renew
ability_of release = ability_release

pub data Failure : Type 0 where
  bad_payload bad_sender unknown_action missing_caps bad_capability denied bad_request save_error :
      Failure

-- `negative` is the one reply with every flag false.
pub data Reply : Type 0 where
  offer_reply : OfferResp → Reply
  audit_reply : AuditResp → Reply
  status_reply : StatusResp → Reply
  renew_reply : RenewResp → Reply
  release_reply : ReleaseResp → Reply
  negative : Failure → Reply

abbrev fail : Failure → HostState → Reply × HostState
fail f s = (negative f, s)

abbrev reply_with {ℓ} : {A : Type ℓ} → (A → Reply) → A × HostState → Reply × HostState
reply_with f (a, s) = (f a, s)

abbrev pub release_result : Option ReleaseResp × HostState → Reply × HostState
release_result (none, s) = (negative save_error, s)
release_result (some r, s) = (release_reply r, s)

abbrev parsed {ℓ} :
    {A : Type ℓ} → Option A → (A → HostState → Reply × HostState) → HostState → Reply × HostState
parsed none f s = (negative bad_request, s)
parsed (some req) f s = f req s

-- The action, once it is authorized.
unfoldable pub run_action :
    Host → Hashing → Gate → Call → Action → Text → Bytes → HostState → Reply × HostState
run_action host hs gate call offer from_hex payload s =
    parsed (gate.offer_req payload)
      (λ req t. reply_with offer_reply (do_offer host call.offer req from_hex t)) s
run_action host hs gate call audit from_hex payload s =
    parsed (gate.audit_req payload) (λ req t. reply_with audit_reply (do_audit hs call.blobs req t))
      s
run_action host hs gate call status from_hex payload s =
    parsed (gate.status_req payload) (λ req t. reply_with status_reply (do_status call.blobs req t))
      s
run_action host hs gate call renew from_hex payload s =
    parsed (gate.renew_req payload)
      (λ req t. reply_with renew_reply (do_renew host call.disk call.now req t)) s
run_action host hs gate call release from_hex payload s =
    parsed (gate.release_req payload) (λ req t. release_result (do_release host call.disk req t)) s

unfoldable pub is_revoked : List (Bytes × ℕ) → Bytes → ℕ → Bool
is_revoked revoked issuer nonce = any (λ r. text_eq r.0 issuer && r.1 == nonce) revoked

-- Whether the chain of a request grants the ability of its action to its sender.
unfoldable pub is_authorized :
    (gate : Gate) → Host → Call → Action → Bytes → gate.Chain → HostState → Bool
unfolding is_revoked ability_of
is_authorized gate host call action from chain s =
    gate.authorize host.host_id host.roots call.now from (ability_of action) chain
      (is_revoked s.revoked)

abbrev pub sender_key : Option Bytes → Option Bytes
sender_key none = none
sender_key (some bytes) = if length bytes == 32 then some bytes else none

-- From the parsed parts of the request on; a part that is missing is its failure, in this order.
unfoldable pub check_and_run :
    Host
    → Hashing
    → (gate : Gate) → Call
    → Text
    → Option Bytes
    → Option Bytes
    → Option Action
    → HostState
    → Reply × HostState
unfolding is_authorized run_action
check_and_run host hs gate call from_hex none from action s = fail bad_payload s
check_and_run host hs gate call from_hex (some payload) none action s = fail bad_sender s
check_and_run host hs gate call from_hex (some payload) (some from) none s = fail unknown_action s
check_and_run host hs gate call from_hex (some payload) (some from) (some action) s =
    elim (gate.caps_of payload) [
      | none ↦ fail missing_caps s
      | some caps ↦ elim (gate.decode_chain caps) [
        | none ↦ fail bad_capability s
        | some chain ↦
            if is_authorized gate host call action from chain s
            then run_action host hs gate call action from_hex payload (call.after_authorize s)
            else fail denied (count auth_deny s)
      ]
    ]

-- Topic, sender and payload as the transport hands them over.
unfoldable pub handle :
    Host → Hashing → Gate → Call → Text → Text → Text → HostState → Reply × HostState
unfolding check_and_run action_of
handle host hs gate call topic from_hex payload_hex s =
    let name = unwrap_or (strip_prefix topic_prefix topic) topic in
    check_and_run host hs gate call from_hex (hs.decode payload_hex)
      (sender_key (hs.decode from_hex)) (action_of name) s
