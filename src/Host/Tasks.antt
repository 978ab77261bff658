-- ===== src/Host/Tasks.antt =====
-- The host of src/host.rs as tasks that run at once: the handlers of requests and the passes of
-- `maintenance_loop`, each cut where it waits for the node. A turn of a task is what it does from one
-- wait to the next; every turn takes the lock on the held-set at most once. The counters and the list
-- of advertisements, which no task reads, are written in the turn that leads to them.
pub mod Cases
pub mod Answers
pub mod Order
pub mod Invariant
pub mod Breaking
pub mod Grants
pub mod Sanctioned
pub mod Promise
pub mod Truthful
pub mod Stored
pub mod Race
pub mod Budget
pub mod Counters
pub mod Revocation
use ce_pin.Prelude.{
  ℕ, suc, zero, ◌==◌, Bool, true, false, Option, none, some, List, [], ◌∷◌, ◌++◌, get_elem?, set,
  if◌then◌else◌, unwrap_or,
}
use ce_pin.Prelude.Text.{Text, strip_prefix}
use ce_pin.Files.{Bytes}
use ce_pin.Audit.{Hashing}
use ce_pin.Config.{Admission, admitted, rejected}
use ce_pin.Held.{contains}
use ce_pin.Metrics.{auth_deny, offer_declined, audit_failed}
use ce_pin.Proto.{
  OfferReq, OfferResp, AuditReq, AuditResp, StatusReq, StatusResp, topic_prefix, declined,
  not_held_locally,
}
use ce_pin.Host.{Host, HostState, Disk, count}
use ce_pin.Host.Offer.{refuse, admission_at, settle}
use ce_pin.Host.Requests.{
  audit_held_locally, no_proof, answer_manifest, answer_status, manifest_of, do_renew, do_release,
}
use ce_pin.Host.Gc.{Tick, every_10s, every_30s, refresh_revoked, readvertise, run_gc}
use ce_pin.Host.Dispatch.{
  Gate, Call, Action, offer, audit, status, renew, release, Failure, bad_payload, bad_sender,
  unknown_action, missing_caps, bad_capability, denied, bad_request, Reply, offer_reply,
  audit_reply, status_reply, renew_reply, negative, release_result, is_authorized, sender_key,
  action_of,
}

-- A request as the transport hands it over; of `call` only the answers of the world are used.
pub record Request : Type 0 where
  pub call : Call
  pub topic : Text
  pub from_hex : Text
  pub payload_hex : Text

-- Where a task stands: what it does when it has its next turn.
pub data Task : Type 0 where
  -- waits for the lock on the revoked set
  arrived : Request → Task
  -- is authorized, and waits for the lock on the held-set
  authorized : Call → Action → Text → Bytes → Task
  -- `do_offer` waits for the height, or for the object
  asking_height : Call → OfferReq → Text → Task
  fetching : Call → OfferReq → Text → Bool → Task
  -- `do_audit` and `do_status` wait for blobs
  reading_audit : Call → AuditReq → Task
  reading_status : Call → StatusReq → Task
  finished : Reply → Task
  -- the passes of `maintenance_loop`
  refreshing : Option (List (Text × ℕ)) → Task
  readvertising : Task
  collecting : Option ℕ → Disk → Task
  ended : Task

abbrev pub finish {ℓ} : {A : Type ℓ} → (A → Reply) → A × HostState → Task × HostState
finish f (a, s) = (finished (f a), s)

abbrev pub turn_away : Failure → HostState → Task × HostState
turn_away f s = (finished (negative f), s)

-- The gate of `handle_inner`, up to the dispatch.
unfoldable pub check :
    Host
    → (gate : Gate) → Call
    → Text
    → Option Bytes
    → Option Bytes
    → Option Action
    → HostState
    → Task × HostState
unfolding is_authorized
check host gate call from_hex none from action s = turn_away bad_payload s
check host gate call from_hex (some payload) none action s = turn_away bad_sender s
check host gate call from_hex (some payload) (some from) none s = turn_away unknown_action s
check host gate call from_hex (some payload) (some from) (some action) s =
    elim (gate.caps_of payload) [
      | none ↦ turn_away missing_caps s
      | some caps ↦ elim (gate.decode_chain caps) [
        | none ↦ turn_away bad_capability s
        | some chain ↦
            if is_authorized gate host call action from chain s
            then (authorized call action from_hex payload, s)
            else turn_away denied (count auth_deny s)
      ]
    ]

unfoldable pub receive : Host → Hashing → Gate → Request → HostState → Task × HostState
unfolding check action_of
receive host hs gate r s =
    check host gate r.call r.from_hex (hs.decode r.payload_hex) (sender_key (hs.decode r.from_hex))
      (action_of (unwrap_or (strip_prefix topic_prefix r.topic) r.topic)) s

-- The first look at the held-set: `do_offer`, `do_audit` and `do_status` up to their first wait.
unfoldable pub begin_offer : Call → OfferReq → Text → HostState → Task × HostState
begin_offer call req publisher s =
    if contains s.held req.cid
    then (fetching call req publisher true, s)
    else (asking_height call req publisher, s)

unfoldable pub begin_audit : Call → AuditReq → HostState → Task × HostState
unfolding audit_held_locally
begin_audit call req s =
    if audit_held_locally s.held req.cid
    then (reading_audit call req, s)
    else (finished (audit_reply (no_proof not_held_locally)), count audit_failed s)

unfoldable pub begin_status : Call → StatusReq → HostState → Task × HostState
begin_status call req s =
    if contains s.held req.cid
    then (reading_status call req, s)
    else (finished (status_reply (record { held = false; bytes = 0 })), s)

abbrev pub parsed {ℓ} :
    {A : Type ℓ} → Option A → (A → HostState → Task × HostState) → HostState → Task × HostState
parsed none f s = turn_away bad_request s
parsed (some req) f s = f req s

abbrev pub finish_reply : Reply × HostState → Task × HostState
finish_reply (reply, s) = (finished reply, s)

-- The dispatch. A renewal and a release hold the lock to their end.
unfoldable pub dispatch : Host → Gate → Call → Action → Text → Bytes → HostState → Task × HostState
unfolding begin_offer begin_audit begin_status
dispatch host gate call offer from_hex payload s =
    parsed (gate.offer_req payload) (λ req t. begin_offer call req from_hex t) s
dispatch host gate call audit from_hex payload s =
    parsed (gate.audit_req payload) (begin_audit call) s
dispatch host gate call status from_hex payload s =
    parsed (gate.status_req payload) (begin_status call) s
dispatch host gate call renew from_hex payload s =
    parsed (gate.renew_req payload)
      (λ req t. finish renew_reply (do_renew host call.disk call.now req t)) s
dispatch host gate call release from_hex payload s =
    parsed (gate.release_req payload)
      (λ req t. finish_reply (release_result (do_release host call.disk req t))) s

-- `do_offer` from the height on.
abbrev pub await_object : Call → OfferReq → Text → Admission × HostState → Task × HostState
await_object call req publisher (rejected r, s) =
    (finished (offer_reply (refuse (declined r))), count offer_declined s)
await_object call req publisher (admitted, s) = (fetching call req publisher false, s)

-- One turn of a task.
unfoldable pub resume : Host → Hashing → Gate → Task → HostState → Task × HostState
unfolding receive dispatch
resume host hs gate (arrived r) s = receive host hs gate r s
resume host hs gate (authorized call action from_hex payload) s =
    dispatch host gate call action from_hex payload s
resume host hs gate (asking_height call req publisher) s =
    await_object call req publisher (admission_at host call.offer.height req s)
resume host hs gate (fetching call req publisher already_held) s =
    finish offer_reply (settle host call.offer req publisher already_held s call.offer.fetched)
resume host hs gate (reading_audit call req) s =
    finish audit_reply (answer_manifest hs call.blobs req s (manifest_of call.blobs req.cid))
resume host hs gate (reading_status call req) s =
    finish status_reply (answer_status call.blobs req s (manifest_of call.blobs req.cid))
resume host hs gate (finished reply) s = (finished reply, s)
resume host hs gate (refreshing pairs) s = (readvertising, refresh_revoked hs pairs s)
resume host hs gate readvertising s = (ended, readvertise s)
resume host hs gate (collecting height disk) s = (ended, run_gc host height disk s)
resume host hs gate ended s = (ended, s)

-- All tasks so far, the oldest first, and the state that they share.
pub record System : Type 0 where
  pub tasks : List Task
  pub shared : HostState

-- What happens next: a request arrives, a timer fires, or the task of that number has a turn.
pub data Move : Type 0 where
  arrive : Request → Move
  fire : Tick → Move
  turn : ℕ → Move

abbrev pub pass_of : Tick → Task
pass_of (every_10s pairs) = refreshing pairs
pass_of (every_30s height disk) = collecting height disk

abbrev pub spawn : Task → System → System
spawn t sys = record sys { tasks = sys.tasks ++ t ∷ [] }

abbrev pub put : ℕ → System → Task × HostState → System
put i sys (t, s) = record { tasks = set sys.tasks i t; shared = s }

abbrev pub take_turn : Host → Hashing → Gate → ℕ → System → Option Task → System
take_turn host hs gate i sys none = sys
take_turn host hs gate i sys (some t) = put i sys (resume host hs gate t sys.shared)

unfoldable pub play : Host → Hashing → Gate → Move → System → System
play host hs gate (arrive r) sys = spawn (arrived r) sys
play host hs gate (fire tick) sys = spawn (pass_of tick) sys
play host hs gate (turn i) sys = take_turn host hs gate i sys (get_elem? sys.tasks i)

-- Any schedule.
unfoldable pub play_all : Host → Hashing → Gate → List Move → System → System
unfolding play
play_all host hs gate [] sys = sys
play_all host hs gate (m ∷ ms) sys = play_all host hs gate ms (play host hs gate m sys)
