-- ===== src/Host/Dispatch/Authority.antt =====
-- The gate of `handle_inner` in src/host.rs: what stands between a request and its handler.
use ce_pin.Prelude.{
  ◌≡◌, refl, Option, none, some, Bool-cases, Option-cases, inl, inr, ◌⊎◌, unwrap_or,
}
use ce_pin.Prelude.Text.{Text, strip_prefix}
use ce_pin.Files.{Bytes}
use ce_pin.Audit.{Hashing}
use ce_pin.Metrics.{auth_deny}
use ce_pin.Proto.{topic_prefix}
use ce_pin.Host.{Host, HostState, count}
use ce_pin.Host.Offer.{do_offer}
use ce_pin.Host.Requests.{do_audit, do_status, do_renew, do_release}
use ce_pin.Host.Dispatch.{
  Reply, offer_reply, audit_reply, status_reply, renew_reply, release_result, bad_request,
  run_action,
}
use ce_pin.Host.Dispatch.{
  Gate, Call, Action, action_of, Failure, denied, negative, is_authorized, sender_key,
  check_and_run, handle,
}
use ce_pin.Host.Dispatch.Abilities.{name_of, Grants, is_authorized-Grants, action_of-name}
use ce_pin.Host.Dispatch.{parsed}

-- A request that is parsed and handled, or cannot be parsed and changes nothing.
abbrev pub Handles :
    {Req : Type 0} → Option Req → (Req → Reply × HostState) → HostState → Reply × HostState → Type 0
Handles {Req} parsed run s out =
    ((parsed ≡ none) × (out ≡ (negative bad_request, s)))
    ⊎ ((req : Req) × (parsed ≡ some req) × (out ≡ run req))

parsed-Handles :
    {Req : Type 0} (o : Option Req) (run : Req → HostState → Reply × HostState) (s : HostState)
    → Handles o (λ req. run req s) s (parsed o run s)
parsed-Handles none run s = inl (refl, refl)
parsed-Handles (some req) run s = inr (req, refl, refl)

-- What an action runs on its payload, in the state that it finds after the gate.
abbrev pub Runs :
    Host → Hashing → Gate → Call → Action → Text → Bytes → HostState → Reply × HostState → Type 0
Runs host hs gate call Action.offer from_hex payload s =
    Handles (gate.offer_req payload)
      (λ req. let (r, t) = do_offer host call.offer req from_hex s in (offer_reply r, t)) s
Runs host hs gate call Action.audit from_hex payload s =
    Handles (gate.audit_req payload)
      (λ req. let (r, t) = do_audit hs call.blobs req s in (audit_reply r, t)) s
Runs host hs gate call Action.status from_hex payload s =
    Handles (gate.status_req payload)
      (λ req. let (r, t) = do_status call.blobs req s in (status_reply r, t)) s
Runs host hs gate call Action.renew from_hex payload s =
    Handles (gate.renew_req payload)
      (λ req. let (r, t) = do_renew host call.disk call.now req s in (renew_reply r, t)) s
Runs host hs gate call Action.release from_hex payload s =
    Handles (gate.release_req payload) (λ req. release_result (do_release host call.disk req s)) s

run_action-Runs :
    (host : Host) (hs : Hashing) (gate : Gate) (call : Call) (action : Action) (from_hex : Text)
    (payload : Bytes) (s : HostState)
    → Runs host hs gate call action from_hex payload s
        (run_action host hs gate call action from_hex payload s)
unfolding run_action
run_action-Runs host hs gate call Action.offer from_hex payload s =
    parsed-Handles (gate.offer_req payload) _ s
run_action-Runs host hs gate call Action.audit from_hex payload s =
    parsed-Handles (gate.audit_req payload) _ s
run_action-Runs host hs gate call Action.status from_hex payload s =
    parsed-Handles (gate.status_req payload) _ s
run_action-Runs host hs gate call Action.renew from_hex payload s =
    parsed-Handles (gate.renew_req payload) _ s
run_action-Runs host hs gate call Action.release from_hex payload s =
    parsed-Handles (gate.release_req payload) _ s

-- A request that passed the gate: its parts, the grant, and what was run.
pub record Granted (host : Host) (hs : Hashing) (gate : Gate) (call : Call)
    (name from_hex payload_hex : Text) (s : HostState) (out : Reply × HostState) : Type 0 where
  pub payload : Bytes
  pub has_payload : hs.decode payload_hex ≡ some payload
  pub from : Bytes
  pub has_sender : sender_key (hs.decode from_hex) ≡ some from
  pub action : Action
  pub has_action : name ≡ name_of action
  pub caps : Text
  pub has_caps : gate.caps_of payload ≡ some caps
  pub chain : gate.Chain
  pub has_chain : gate.decode_chain caps ≡ some chain
  pub grant : Grants gate host call action from chain s
  pub runs : Runs host hs gate call action from_hex payload (call.after_authorize s) out

-- What is left alone when a request is turned away.
pub record Untouched (s t : HostState) : Type 0 where
  pub held : t.held ≡ s.held
  pub directory : t.directory ≡ s.directory
  pub revoked : t.revoked ≡ s.revoked
  pub advertised : t.advertised ≡ s.advertised

Untouched-refl : (s : HostState) → Untouched s s
Untouched-refl s = record { held = refl; directory = refl; revoked = refl; advertised = refl }

Untouched-count : (s : HostState) → Untouched s (count auth_deny s)
Untouched-count s = record { held = refl; directory = refl; revoked = refl; advertised = refl }

check_and_run-gate :
    (host : Host) (hs : Hashing) (gate : Gate) (call : Call) (name from_hex payload_hex : Text)
    (s : HostState) (payload from : Option Bytes) (action : Option Action)
    → hs.decode payload_hex ≡ payload
    → sender_key (hs.decode from_hex) ≡ from
    → action_of name ≡ action
    → let (reply, t) = check_and_run host hs gate call from_hex payload from action s in
      (((f : Failure) × (reply ≡ negative f)) × Untouched s t)
      ⊎ Granted host hs gate call name from_hex payload_hex s (reply, t)
unfolding check_and_run
check_and_run-gate host hs gate call name from_hex payload_hex s none from action p f a =
    inl ((_, refl), Untouched-refl s)
check_and_run-gate host hs gate call name from_hex payload_hex s (some payload) none action p f a =
    inl ((_, refl), Untouched-refl s)
check_and_run-gate host hs gate call name from_hex payload_hex s (some payload) (some from) none p f
      a =
    inl ((_, refl), Untouched-refl s)
check_and_run-gate host hs gate call name from_hex payload_hex s (some payload) (some from)
      (some action) p f a =
    elim (Option-cases (gate.caps_of payload)) [
      | inl no_caps ↦ rw (no_caps, check_and_run) (inl ((_, refl), Untouched-refl s))
      | inr (caps, has_caps) ↦ elim (Option-cases (gate.decode_chain caps)) [
        | inl no_chain ↦ rw (has_caps, no_chain, check_and_run) (inl ((_, refl), Untouched-refl s))
        | inr (chain, has_chain) ↦
            elim (Bool-cases (is_authorized gate host call action from chain s)) [
              | inl yes' ↦ inr (record {
                payload = payload;
                has_payload = p;
                from = from;
                has_sender = f;
                action = action;
                has_action = action_of-name name action a;
                caps = caps;
                has_caps = has_caps;
                chain = chain;
                has_chain = has_chain;
                grant = is_authorized-Grants gate host call action from chain s yes';
                runs =
                    rw (has_caps, has_chain, yes', check_and_run)
                      (run_action-Runs host hs gate call action from_hex payload
                        (call.after_authorize s));
              })
              | inr no' ↦
                  rw (has_caps, has_chain, no', check_and_run)
                    (inl ((denied, refl), Untouched-count s))
            ]
      ]
    ]

-- Either the request is turned away with a negative reply, and the held-set, its file, the revoked
-- set and the advertisements stay as they were; or its chain was decoded from its own payload and
-- grants its sender, with the roots of the host and the capabilities that it lists as revoked, the
-- ability `pin:store` for an offer or a renewal, `pin:audit` for an audit, `pin:read` for a status and
-- `pin:release` for a release, as its topic names them, and the handler of just that action has run on
-- the request in the payload, in the state after the gate, or the payload has none and that state is
-- left alone.
pub handle-Granted :
    (host : Host) (hs : Hashing) (gate : Gate) (call : Call) (topic from_hex payload_hex : Text)
    (s : HostState)
    → let (reply, t) = handle host hs gate call topic from_hex payload_hex s in
      (((f : Failure) × (reply ≡ negative f)) × Untouched s t)
      ⊎ Granted host hs gate call
          (unwrap_or (strip_prefix topic_prefix topic) topic)
          from_hex
          payload_hex
          s
          (reply, t)
unfolding handle
handle-Granted host hs gate call topic from_hex payload_hex s =
    check_and_run-gate host hs gate call (unwrap_or (strip_prefix topic_prefix topic) topic)
      from_hex payload_hex s _ _ _ refl refl refl
