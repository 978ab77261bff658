-- ===== src/Host/Tasks/Cases.antt =====
-- The branches of the gate and of the dispatch of src/host.rs, for proofs of what holds after both.
use ce_pin.Prelude.{
  ◌≡◌, ◌≢◌, refl, true, false, Option, none, some, Bool-cases, Option-cases, inl, inr,
}
use ce_pin.Prelude.Text.{Text}
use ce_pin.Files.{Bytes}
use ce_pin.Held.{contains}
use ce_pin.Metrics.{auth_deny, audit_failed}
use ce_pin.Proto.{OfferReq, AuditReq, StatusReq, RenewReq, ReleaseReq, not_held_locally}
use ce_pin.Host.{Host, HostState, count}
use ce_pin.Host.Requests.{no_proof, do_renew, do_release}
use ce_pin.Host.Dispatch.{
  Gate, Call, Action, Failure, bad_payload, bad_sender, unknown_action, missing_caps,
  bad_capability, denied, bad_request, audit_reply, status_reply, renew_reply, release_result,
  is_authorized,
}
use ce_pin.Host.Tasks.{
  Task, authorized, asking_height, fetching, reading_audit, reading_status, finished, finish,
  finish_reply, turn_away, check, begin_offer, begin_audit, begin_status, dispatch,
}

module _ (host : Host) (gate : Gate) where
  -- A request is malformed, or denied, or authorized.
  pub check-elim {ℓ} :
      (C : Task × HostState → Type ℓ) (call : Call) (from_hex : Text) (payload from : Option Bytes)
      (action : Option Action) (s : HostState)
      → ((f : Failure) → f ≢ denied → C (turn_away f s))
      → ((p k : Bytes) (a : Action) (caps : Text) (chain : gate.Chain)
          → payload ≡ some p
          → gate.caps_of p ≡ some caps
          → gate.decode_chain caps ≡ some chain
          → is_authorized gate host call a k chain s ≡ false
          → C (turn_away denied (count auth_deny s)))
      → ((p k : Bytes) (a : Action) (caps : Text) (chain : gate.Chain)
          → payload ≡ some p
          → from ≡ some k
          → action ≡ some a
          → gate.caps_of p ≡ some caps
          → gate.decode_chain caps ≡ some chain
          → is_authorized gate host call a k chain s ≡ true
          → C (authorized call a from_hex p, s))
      → C (check host gate call from_hex payload from action s)
  unfolding check
  check-elim C call from_hex none from action s bad no' ok = bad bad_payload (λ e. cc)
  check-elim C call from_hex (some p) none action s bad no' ok = bad bad_sender (λ e. cc)
  check-elim C call from_hex (some p) (some k) none s bad no' ok = bad unknown_action (λ e. cc)
  check-elim C call from_hex (some p) (some k) (some a) s bad no' ok =
      elim (Option-cases (gate.caps_of p)) [
        | inl no_caps ↦ rw (no_caps, check) (bad missing_caps (λ e. cc))
        | inr (caps, has_caps) ↦ elim (Option-cases (gate.decode_chain caps)) [
          | inl no_chain ↦ rw (has_caps, no_chain, check) (bad bad_capability (λ e. cc))
          | inr (chain, has_chain) ↦ elim (Bool-cases (is_authorized gate host call a k chain s)) [
            | inl granted ↦
                rw (has_caps, has_chain, granted, check)
                  (ok p k a caps chain refl refl refl has_caps has_chain granted)
            | inr refused ↦
                rw (has_caps, has_chain, refused, check)
                  (no' p k a caps chain refl has_caps has_chain refused)
          ]
        ]
      ]

  begin_offer-elim {ℓ} :
      (C : Task × HostState → Type ℓ) (call : Call) (req : OfferReq) (publisher : Text)
      (s : HostState)
      → (contains s.held req.cid ≡ true → C (fetching call req publisher true, s))
      → C (asking_height call req publisher, s)
      → C (begin_offer call req publisher s)
  unfolding begin_offer
  begin_offer-elim C call req publisher s refetch fetch =
      elim (Bool-cases (contains s.held req.cid)) [
        | inl held ↦ rw held (refetch held)
        | inr new ↦ rw new fetch
      ]

  begin_audit-elim {ℓ} :
      (C : Task × HostState → Type ℓ) (call : Call) (req : AuditReq) (s : HostState)
      → (contains s.held req.cid ≡ true → C (reading_audit call req, s))
      → C (finished (audit_reply (no_proof not_held_locally)), count audit_failed s)
      → C (begin_audit call req s)
  unfolding begin_audit
  begin_audit-elim C call req s read unheld = elim (Bool-cases (contains s.held req.cid)) [
    | inl held ↦ rw held (read held)
    | inr gone ↦ rw gone unheld
  ]

  begin_status-elim {ℓ} :
      (C : Task × HostState → Type ℓ) (call : Call) (req : StatusReq) (s : HostState)
      → (contains s.held req.cid ≡ true → C (reading_status call req, s))
      → C (finished (status_reply (record { held = false; bytes = 0 })), s)
      → C (begin_status call req s)
  unfolding begin_status
  begin_status-elim C call req s look absent = elim (Bool-cases (contains s.held req.cid)) [
    | inl held ↦ rw held (look held)
    | inr gone ↦ rw gone absent
  ]

  -- What an action makes of a payload.
  pub dispatch-elim {ℓ} :
      (C : Task × HostState → Type ℓ) (call : Call) (action : Action) (from_hex : Text)
      (payload : Bytes) (s : HostState)
      → C (turn_away bad_request s)
      → ((req : OfferReq)
          → action ≡ Action.offer
          → gate.offer_req payload ≡ some req
          → contains s.held req.cid ≡ true
          → C (fetching call req from_hex true, s))
      → ((req : OfferReq)
          → action ≡ Action.offer
          → gate.offer_req payload ≡ some req
          → C (asking_height call req from_hex, s))
      → ((req : AuditReq)
          → action ≡ Action.audit
          → gate.audit_req payload ≡ some req
          → contains s.held req.cid ≡ true
          → C (reading_audit call req, s))
      → ((req : AuditReq)
          → C (finished (audit_reply (no_proof not_held_locally)), count audit_failed s))
      → ((req : StatusReq)
          → action ≡ Action.status
          → gate.status_req payload ≡ some req
          → contains s.held req.cid ≡ true
          → C (reading_status call req, s))
      → ((req : StatusReq) → C (finished (status_reply (record { held = false; bytes = 0 })), s))
      → ((req : RenewReq)
          → action ≡ Action.renew
          → gate.renew_req payload ≡ some req
          → C (finish renew_reply (do_renew host call.disk call.now req s)))
      → ((req : ReleaseReq)
          → action ≡ Action.release
          → gate.release_req payload ≡ some req
          → C (finish_reply (release_result (do_release host call.disk req s))))
      → C (dispatch host gate call action from_hex payload s)
  unfolding dispatch
  dispatch-elim C call Action.offer from_hex payload s bad refetch fetch read unheld look absent
        renewed released =
      elim (Option-cases (gate.offer_req payload)) [
        | inl no_req ↦ rw no_req bad
        | inr (req, good) ↦
            rw good
              (begin_offer-elim C call req from_hex s (refetch req refl good) (fetch req refl good))
      ]
  dispatch-elim C call Action.audit from_hex payload s bad refetch fetch read unheld look absent
        renewed released =
      elim (Option-cases (gate.audit_req payload)) [
        | inl no_req ↦ rw no_req bad
        | inr (req, good) ↦
            rw good (begin_audit-elim C call req s (read req refl good) (unheld req))
      ]
  dispatch-elim C call Action.status from_hex payload s bad refetch fetch read unheld look absent
        renewed released =
      elim (Option-cases (gate.status_req payload)) [
        | inl no_req ↦ rw no_req bad
        | inr (req, good) ↦
            rw good (begin_status-elim C call req s (look req refl good) (absent req))
      ]
  dispatch-elim C call Action.renew from_hex payload s bad refetch fetch read unheld look absent
        renewed released =
      elim (Option-cases (gate.renew_req payload)) [
        | inl no_req ↦ rw no_req bad
        | inr (req, good) ↦ rw good (renewed req refl good)
      ]
  dispatch-elim C call Action.release from_hex payload s bad refetch fetch read unheld look absent
        renewed released =
      elim (Option-cases (gate.release_req payload)) [
        | inl no_req ↦ rw no_req bad
        | inr (req, good) ↦ rw good (released req refl good)
      ]
