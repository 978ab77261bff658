-- ===== src/Host/Tasks/Sanctioned.antt =====
-- What stands behind a task of src/host.rs once it is past the gate: the grant of its sender.
use ce_pin.Prelude.{
  ◌≡◌, refl, inl, inr, Option, some, [], ◌∷◌, get_elem?, All, All-append, All-get_elem?, All-set,
  Option-cases,
}
use ce_pin.Prelude.Text.{Text}
use ce_pin.Files.{Bytes}
use ce_pin.Audit.{Hashing}
use ce_pin.Config.{Admission, admitted, rejected}
use ce_pin.Proto.{OfferReq}
use ce_pin.Host.{Host, HostState}
use ce_pin.Host.Gc.{Tick, every_10s, every_30s}
use ce_pin.Host.Requests.{manifest_of}
use ce_pin.Host.Tasks.Grants.{
  Grant, OfferGrant, Behind, HeldAt, Backed, settle-Backed, answer_manifest-Backed,
  answer_status-Backed, do_renew-Backed, do_release-Backed,
}
use ce_pin.Host.Dispatch.{Gate, Call, Action, sender_key}
use ce_pin.Host.Tasks.Cases.{check-elim, dispatch-elim}
use ce_pin.Prelude.{◌∙◌, subst}
use ce_pin.Prelude.{unwrap_or}
use ce_pin.Prelude.Text.{strip_prefix}
use ce_pin.Proto.{topic_prefix}
use ce_pin.Host.Dispatch.{action_of}
use ce_pin.Host.Dispatch.Abilities.{action_of-name, is_authorized-Grants}
use ce_pin.Host.Tasks.{
  Request, Task, arrived, authorized, asking_height, fetching, reading_audit, reading_status,
  finished, refreshing, readvertising, collecting, ended, System, Move, arrive, fire, turn, pass_of,
  check, receive, dispatch, await_object, resume, play,
}

module _ (host : Host) (hs : Hashing) (gate : Gate) (P : HostState → Type 0)
    (Q : Request → Type 0) where
  -- What stands behind a task past the gate, and behind its reply.
  abbrev pub Sanctioned : Task → Type 0
  Sanctioned (arrived r) = Q r
  Sanctioned (authorized call action from_hex payload) =
      Grant host hs gate P Q call action from_hex payload
  Sanctioned (asking_height call req publisher) = OfferGrant host hs gate P Q call req publisher
  Sanctioned (fetching call req publisher already_held) =
      OfferGrant host hs gate P Q call req publisher
  Sanctioned (reading_audit call req) =
      Behind host hs gate P Q gate.audit_req Action.audit call req × HeldAt host hs gate P Q req.cid
  Sanctioned (reading_status call req) =
      Behind host hs gate P Q gate.status_req Action.status call req
      × HeldAt host hs gate P Q req.cid
  Sanctioned (finished reply) = Backed host hs gate P Q reply
  Sanctioned _ = Unit {0}

  check-Sanctioned :
      (r : Request) (payload from : Option Bytes) (action : Option Action) (s : HostState)
      → Q r
      → hs.decode r.payload_hex ≡ payload
      → sender_key (hs.decode r.from_hex) ≡ from
      → action_of (unwrap_or (strip_prefix topic_prefix r.topic) r.topic) ≡ action
      → P s
      → Sanctioned (check host gate r.call r.from_hex payload from action s).0
  check-Sanctioned r payload from action s q d f n past =
      check-elim host gate (λ (u : Task × HostState). Sanctioned u.0) r.call r.from_hex payload from
        action s (λ failure malformed. tt) (λ p k a caps chain sent has_caps has_chain refused. tt)
        (λ p k a caps chain sent by named has_caps has_chain granted. record {
          request = r;
          sent = q;
          is_call = refl;
          is_sender = refl;
          is_payload = d ∙ sent;
          is_action =
              action_of-name (unwrap_or (strip_prefix topic_prefix r.topic) r.topic) a (n ∙ named);
          from = k;
          has_sender = f ∙ by;
          caps = caps;
          has_caps = has_caps;
          chain = chain;
          has_chain = has_chain;
          state = s;
          past = past;
          grant = is_authorized-Grants gate host r.call a k chain s granted;
        })

  dispatch-Sanctioned :
      (call : Call) (action : Action) (from_hex : Text) (payload : Bytes) (s : HostState)
      → P s
      → Grant host hs gate P Q call action from_hex payload
      → Sanctioned (dispatch host gate call action from_hex payload s).0
  dispatch-Sanctioned call action from_hex payload s p g =
      dispatch-elim host gate (λ (u : Task × HostState). Sanctioned u.0) call action from_hex
        payload s tt (λ req is_offer good held. (payload, good, grant is_offer))
        (λ req is_offer good. (payload, good, grant is_offer))
        (λ req is_audit good held. (behind is_audit good, (s, p, held))) (λ req (proof, e). cc)
        (λ req is_status good held. (behind is_status good, (s, p, held))) (λ req yes'. cc)
        (λ req is_renew good. do_renew-Backed host hs gate P Q call req s p (behind is_renew good))
        (λ req is_release good.
          do_release-Backed host hs gate P Q call req s p (behind is_release good))
    where
      grant : {a : Action} → action ≡ a → Grant host hs gate P Q call a from_hex payload
      grant e = subst (λ (b : Action). Grant host hs gate P Q call b from_hex payload) e g

      behind :
          {Req : Type 0} {parse : Bytes → Option Req} {a : Action} {req : Req}
          → action ≡ a
          → parse payload ≡ some req
          → Behind host hs gate P Q parse a call req
      behind e good = record {
        from_hex = from_hex;
        payload = payload;
        parses = good;
        granted = grant e;
      }

  await_object-Sanctioned :
      (call : Call) (req : OfferReq) (publisher : Text) (a : Admission) (s : HostState)
      → OfferGrant host hs gate P Q call req publisher
      → Sanctioned (await_object call req publisher (a, s)).0
  await_object-Sanctioned call req publisher (rejected r) s g = λ yes'. cc
  await_object-Sanctioned call req publisher admitted s g = g

  pub resume-Sanctioned :
      (t : Task) (s : HostState) → P s → Sanctioned t → Sanctioned (resume host hs gate t s).0
  unfolding resume receive
  resume-Sanctioned (arrived r) s p g = check-Sanctioned r _ _ _ s g refl refl refl p
  resume-Sanctioned (authorized call action from_hex payload) s p g =
      dispatch-Sanctioned call action from_hex payload s p g
  resume-Sanctioned (asking_height call req publisher) s p g =
      await_object-Sanctioned call req publisher _ _ g
  resume-Sanctioned (fetching call req publisher already_held) s p g =
      settle-Backed host hs gate P Q call req publisher already_held s call.offer.fetched refl g
  resume-Sanctioned (reading_audit call req) s p g =
      answer_manifest-Backed host hs gate P Q call req s g.0 g.1
  resume-Sanctioned (reading_status call req) s p g =
      answer_status-Backed host hs gate P Q call req s (manifest_of call.blobs req.cid) g.0 g.1
  resume-Sanctioned (finished reply) s p g = g
  resume-Sanctioned (refreshing pairs) s p g = tt
  resume-Sanctioned readvertising s p g = tt
  resume-Sanctioned (collecting height disk) s p g = tt
  resume-Sanctioned ended s p g = tt

  pass-Sanctioned : (tick : Tick) → Sanctioned (pass_of tick)
  pass-Sanctioned (every_10s pairs) = tt
  pass-Sanctioned (every_30s height disk) = tt

  pub play-Sanctioned :
      (m : Move) (sys : System)
      → ((r : Request) → m ≡ arrive r → Q r)
      → P sys.shared
      → All Sanctioned sys.tasks
      → All Sanctioned (play host hs gate m sys).tasks
  unfolding play
  play-Sanctioned (arrive r) sys q p all =
      All-append Sanctioned sys.tasks (arrived r ∷ []) all (q r refl, tt)
  play-Sanctioned (fire tick) sys q p all =
      All-append Sanctioned sys.tasks (pass_of tick ∷ []) all (pass-Sanctioned tick, tt)
  play-Sanctioned (turn i) sys q p all = elim (Option-cases (get_elem? sys.tasks i)) [
    | inl out ↦ rw out all
    | inr (t, there) ↦ rw there (
        All-set Sanctioned sys.tasks i _
          (resume-Sanctioned t sys.shared p (All-get_elem? Sanctioned sys.tasks i t there all)) all)
  ]
