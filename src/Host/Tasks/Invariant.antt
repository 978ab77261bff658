-- ===== src/Host/Tasks/Invariant.antt =====
-- What every state of src/host.rs satisfies, however its tasks are interleaved.
use ce_pin.Prelude.{
  ◌≡◌, refl, sym, ap, ◌⊎◌, subst, Option, List, [], ◌∷◌, get_elem?, Option-cases, inl, inr,
}
use ce_pin.Prelude.Text.{Text}
use ce_pin.Files.{Bytes}
use ce_pin.Audit.{Hashing}
use ce_pin.Config.{Admission, admitted, rejected}
use ce_pin.Held.Capacity.{IsHeldSet}
use ce_pin.Proto.{OfferReq}
use ce_pin.Host.{Host, HostState, height_or_zero, count}
use ce_pin.Metrics.{auth_deny}
use ce_pin.Host.Offer.Capacity.{IsHostState, settle-IsHostState, drop_expired-IsHostState}
use ce_pin.Host.Requests.{manifest_of, do_release}
use ce_pin.Host.Dispatch.{Gate, Call, Action}
use ce_pin.Host.Steps.Handlers.{
  answer_manifest-IsHostState, answer_status-IsHostState, do_renew-IsHostState,
  do_release-IsHostState, release_result-held,
}
use ce_pin.Host.Steps.Invariant.{run_gc-IsHostState, readvertise-IsHostState, refresh_revoked-held}
use ce_pin.Host.Tasks.Cases.{check-elim, dispatch-elim}
use ce_pin.Host.Tasks.{
  Task, arrived, authorized, asking_height, fetching, reading_audit, reading_status, finished,
  refreshing, readvertising, collecting, ended, System, Move, arrive, fire, turn, check, receive,
  dispatch, await_object, resume, play, play_all,
}

module _ (host : Host) (hs : Hashing) (gate : Gate) where
  -- The gate leaves the state as it is, or counts a denial.
  pub check-state :
      (call : Call) (from_hex : Text) (payload from : Option Bytes) (action : Option Action)
      (s : HostState)
      → let t = (check host gate call from_hex payload from action s).1 in
        (t ≡ s) ⊎ (t ≡ count auth_deny s)
  check-state call from_hex payload from action s =
      check-elim host gate (λ (u : Task × HostState). (u.1 ≡ s) ⊎ (u.1 ≡ count auth_deny s)) call
        from_hex payload from action s (λ f malformed. inl refl)
        (λ p k a caps chain sent has_caps has_chain refused. inr refl)
        (λ p k a caps chain sent by named has_caps has_chain granted. inl refl)

  pub check-held :
      (call : Call) (from_hex : Text) (payload from : Option Bytes) (action : Option Action)
      (s : HostState)
      → (check host gate call from_hex payload from action s).1.held ≡ s.held
  check-held call from_hex payload from action s =
      elim (check-state call from_hex payload from action s) [
        | inl same ↦ ap (λ (t : HostState). t.held) same
        | inr counted ↦ ap (λ (t : HostState). t.held) counted
      ]

  dispatch-IsHostState :
      (call : Call) (action : Action) (from_hex : Text) (payload : Bytes) (s : HostState)
      → IsHostState s
      → IsHostState (dispatch host gate call action from_hex payload s).1
  dispatch-IsHostState call action from_hex payload s h =
      dispatch-elim host gate (λ (u : Task × HostState). IsHostState u.1) call action from_hex
        payload s h (λ req is_offer good held. h) (λ req is_offer good. h)
        (λ req is_audit good held. h) (λ req. h) (λ req is_status good held. h) (λ req. h)
        (λ req is_renew good. do_renew-IsHostState host call.disk call.now req s h)
        (λ req is_release good.
          subst IsHeldSet
            (sym (
              release_result-held (do_release host call.disk req s).0
                (do_release host call.disk req s).1))
            (do_release-IsHostState host call.disk req s h))

  pub await_object-held :
      (call : Call) (req : OfferReq) (publisher : Text) (a : Admission) (s : HostState)
      → (await_object call req publisher (a, s)).1.held ≡ s.held
  await_object-held call req publisher (rejected r) s = refl
  await_object-held call req publisher admitted s = refl

  resume-IsHostState :
      (t : Task) (s : HostState) → IsHostState s → IsHostState (resume host hs gate t s).1
  unfolding resume receive
  resume-IsHostState (arrived r) s h =
      subst IsHeldSet (sym (check-held r.call r.from_hex _ _ _ s)) h
  resume-IsHostState (authorized call action from_hex payload) s h =
      dispatch-IsHostState call action from_hex payload s h
  resume-IsHostState (asking_height call req publisher) s h =
      subst IsHeldSet (sym (await_object-held call req publisher _ _))
        (drop_expired-IsHostState (height_or_zero call.offer.height) s h)
  resume-IsHostState (fetching call req publisher already_held) s h =
      settle-IsHostState host call.offer req publisher already_held s call.offer.fetched h
  resume-IsHostState (reading_audit call req) s h =
      answer_manifest-IsHostState hs call.blobs req s (manifest_of call.blobs req.cid) h
  resume-IsHostState (reading_status call req) s h =
      answer_status-IsHostState call.blobs req s (manifest_of call.blobs req.cid) h
  resume-IsHostState (finished reply) s h = h
  resume-IsHostState (refreshing pairs) s h =
      subst IsHeldSet (sym (refresh_revoked-held hs pairs s)) h
  resume-IsHostState readvertising s h = readvertise-IsHostState s h
  resume-IsHostState (collecting height disk) s h = run_gc-IsHostState host height disk s h
  resume-IsHostState ended s h = h

  pub play-IsHostState :
      (m : Move) (sys : System)
      → IsHostState sys.shared
      → IsHostState (play host hs gate m sys).shared
  unfolding play
  play-IsHostState (arrive r) sys h = h
  play-IsHostState (fire tick) sys h = h
  play-IsHostState (turn i) sys h = elim (Option-cases (get_elem? sys.tasks i)) [
    | inl out ↦ rw out h
    | inr (t, there) ↦ rw there (resume-IsHostState t sys.shared h)
  ]

  -- From a held-set whose keys are in strict order, so that no CID is held twice, every schedule of
  -- requests and passes leads to one, whatever is asked and in which order the tasks have their turns.
  pub play_all-IsHostState :
      (ms : List Move) (sys : System)
      → IsHostState sys.shared
      → IsHostState (play_all host hs gate ms sys).shared
  unfolding play_all
  play_all-IsHostState [] sys h = h
  play_all-IsHostState (m ∷ ms) sys h =
      play_all-IsHostState ms (play host hs gate m sys) (play-IsHostState m sys h)
