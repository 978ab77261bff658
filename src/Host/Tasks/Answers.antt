-- ===== src/Host/Tasks/Answers.antt =====
-- The tasks of src/host.rs: how many turns a request needs.
use ce_pin.Prelude.{
  ℕ, suc, ◌≤◌, ◌≡◌, refl, sym, ap, ◌∙◌, subst, some, List, [], ◌∷◌, length, get_elem?, Option,
  get_elem?-append_self, arith,
}
use ce_pin.Prelude.Text.{Text}
use ce_pin.Files.{Bytes}
use ce_pin.Audit.{Hashing}
use ce_pin.Config.{Admission, admitted, rejected}
use ce_pin.Proto.{OfferReq}
use ce_pin.Host.{Host, HostState}
use ce_pin.Host.Dispatch.{Gate, Call, Action, Reply}
use ce_pin.Host.Tasks.{
  Request, Task, arrived, authorized, asking_height, fetching, reading_audit, reading_status,
  finished, refreshing, readvertising, collecting, ended, System, Move, arrive, check, dispatch,
  await_object, receive, resume, play, play_all,
}
use ce_pin.Host.Tasks.Cases.{check-elim, dispatch-elim}
use ce_pin.Host.Tasks.Order.{turns, resumed_at, run_turns, length-resumed_at, play_all-run_turns}

-- The task of a request, which needs at most so many turns more.
abbrev Within : ℕ → Task → Type 0
Within n (arrived r) = 4 ≤ n
Within n (authorized call action from_hex payload) = 3 ≤ n
Within n (asking_height call req publisher) = 2 ≤ n
Within n (fetching call req publisher already_held) = 1 ≤ n
Within n (reading_audit call req) = 1 ≤ n
Within n (reading_status call req) = 1 ≤ n
Within n (finished reply) = Unit {0}
Within n (refreshing pairs) = ⊥
Within n readvertising = ⊥
Within n (collecting height disk) = ⊥
Within n ended = ⊥

-- One that needs no more is answered.
Within-zero : (t : Task) → Within 0 t → (reply : Reply) × (t ≡ finished reply)
Within-zero (arrived r) w = absurd (omega (arith, w))
Within-zero (authorized call action from_hex payload) w = absurd (omega (arith, w))
Within-zero (asking_height call req publisher) w = absurd (omega (arith, w))
Within-zero (fetching call req publisher already_held) w = absurd (omega (arith, w))
Within-zero (reading_audit call req) w = absurd (omega (arith, w))
Within-zero (reading_status call req) w = absurd (omega (arith, w))
Within-zero (finished reply) w = (reply, refl)
Within-zero (refreshing pairs) w = absurd w
Within-zero readvertising w = absurd w
Within-zero (collecting height disk) w = absurd w
Within-zero ended w = absurd w

module _ (host : Host) (hs : Hashing) (gate : Gate) where
  check-Within :
      (n : ℕ) (call : Call) (from_hex : Text) (payload from : Option Bytes) (action : Option Action)
      (s : HostState)
      → 4 ≤ suc n
      → Within n (check host gate call from_hex payload from action s).0
  check-Within n call from_hex payload from action s w =
      check-elim host gate (λ (u : Task × HostState). Within n u.0) call from_hex payload from
        action s (λ f malformed. tt) (λ p k a caps chain sent has_caps has_chain refused. tt)
        (λ p k a caps chain sent by named has_caps has_chain granted. omega (arith, w))

  dispatch-Within :
      (n : ℕ) (call : Call) (action : Action) (from_hex : Text) (payload : Bytes) (s : HostState)
      → 3 ≤ suc n
      → Within n (dispatch host gate call action from_hex payload s).0
  dispatch-Within n call action from_hex payload s w =
      dispatch-elim host gate (λ (u : Task × HostState). Within n u.0) call action from_hex payload
        s tt (λ req is_offer good held. omega (arith, w)) (λ req is_offer good. omega (arith, w))
        (λ req is_audit good held. omega (arith, w)) (λ req. tt)
        (λ req is_status good held. omega (arith, w)) (λ req. tt) (λ req is_renew good. tt)
        (λ req is_release good. tt)

  await_object-Within :
      (n : ℕ) (call : Call) (req : OfferReq) (publisher : Text) (a : Admission) (s : HostState)
      → 2 ≤ suc n
      → Within n (await_object call req publisher (a, s)).0
  await_object-Within n call req publisher (rejected r) s w = tt
  await_object-Within n call req publisher admitted s w = omega (arith, w)

  -- A turn takes one off.
  resume-Within :
      (n : ℕ) (t : Task) (s : HostState) → Within (suc n) t → Within n (resume host hs gate t s).0
  unfolding resume receive
  resume-Within n (arrived r) s w = check-Within n r.call r.from_hex _ _ _ s w
  resume-Within n (authorized call action from_hex payload) s w =
      dispatch-Within n call action from_hex payload s w
  resume-Within n (asking_height call req publisher) s w =
      await_object-Within n call req publisher _ _ w
  resume-Within n (fetching call req publisher already_held) s w = tt
  resume-Within n (reading_audit call req) s w = tt
  resume-Within n (reading_status call req) s w = tt
  resume-Within n (finished reply) s w = tt
  resume-Within n (refreshing pairs) s w = absurd w
  resume-Within n readvertising s w = absurd w
  resume-Within n (collecting height disk) s w = absurd w
  resume-Within n ended s w = absurd w

  run_turns-Within :
      (t : Task) (s : HostState) (ss : List HostState)
      → Within (length ss) t
      → Within 0 (run_turns host hs gate (t, s) ss).0
  unfolding run_turns
  run_turns-Within t s [] w = w
  run_turns-Within t s (s' ∷ ss) w =
      let (after, left) = resume host hs gate t s' in
      run_turns-Within after left ss (resume-Within (length ss) t s' w)

  -- However the tasks of a host are interleaved, a request that arrives and then has four turns is
  -- answered.
  pub play_all-Answered :
      (sys : System) (r : Request) (ms : List Move)
      → 4 ≤ turns (length sys.tasks) ms
      → (reply : Reply) × (get_elem?
            (play_all host hs gate (arrive r ∷ ms) sys).tasks
            (length sys.tasks)
          ≡ some (finished reply))
  unfolding play_all play
  play_all-Answered sys r ms four =
      let start = play host hs gate (arrive r) sys in
      let i = length sys.tasks in
      let ss = resumed_at host hs gate i ms start in
      let enough : 4 ≤ length ss =
        subst (λ n. 4 ≤ n) (sym (length-resumed_at host hs gate i ms start)) four in
      let (reply, done) =
        Within-zero (run_turns host hs gate (arrived r, start.shared) ss).0
          (run_turns-Within (arrived r) start.shared ss enough) in
      (
        reply,
        play_all-run_turns host hs gate i ms start (arrived r)
              (get_elem?-append_self sys.tasks [] (arrived r))
            ∙ ap some done,
      )
