-- ===== src/Host/Tasks/Order.antt =====
-- A schedule of src/host.rs's tasks, as one of its tasks sees it: its turns, and the states that it
-- has them in.
use ce_pin.Prelude.{
  ℕ, suc, ◌≡◌, ◌≢◌, refl, sym, ap, ◌∙◌, ◌==◌, some, List, [], ◌∷◌, get_elem?, length, if◌then◌else◌,
  Bool-cases, inl, inr, arith, get_elem?-append, get_elem?-set_self, get_elem?-set_other,
  Option-cases, subst, ==_iff,
}
use ce_pin.Audit.{Hashing}
use ce_pin.Host.{Host, HostState}
use ce_pin.Host.Dispatch.{Gate}
use ce_pin.Host.Tasks.{Task, System, Move, arrive, fire, turn, resume, play, play_all}

-- The number of turns that a schedule gives to a task.
abbrev pub turns : ℕ → List Move → ℕ
turns i [] = 0
turns i (arrive r ∷ ms) = turns i ms
turns i (fire tick ∷ ms) = turns i ms
turns i (turn j ∷ ms) = if j == i then suc (turns i ms) else turns i ms

module _ (host : Host) (hs : Hashing) (gate : Gate) where
  abbrev pub turn_of : ℕ → Move → HostState → List HostState → List HostState
  turn_of i (arrive r) s ss = ss
  turn_of i (fire tick) s ss = ss
  turn_of i (turn j) s ss = if j == i then s ∷ ss else ss

  -- The states that the task finds when it has its turns.
  unfoldable pub resumed_at : ℕ → List Move → System → List HostState
  resumed_at i [] sys = []
  resumed_at i (m ∷ ms) sys = turn_of i m sys.shared (resumed_at i ms (play host hs gate m sys))

  -- A task alone, resumed in the given states: it, and the state that its last turn leaves.
  unfoldable pub run_turns : Task × HostState → List HostState → Task × HostState
  run_turns p [] = p
  run_turns (t, s) (s' ∷ ss) = run_turns (resume host hs gate t s') ss

  pub run_turns-state :
      (t : Task) (s s' : HostState) (ss : List HostState)
      → (run_turns (t, s) ss).0 ≡ (run_turns (t, s') ss).0
  unfolding run_turns
  run_turns-state t s s' [] = refl
  run_turns-state t s s' (s1 ∷ ss) = refl

  pub length-resumed_at :
      (i : ℕ) (ms : List Move) (sys : System) → length (resumed_at i ms sys) ≡ turns i ms
  unfolding resumed_at
  length-resumed_at i [] sys = refl
  length-resumed_at i (arrive r ∷ ms) sys = length-resumed_at i ms _
  length-resumed_at i (fire tick ∷ ms) sys = length-resumed_at i ms _
  length-resumed_at i (turn j ∷ ms) sys =
      ground (arith, length-resumed_at i ms (play host hs gate (turn j) sys))

  turn_self :
      (i : ℕ) (sys : System) (t : Task)
      → get_elem? sys.tasks i ≡ some t
      → get_elem? (play host hs gate (turn i) sys).tasks i
        ≡ some (resume host hs gate t sys.shared).0
  unfolding play
  turn_self i sys t e = rw e (get_elem?-set_self sys.tasks i t _ e)

  turn_other :
      (i j : ℕ) (sys : System)
      → i ≢ j
      → get_elem? (play host hs gate (turn j) sys).tasks i ≡ get_elem? sys.tasks i
  unfolding play
  turn_other i j sys n = elim (Option-cases (get_elem? sys.tasks j)) [
    | inl out ↦ rw out refl
    | inr (u, there) ↦ rw there (get_elem?-set_other sys.tasks i j _ n)
  ]

  -- Whatever the schedule, a task comes to where it comes to alone in the states of its turns.
  pub play_all-run_turns :
      (i : ℕ) (ms : List Move) (sys : System) (t : Task)
      → get_elem? sys.tasks i ≡ some t
      → get_elem? (play_all host hs gate ms sys).tasks i
        ≡ some (run_turns (t, sys.shared) (resumed_at i ms sys)).0
  unfolding play_all resumed_at run_turns play
  play_all-run_turns i [] sys t e = e
  play_all-run_turns i (arrive r ∷ ms) sys t e =
      play_all-run_turns i ms (play host hs gate (arrive r) sys) t
        (get_elem?-append sys.tasks _ i t e)
  play_all-run_turns i (fire tick ∷ ms) sys t e =
      play_all-run_turns i ms (play host hs gate (fire tick) sys) t
        (get_elem?-append sys.tasks _ i t e)
  play_all-run_turns i (turn j ∷ ms) sys t e = elim (Bool-cases (j == i)) [
    | inl same ↦
        let self : get_elem? (play host hs gate (turn j) sys).tasks i
            ≡ some (resume host hs gate t sys.shared).0 =
          subst
            (λ k.
              get_elem? (play host hs gate (turn k) sys).tasks i
              ≡ some (resume host hs gate t sys.shared).0)
            (sym ((==_iff j i).0 same)) (turn_self i sys t e) in
        rw same (
          play_all-run_turns i ms (play host hs gate (turn j) sys)
            (resume host hs gate t sys.shared).0 self
          ∙ ap some (run_turns-state _ _ _ (resumed_at i ms (play host hs gate (turn j) sys))))
    | inr other ↦ rw other (
        play_all-run_turns i ms (play host hs gate (turn j) sys) t
          (turn_other i j sys (λ h. cc ((==_iff j i).1 (sym h))) ∙ e)
        ∙ ap some (run_turns-state t _ _ (resumed_at i ms (play host hs gate (turn j) sys))))
  ]
