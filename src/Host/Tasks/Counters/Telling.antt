-- ===== src/Host/Tasks/Counters/Telling.antt =====
-- The counters of src/host.rs under any schedule.
use ce_pin.Prelude.{
  ℕ, ◌+◌, ◌%◌, ◌^◌, ◌<◌, ◌≡◌, some, List, [], ◌∷◌, arith, get_elem?, inl, inr, Option-cases,
}
use ce_pin.Audit.{Hashing}
use ce_pin.Host.{Host, HostState}
use ce_pin.Host.Gc.{every_10s, every_30s}
use ce_pin.Host.Dispatch.{Gate}
use ce_pin.Host.Tasks.{
  Task, arrived, refreshing, collecting, System, Move, arrive, fire, turn, resume, put, play,
  play_all,
}
use ce_pin.Host.Tasks.Promise.{idle}
use ce_pin.Host.Tasks.Counters.{Counter, read, tally, tally-set, tally-append}
use ce_pin.Host.Tasks.Counters.Turns.{resume-Adds}

module _ (host : Host) (hs : Hashing) (gate : Gate) (c : Counter) where
  -- The counter tells how many tasks have replied so, beside what it was once.
  abbrev Tells : ℕ → System → Type 0
  Tells start sys = read c sys.shared.metrics ≡ (start + tally c sys.tasks) % 2 ^ 64

  turn-Tells :
      (start i : ℕ) (t : Task) (sys : System)
      → get_elem? sys.tasks i ≡ some t
      → Tells start sys
      → Tells start (put i sys (resume host hs gate t sys.shared))
  turn-Tells start i t sys there h =
      let (n, reads, earns) = resume-Adds host hs gate c t sys.shared (omega (arith, h)) in
      omega (
        arith,
        h,
        reads,
        earns,
        tally-set c sys.tasks i t (resume host hs gate t sys.shared).0 there,
      )

  play-Tells :
      (start : ℕ) (m : Move) (sys : System)
      → Tells start sys
      → Tells start (play host hs gate m sys)
  unfolding play
  play-Tells start (arrive r) sys h = omega (arith, h, tally-append c sys.tasks (arrived r))
  play-Tells start (fire (every_10s pairs)) sys h =
      omega (arith, h, tally-append c sys.tasks (refreshing pairs))
  play-Tells start (fire (every_30s height disk)) sys h =
      omega (arith, h, tally-append c sys.tasks (collecting height disk))
  play-Tells start (turn i) sys h = elim (Option-cases (get_elem? sys.tasks i)) [
    | inl out ↦ rw out h
    | inr (t, there) ↦ rw there (turn-Tells start i t sys there h)
  ]

  play_all-Tells :
      (start : ℕ) (ms : List Move) (sys : System)
      → Tells start sys
      → Tells start (play_all host hs gate ms sys)
  unfolding play_all
  play_all-Tells start [] sys h = h
  play_all-Tells start (m ∷ ms) sys h =
      play_all-Tells start ms (play host hs gate m sys) (play-Tells start m sys h)

  -- For a host that starts without tasks, a counter of replies that is below 2 ^ 64 is after any
  -- schedule what it was plus the number of the tasks that have finished with a reply of its kind,
  -- modulo 2 ^ 64: no reply is counted twice or under another counter, and none is left out.
  pub play_all-tally :
      (ms : List Move) (s : HostState)
      → read c s.metrics < 2 ^ 64
      → let after = play_all host hs gate ms (idle s) in
        read c after.shared.metrics ≡ (read c s.metrics + tally c after.tasks) % 2 ^ 64
  play_all-tally ms s h = play_all-Tells (read c s.metrics) ms (idle s) (omega (arith, h))
