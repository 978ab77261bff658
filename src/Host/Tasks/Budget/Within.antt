-- ===== src/Host/Tasks/Budget/Within.antt =====
-- How far src/host.rs goes over the disk budget, when a bounded number of objects is fetched at once.
use ce_pin.Prelude.{
  ℕ, suc, ◌+◌, ◌*◌, ◌≤◌, ◌<◌, inl, inr, List, [], ◌∷◌, length, arith, All, All-append, get_elem?,
  Option-cases, u64_max,
}
use native.Mathlib.Nat.{le_trans}
use ce_pin.Prelude.Text.{Text}
use ce_pin.Prelude.Map.{keys}
use ce_pin.Audit.{Hashing}
use ce_pin.Held.Capacity.{exact_bytes}
use ce_pin.Host.{Host, HostState}
use ce_pin.Host.Offer.Capacity.{IsHostState}
use ce_pin.Host.Gc.{every_10s, every_30s}
use ce_pin.Host.Dispatch.{Gate}
use ce_pin.Host.Tasks.{
  arrived, refreshing, collecting, System, Move, arrive, fire, turn, play, play_all,
}
use ce_pin.Host.Tasks.Invariant.{play_all-IsHostState}
use ce_pin.Host.Tasks.Promise.{idle}
use ce_pin.Host.Tasks.Budget.{pending, Sized, HonestRequest, keys-Booked, sum-weigh, exact_bytes-le}
use ce_pin.Host.Tasks.Budget.Solvent.{Solvent, turn-Solvent}

module _ (host : Host) (hs : Hashing) (gate : Gate) (size : Text → ℕ) where
  abbrev pub HonestMove : Move → Type 0
  HonestMove (arrive r) = HonestRequest size host.cfg.max_object_bytes hs gate r
  HonestMove _ = Unit {0}

  module _ (k : ℕ) where
    play-Solvent :
        (m : Move) (sys : System)
        → host.cfg.capacity_bytes < u64_max
        → HonestMove m
        → length (pending (play host hs gate m sys).tasks) ≤ suc k
        → Solvent host hs gate size k sys
        → Solvent host hs gate size k (play host hs gate m sys)
    unfolding play
    play-Solvent (arrive r) sys below h few v = record {
      list = v.list;
      booked = v.booked;
      slim = All-append _ sys.tasks (arrived r ∷ []) v.slim (h, tt);
      listed = All-append _ sys.tasks (arrived r ∷ []) v.listed (tt, tt);
      room = v.room;
    }
    play-Solvent (fire (every_10s pairs)) sys below h few v = record {
      list = v.list;
      booked = v.booked;
      slim = All-append _ sys.tasks (refreshing pairs ∷ []) v.slim (tt, tt);
      listed = All-append _ sys.tasks (refreshing pairs ∷ []) v.listed (tt, tt);
      room = v.room;
    }
    play-Solvent (fire (every_30s height disk)) sys below h few v = record {
      list = v.list;
      booked = v.booked;
      slim = All-append _ sys.tasks (collecting height disk ∷ []) v.slim (tt, tt);
      listed = All-append _ sys.tasks (collecting height disk ∷ []) v.listed (tt, tt);
      room = v.room;
    }
    play-Solvent (turn i) sys below h few v = elim (Option-cases (get_elem? sys.tasks i)) [
      | inl out ↦ rw out v
      | inr (t, there) ↦
          rw there (turn-Solvent host hs gate size k i t sys below there (rw there at few) v)
    ]

    -- Never are more than `suc k` objects fetched at once.
    abbrev pub AtMost : List Move → System → Type 0
    AtMost [] sys = Unit {0}
    AtMost (m ∷ ms) sys =
        (length (pending (play host hs gate m sys).tasks) ≤ suc k)
        × AtMost ms (play host hs gate m sys)

    play_all-Solvent :
        (ms : List Move) (sys : System)
        → host.cfg.capacity_bytes < u64_max
        → All HonestMove ms
        → AtMost ms sys
        → Solvent host hs gate size k sys
        → Solvent host hs gate size k (play_all host hs gate ms sys)
    unfolding play_all
    play_all-Solvent [] sys below h few v = v
    play_all-Solvent (m ∷ ms) sys below h few v =
        play_all-Solvent ms (play host hs gate m sys) below h.1 few.1
          (play-Solvent m sys below h.0 few.0 v)

    idle-Solvent :
        (s : HostState)
        → All (Sized size host.cfg.max_object_bytes) s.held.entries
        → exact_bytes s.held ≤ host.cfg.capacity_bytes + k * host.cfg.max_object_bytes
        → Solvent host hs gate size k (idle s)
    idle-Solvent s sized fits = record {
      list = keys s.held.entries;
      booked =
          keys-Booked size host.cfg.max_object_bytes (keys s.held.entries) s.held.entries sized
            (λ cid there. there);
      slim = tt;
      listed = tt;
      room = omega (arith, fits, sum-weigh size host.cfg.max_object_bytes s.held.entries sized);
    }

    -- The budget is below the largest u64; every offer that arrives in the payload of a request declares
    -- at least the size of the object with its CID, and that object is what is fetched for it; at the start no task runs, the
    -- keys of the held-set are in strict order, each entry has the size of its object, which is within
    -- the object limit, and the entries take at most the budget and `k` objects of the greatest size
    -- more. Then under every schedule in which at most `suc k` objects are fetched at once, the entries
    -- take at most that much: with one fetch at a time, where they start within the budget, they stay
    -- within it.
    pub play_all-within_budget :
        (ms : List Move) (s : HostState)
        → host.cfg.capacity_bytes < u64_max
        → IsHostState s
        → All (Sized size host.cfg.max_object_bytes) s.held.entries
        → exact_bytes s.held ≤ host.cfg.capacity_bytes + k * host.cfg.max_object_bytes
        → All HonestMove ms
        → AtMost ms (idle s)
        → exact_bytes (play_all host hs gate ms (idle s)).shared.held
          ≤ host.cfg.capacity_bytes + k * host.cfg.max_object_bytes
    play_all-within_budget ms s below valid sized fits honest few =
        let v = play_all-Solvent ms (idle s) below honest few (idle-Solvent s sized fits) in
        le_trans
          (exact_bytes-le size host.cfg.max_object_bytes v.list
            (play_all host hs gate ms (idle s)).shared.held
            (play_all-IsHostState host hs gate ms (idle s) valid) v.booked)
          v.room
