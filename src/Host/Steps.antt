-- ===== src/Host/Steps.antt =====
-- The host of src/host.rs as a state machine: the loop of `serve_with` hands it requests, and the
-- timers of `maintenance_loop` run beside them.
pub mod Handlers
pub mod Invariant
use ce_pin.Prelude.Text.{Text}
use ce_pin.Audit.{Hashing}
use ce_pin.Host.{Host, HostState}
use ce_pin.Host.Gc.{Tick, maintain}
use ce_pin.Host.Dispatch.{Gate, Call, handle}

-- What happens to a host: a request with its topic, sender and payload, or a timer.
pub data Event : Type 0 where
  request : Call → Text → Text → Text → Event
  timer : Tick → Event

unfoldable pub react : Host → Hashing → Gate → Event → HostState → HostState
unfolding handle maintain
react host hs gate (request call topic from_hex payload_hex) s =
    (handle host hs gate call topic from_hex payload_hex s).1
react host hs gate (timer tick) s = maintain host hs tick s

-- The states that a host comes to from `start` by events that `P` holds of.
pub data Reach (host : Host) (hs : Hashing) (gate : Gate) (P : Event → Type 0) (start : HostState)
    : HostState → Type 0 where
  here : Reach host hs gate P start start
  after :
      {s : HostState}
      → Reach host hs gate P start s
      → (e : Event) → P e
      → Reach host hs gate P start (react host hs gate e s)
