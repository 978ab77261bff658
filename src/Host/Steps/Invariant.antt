-- ===== src/Host/Steps/Invariant.antt =====
-- What every state of a running host satisfies.
use ce_pin.Host.Steps.Handlers.{IsKept, check_and_run-IsHostState}
use ce_pin.Prelude.{ℕ, sym, subst, ◌≡◌, refl, none, some, Option, List, [], ◌∷◌}
use ce_pin.Prelude.Text.{Text}
use ce_pin.Prelude.Map
use ce_pin.Audit.{Hashing}
use ce_pin.Held.Capacity.{IsHeldSet, remove_each-IsHeldSet}
use ce_pin.Proto.{service_host}
use ce_pin.Host.{advertise, persist, Host, HostState, Disk}
use ce_pin.Host.Offer.Capacity.{IsHostState}
use ce_pin.Host.Gc.{
  Tick, every_10s, every_30s, maintain, run_gc, readvertise, refresh_revoked, advertise_each,
  gc_held, gc_expired, finish_gc,
}
use ce_pin.Host.Dispatch.{Gate, handle}
use ce_pin.Host.Steps.{Event, request, timer, react, Reach, here, after}

advertise_each-held : (cids : List Text) (s : HostState) → (advertise_each cids s).held ≡ s.held
unfolding advertise_each
advertise_each-held [] s = refl
advertise_each-held (cid ∷ cids) s = advertise_each-held cids _

finish_gc-held :
    (host : Host) (disk : Disk) (cids : List Text) (s : HostState)
    → (finish_gc host disk cids s).held ≡ s.held
unfolding persist
finish_gc-held host disk [] s = refl
finish_gc-held host disk (cid ∷ cids) s = refl

pub run_gc-IsHostState :
    (host : Host) (answer : Option ℕ) (disk : Disk) (s : HostState)
    → IsHostState s
    → IsHostState (run_gc host answer disk s)
unfolding run_gc gc_held gc_expired
run_gc-IsHostState host answer disk s h =
    subst IsHeldSet (sym (finish_gc-held host disk _ _))
      (remove_each-IsHeldSet _ _ (remove_each-IsHeldSet _ s.held h))

pub readvertise-held : (s : HostState) → (readvertise s).held ≡ s.held
unfolding readvertise
readvertise-held s = advertise_each-held (Map.keys s.held.entries) (advertise service_host s)

pub readvertise-IsHostState : (s : HostState) → IsHostState s → IsHostState (readvertise s)
readvertise-IsHostState s = subst IsHeldSet (sym (readvertise-held s))

pub refresh_revoked-held :
    (hs : Hashing) (pairs : Option (List (Text × ℕ))) (s : HostState)
    → (refresh_revoked hs pairs s).held ≡ s.held
unfolding refresh_revoked
refresh_revoked-held hs none s = refl
refresh_revoked-held hs (some pairs) s = refl

maintain-IsHostState :
    (host : Host) (hs : Hashing) (tick : Tick) (s : HostState)
    → IsHostState s
    → IsHostState (maintain host hs tick s)
unfolding maintain
maintain-IsHostState host hs (every_10s revoked) s h =
    readvertise-IsHostState (refresh_revoked hs revoked s)
      (subst IsHeldSet (sym (refresh_revoked-held hs revoked s)) h)
maintain-IsHostState host hs (every_30s height disk) s h = run_gc-IsHostState host height disk s h

react-IsHostState :
    (host : Host) (hs : Hashing) (gate : Gate) (e : Event)
    → IsKept e
    → (s : HostState) → IsHostState s
    → IsHostState (react host hs gate e s)
unfolding react handle
react-IsHostState host hs gate (request call topic from_hex payload_hex) k s h =
    check_and_run-IsHostState host hs gate call from_hex _ _ _ k s h
react-IsHostState host hs gate (timer tick) k s h = maintain-IsHostState host hs tick s h

-- From a held-set whose keys are in strict order, every state that the host comes to by requests and
-- timers has one, whatever is asked of it, if the other tasks keep that order while a request waits.
pub Reach-IsHostState :
    (host : Host) (hs : Hashing) (gate : Gate) (start : HostState)
    → IsHostState start
    → {s : HostState} → Reach host hs gate IsKept start s
    → IsHostState s
Reach-IsHostState host hs gate start h here = h
Reach-IsHostState host hs gate start h (after {s} r e k) =
    react-IsHostState host hs gate e k s (Reach-IsHostState host hs gate start h r)
