-- ===== src/Host/Offer/Capacity.antt =====
-- `do_offer` of src/host.rs and the disk budget.
pub mod Quiet
use ce_pin.Prelude.{
  Bool-cases, ◌⊎◌, inl, inr, ℕ, ◌+◌, ◌≤◌, ◌<◌, ◌≡◌, refl, Bool, true, false, length, arith,
  Bool-cases, inl, inr, if◌then◌else◌, ltb, le→ltb-false, u64_max,
}
use native.Mathlib.Nat.{le_trans}
use ce_pin.Prelude.Text.{Text}
use ce_pin.Prelude.Map
use ce_pin.Prelude.Map.Laws.{lookup-remove_all}
use ce_pin.Files.{Bytes}
use ce_pin.Held.{HeldSet, contains, expired, remove}
use ce_pin.Held.Capacity.{
  exact_bytes, IsHeldSet, exact_bytes-insert, exact_bytes-remove_each-le, insert-IsHeldSet,
  remove_each-IsHeldSet, remove_each-entries, total_bytes-exact,
}
use ce_pin.Config.{Admission, admitted, rejected}
use ce_pin.Config.Admit.{admit-iff_Fits}
use ce_pin.Proto.{OfferReq, OfferResp}
use ce_pin.Host.{Host, HostState, Interference, height_or_zero}
use ce_pin.Host.Offer.{
  OfferCall, Fetched, object, failed, timed_out, new_entry, commit, settle, fetch_and_commit,
  admit_then, admission, drop_expired, do_offer,
}

-- What every state of a host satisfies: the held-set's keys are in order, so no CID is held twice.
abbrev pub IsHostState : HostState → Type 0
IsHostState s = IsHeldSet s.held

abbrev pub Keeps : Interference → Type 0
Keeps f = (s : HostState) → IsHostState s → IsHostState (f s)

pub drop_expired-IsHostState : (height : ℕ) → Keeps (drop_expired height)
unfolding drop_expired
drop_expired-IsHostState height s v = remove_each-IsHeldSet (expired s.held height) s.held v

pub exact_bytes-drop_expired :
    (height : ℕ) (s : HostState)
    → IsHostState s
    → exact_bytes (drop_expired height s).held ≤ exact_bytes s.held
unfolding drop_expired
exact_bytes-drop_expired height s v = exact_bytes-remove_each-le (expired s.held height) s.held v

pub settle-IsHostState :
    (host : Host) (call : OfferCall) (req : OfferReq) (publisher : Text) (already : Bool)
    (s : HostState) (f : Fetched)
    → IsHostState s
    → IsHostState (settle host call req publisher already s f).1
unfolding settle commit
settle-IsHostState host call req publisher already s failed v = v
settle-IsHostState host call req publisher already s timed_out v = v
settle-IsHostState host call req publisher already s (object bytes) v =
    ground
      (arith, v, insert-IsHeldSet s.held req.cid (new_entry call req publisher (length bytes)) v)

admit_then-IsHostState :
    (host : Host) (call : OfferCall) (req : OfferReq) (publisher : Text) (a : Admission × HostState)
    → Keeps call.while_fetching
    → IsHostState a.1
    → IsHostState (admit_then host call req publisher a).1
unfolding fetch_and_commit
admit_then-IsHostState host call req publisher (rejected r, s) k v = v
admit_then-IsHostState host call req publisher (admitted, s) k v =
    settle-IsHostState host call req publisher false (call.while_fetching s) call.fetched (k s v)

-- `do_offer` keeps the held-set in order if the other tasks do.
pub do_offer-IsHostState :
    (host : Host) (call : OfferCall) (req : OfferReq) (publisher : Text)
    → Keeps call.while_status
    → Keeps call.while_fetching
    → (s : HostState) → IsHostState s
    → IsHostState (do_offer host call req publisher s).1
unfolding do_offer fetch_and_commit admission
do_offer-IsHostState host call req publisher ks kf s v =
    elim (contains s.held req.cid)
      as (λ b.
        IsHostState
          (if b
            then fetch_and_commit host call req publisher true s
            else admit_then host call req publisher (admission host call req s)).1) [
              | true ↦
                  settle-IsHostState host call req publisher true (call.while_fetching s)
                    call.fetched (kf s v)
              | false ↦
                  admit_then-IsHostState host call req publisher (admission host call req s) kf (
                    drop_expired-IsHostState (height_or_zero call.height) (call.while_status s)
                      (ks s v))
            ]

-- No other task touches the state while the offer waits.
pub record IsQuiet (call : OfferCall) : Type 0 where
  pub status : (s : HostState) → call.while_status s ≡ s
  pub fetching : (s : HostState) → call.while_fetching s ≡ s

pub freed_absent : (h : HeldSet) (cid : Text) → contains h cid ≡ false → (remove h cid).1 ≡ 0
unfolding contains remove Map.has_key
freed_absent h cid e = ground arith

pub drop_expired-absent :
    (height : ℕ) (s : HostState) (cid : Text)
    → contains s.held cid ≡ false
    → contains (drop_expired height s).held cid ≡ false
unfolding contains drop_expired Map.has_key
drop_expired-absent height s cid e = ground (
  arith,
  remove_each-entries (expired s.held height) s.held,
  lookup-remove_all (expired s.held height) cid s.held.entries,
)

-- The case that admission does not cover: an offer that declares few enough bytes and whose object
-- is within the limit for one object, yet larger than declared, is accepted also when its bytes take
-- the host over the budget.
pub do_offer-over_capacity :
    (host : Host) (call : OfferCall) (req : OfferReq) (publisher : Text) (s : HostState)
    (bytes : Bytes)
    → IsQuiet call
    → IsHostState s
    → contains s.held req.cid ≡ false
    → call.fetched ≡ object bytes
    → (admission host call req s).0 ≡ admitted
    → length bytes ≤ host.cfg.max_object_bytes
    → host.cfg.capacity_bytes
      < exact_bytes (drop_expired (height_or_zero call.height) s).held + length bytes
    → let (reply, t) = do_offer host call req publisher s in
      (reply.accepted ≡ true) × (host.cfg.capacity_bytes < exact_bytes t.held)
unfolding do_offer fetch_and_commit settle commit admission
do_offer-over_capacity host call req publisher s bytes q v new got ok small over =
    let swept = drop_expired (height_or_zero call.height) s in
    let ok' = rw (q.status s) at ok in
    rw (new, q.status s, ok', got, q.fetching swept, le→ltb-false _ _ small)
      (
        refl,
        omega (
          arith,
          exact_bytes-insert swept.held req.cid (new_entry call req publisher (length bytes))
              (drop_expired-IsHostState (height_or_zero call.height) s v),
          freed_absent swept.held req.cid
              (drop_expired-absent (height_or_zero call.height) s req.cid new),
        ),
      )
