-- ===== src/Host/Offer/Capacity/Quiet.antt =====
-- An offer of src/host.rs that is served alone, and the disk budget.
use ce_pin.Prelude.{
  Bool-cases, ◌⊎◌, inl, inr, ℕ, ◌+◌, ◌≤◌, ◌<◌, ◌≡◌, refl, true, false, length, arith, Bool-cases,
  inl, inr, ltb, u64_max,
}
use native.Mathlib.Nat.{le_trans}
use ce_pin.Prelude.Text.{Text}
use ce_pin.Files.{Bytes}
use ce_pin.Held.{contains}
use ce_pin.Held.Capacity.{exact_bytes, exact_bytes-insert, total_bytes-exact}
use ce_pin.Config.{Admission, admitted, rejected}
use ce_pin.Config.Admit.{admit-iff_Fits}
use ce_pin.Proto.{OfferReq, OfferResp}
use ce_pin.Host.{Host, HostState, height_or_zero}
use ce_pin.Host.Offer.{
  OfferCall, object, new_entry, commit, settle, fetch_and_commit, admit_then, admission,
  drop_expired, do_offer,
}
use ce_pin.Host.Offer.Capacity.{
  IsHostState, IsQuiet, drop_expired-IsHostState, exact_bytes-drop_expired,
}

commit-exact_bytes :
    (host : Host) (call : OfferCall) (req : OfferReq) (publisher : Text) (actual : ℕ)
    (s : HostState)
    → IsHostState s
    → exact_bytes (commit host call req publisher actual s).1.held ≤ exact_bytes s.held + actual
unfolding commit
commit-exact_bytes host call req publisher actual s v =
    omega (arith, exact_bytes-insert s.held req.cid (new_entry call req publisher actual) v)

-- What the reply says of the bytes after it.
abbrev Bounded : ℕ → ℕ → OfferResp × HostState → Type 0
Bounded budget before (reply, t) =
    (reply.accepted ≡ true → exact_bytes t.held ≤ budget)
    × (reply.accepted ≡ false → exact_bytes t.held ≤ before)

settle-Bounded :
    (host : Host) (call : OfferCall) (req : OfferReq) (publisher : Text) (bytes : Bytes)
    (s : HostState)
    → IsHostState s
    → Bounded
        (exact_bytes s.held + length bytes)
        (exact_bytes s.held)
        (settle host call req publisher false s (object bytes))
unfolding settle commit
settle-Bounded host call req publisher bytes s v =
    elim (Bool-cases (ltb host.cfg.max_object_bytes (length bytes))) [
      | inl big ↦ rw big (λ a. cc, λ a. omega arith)
      | inr small ↦
          rw small (λ a. commit-exact_bytes host call req publisher (length bytes) s v, λ a. cc)
    ]

admit_then-Bounded :
    (host : Host) (call : OfferCall) (req : OfferReq) (publisher : Text) (bytes : Bytes)
    (before : ℕ) (a : Admission) (s : HostState)
    → IsQuiet call
    → call.fetched ≡ object bytes
    → IsHostState s
    → exact_bytes s.held ≤ before
    → (a ≡ admitted → exact_bytes s.held + length bytes ≤ host.cfg.capacity_bytes)
    → Bounded host.cfg.capacity_bytes before (admit_then host call req publisher (a, s))
unfolding fetch_and_commit
admit_then-Bounded host call req publisher bytes before (rejected r) s q e v h room =
    (λ a. cc, λ a. h)
admit_then-Bounded host call req publisher bytes before admitted s q e v h room =
    let b = settle-Bounded host call req publisher bytes s v in
    rw (e, q.fetching s) (λ a. le_trans (b.0 a) (room refl), λ a. le_trans (b.1 a) h)

do_offer-Bounded :
    (host : Host) (call : OfferCall) (req : OfferReq) (publisher : Text) (s : HostState)
    (bytes : Bytes)
    → IsQuiet call
    → IsHostState s
    → host.cfg.capacity_bytes < u64_max
    → exact_bytes s.held ≤ u64_max
    → contains s.held req.cid ≡ false
    → call.fetched ≡ object bytes
    → length bytes ≤ req.bytes_len
    → let (reply, t) = do_offer host call req publisher s in
      (reply.accepted ≡ true → exact_bytes t.held ≤ host.cfg.capacity_bytes)
      × (reply.accepted ≡ false → exact_bytes t.held ≤ exact_bytes s.held)
unfolding do_offer fetch_and_commit admission
do_offer-Bounded host call req publisher s bytes q v cap fits new got honest =
    let swept = drop_expired (height_or_zero call.height) s in
    let less = exact_bytes-drop_expired (height_or_zero call.height) s v in
    rw (new, q.status s)
      (admit_then-Bounded host call req publisher bytes (exact_bytes s.held) _ swept q got
        (drop_expired-IsHostState (height_or_zero call.height) s v) less
        (λ a.
          let room = ((admit-iff_Fits host.cfg _ _ _ cap).0 a).room in
          omega (arith, total_bytes-exact swept.held (le_trans less fits), room)))

-- A new offer whose declared size is honest never takes the host over its budget, if no other task
-- changes the state meanwhile: when it is accepted the held entries take no more than the budget,
-- and when it is not they take no more than before.
do_offer-within_capacity :
    (host : Host) (call : OfferCall) (req : OfferReq) (publisher : Text) (s : HostState)
    (bytes : Bytes)
    → IsQuiet call
    → IsHostState s
    → host.cfg.capacity_bytes < u64_max
    → exact_bytes s.held ≤ u64_max
    → contains s.held req.cid ≡ false
    → call.fetched ≡ object bytes
    → length bytes ≤ req.bytes_len
    → let (reply, t) = do_offer host call req publisher s in
      ((reply.accepted ≡ true) × (exact_bytes t.held ≤ host.cfg.capacity_bytes))
      ⊎ ((reply.accepted ≡ false) × (exact_bytes t.held ≤ exact_bytes s.held))
do_offer-within_capacity host call req publisher s bytes q v cap fits new got honest =
    let (room, less) =
      do_offer-Bounded host call req publisher s bytes q v cap fits new got honest in
    elim (Bool-cases (do_offer host call req publisher s).0.accepted) [
      | inl yes' ↦ inl (yes', room yes')
      | inr no' ↦ inr (no', less no')
    ]
