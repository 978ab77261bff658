-- ===== src/Host/Gc/Laws.antt =====
-- `run_gc` and `readvertise` of src/host.rs: what they leave of the held-set and what they
-- advertise.
use ce_pin.Prelude.{
  ℕ, ◌≤◌, ◌≡◌, refl, sym, ap, ◌∙◌, true, false, Option, none, List, [], ◌∷◌, arith, ◌⊎◌, le→leb,
  Bool-cases, inl, inr, if◌then◌else◌, u64_max,
}
use native.Mathlib.Nat.{le_trans}
use ce_pin.Prelude.Text.{Text, text_eq}
use ce_pin.Prelude.Text as Texts
use ce_pin.Prelude.Text.Laws.{text_eq_iff, text_eq_refl}
use ce_pin.Prelude.Map
use ce_pin.Prelude.Map.Laws.{lookup-remove_all, has_key-contains}
use ce_pin.Held.{HeldSet, expired, evict_to_fit, remove_each, total_bytes}
use ce_pin.Held.Capacity.{
  exact_bytes, IsHeldSet, remove_each-IsHeldSet, exact_bytes-remove_each-le, remove_each-entries,
}
use ce_pin.Held.Lease.{lapsed, expired-lapsed}
use ce_pin.Held.Eviction.{evict_to_fit-fits}
use ce_pin.Proto.{service_host, service_for}
use ce_pin.Host.{Host, HostState, Disk, persist, advertise, height_or_zero}
use ce_pin.Host.Gc.{gc_dropped, gc_held, finish_gc, run_gc, advertise_each, readvertise}

finish_gc-held :
    (host : Host) (disk : Disk) (dropped : List Text) (s : HostState)
    → (finish_gc host disk dropped s).held ≡ s.held
unfolding persist
finish_gc-held host disk [] s = refl
finish_gc-held host disk (cid ∷ cids) s = refl

pub run_gc-held :
    (host : Host) (answer : Option ℕ) (disk : Disk) (s : HostState)
    → (run_gc host answer disk s).held ≡ gc_held host (height_or_zero answer) s.held
unfolding run_gc
run_gc-held host answer disk s = finish_gc-held host disk _ _

-- What a lookup finds once each CID of a list is removed.
pub lookup-remove_each :
    (cids : List Text) (cid : Text) (h : HeldSet)
    → Map.lookup cid (remove_each cids h).entries
      ≡ (if Texts.contains cids cid then none else Map.lookup cid h.entries)
lookup-remove_each cids cid h =
    ap (Map.lookup cid) (remove_each-entries cids h) ∙ lookup-remove_all cids cid h.entries

-- After a collection the held entries take no more than the budget, by their exact sum and by the
-- host's own total, if before it they added up to a u64.
pub run_gc-fits :
    (host : Host) (answer : Option ℕ) (disk : Disk) (s : HostState)
    → IsHeldSet s.held
    → exact_bytes s.held ≤ u64_max
    → let after = (run_gc host answer disk s).held in
      (exact_bytes after ≤ host.cfg.capacity_bytes) × (total_bytes after ≤ host.cfg.capacity_bytes)
unfolding gc_held
run_gc-fits host answer disk s v fits =
    let height = height_or_zero answer in
    let cids = expired s.held height in
    rw (run_gc-held host answer disk s) (
      evict_to_fit-fits (remove_each cids s.held) (remove_each-IsHeldSet cids s.held v)
        host.cfg.capacity_bytes height (le_trans (exact_bytes-remove_each-le cids s.held v) fits))

-- A collection leaves of each CID what was there or nothing, and nothing if its lease had run out
-- at the height that the node reported.
pub run_gc-lookup :
    (host : Host) (answer : Option ℕ) (disk : Disk) (s : HostState) (cid : Text)
    → IsHeldSet s.held
    → let after = Map.lookup cid (run_gc host answer disk s).held.entries in
      (after ≡ none)
      ⊎ ((after ≡ Map.lookup cid s.held.entries)
          × (lapsed (height_or_zero answer) (Map.lookup cid s.held.entries) ≡ false))
unfolding gc_held
run_gc-lookup host answer disk s cid v =
    let height = height_or_zero answer in
    let cids = expired s.held height in
    let live = remove_each cids s.held in
    rw (run_gc-held host answer disk s) (
      ground (
        arith,
        lookup-remove_each cids cid s.held,
        lookup-remove_each (evict_to_fit live host.cfg.capacity_bytes height) cid live,
        expired-lapsed s.held cid height v,
      ))

-- With nothing expired and the total within the budget, a collection changes nothing at all.
pub run_gc-idle :
    (host : Host) (answer : Option ℕ) (disk : Disk) (s : HostState)
    → expired s.held (height_or_zero answer) ≡ []
    → total_bytes s.held ≤ host.cfg.capacity_bytes
    → run_gc host answer disk s ≡ s
unfolding run_gc gc_held gc_dropped evict_to_fit remove_each
run_gc-idle host answer disk s none_expired fits = rw (none_expired, le→leb _ _ fits) refl

advertise_each-contains :
    (cids : List Text) (service : Text) (s : HostState)
    → Texts.contains s.advertised service ≡ true
    → Texts.contains (advertise_each cids s).advertised service ≡ true
unfolding advertise_each Texts.contains
advertise_each-contains [] service s h = h
advertise_each-contains (cid ∷ cids) service s h =
    advertise_each-contains cids service (advertise (service_for cid) s) (ground arith)

advertise_each-all :
    (cids : List Text) (cid : Text) (s : HostState)
    → Texts.contains cids cid ≡ true
    → Texts.contains (advertise_each cids s).advertised (service_for cid) ≡ true
unfolding advertise_each Texts.contains
advertise_each-all [] cid s h = cc
advertise_each-all (k ∷ cids) cid s h = elim (Bool-cases (text_eq cid k)) [
  | inl here ↦
      let e = (text_eq_iff cid k).0 here in
      advertise_each-contains cids (service_for cid) (advertise (service_for k) s)
        (rw (e, text_eq_refl (service_for k)))
  | inr later ↦ advertise_each-all cids cid (advertise (service_for k) s) (ground arith)
]

-- Each held CID is advertised again, and the host's own service; the held-set stays.
pub readvertise-all :
    (s : HostState) (cid : Text)
    → Map.has_key cid s.held.entries ≡ true
    → let after = (readvertise s).advertised in
      (Texts.contains after (service_for cid) ≡ true) × (Texts.contains after service_host ≡ true)
unfolding readvertise Texts.contains
readvertise-all s cid h = (
  advertise_each-all (Map.keys s.held.entries) cid (advertise service_host s)
      (sym (has_key-contains cid s.held.entries) ∙ h),
  advertise_each-contains (Map.keys s.held.entries) service_host (advertise service_host s)
      (rw (text_eq_refl service_host)),
)
