-- ===== src/Held/Lease.antt =====
-- `HeldSet::expired` of src/held.rs: which CIDs it lists.
use ce_pin.Prelude.{ℕ, ◌≡◌, refl, false, Bool, [], ◌∷◌, Option, none, some, arith, filter}
use ce_pin.Prelude.Text.{Text, contains}
use ce_pin.Prelude.Text.Laws.{text_cmp-eq}
use ce_pin.Prelude.Map.{Map, IsMap, Above, lookup, keys}
use ce_pin.Held.{HeldEntry, HeldSet, expired, is_expired}
use ce_pin.Held.Capacity.{IsHeldSet}

-- The test that `expired` makes of what is held under a CID.
abbrev pub lapsed : ℕ → Option HeldEntry → Bool
lapsed height none = false
lapsed height (some e) = is_expired height e

expired_keys-Above :
    (height : ℕ) (cid : Text) (m : Map HeldEntry)
    → Above cid m
    → contains (keys (filter (λ e. is_expired height e.1) m)) cid ≡ false
unfolding contains keys
expired_keys-Above height cid [] a = refl
expired_keys-Above height cid ((k, e) ∷ m) a = ground (arith, expired_keys-Above height cid m a.1)

expired_keys-lapsed :
    (height : ℕ) (cid : Text) (m : Map HeldEntry)
    → IsMap m
    → contains (keys (filter (λ e. is_expired height e.1) m)) cid ≡ lapsed height (lookup cid m)
unfolding contains keys lookup
expired_keys-lapsed height cid [] v = refl
expired_keys-lapsed height cid ((k, e) ∷ m) v = ground (
  arith,
  text_cmp-eq cid k,
  expired_keys-Above height k m v.0,
  expired_keys-lapsed height cid m v.1,
)

-- `expired` lists a CID just when it is held under a lease that is not open-ended and has run out.
pub expired-lapsed :
    (h : HeldSet) (cid : Text) (height : ℕ)
    → IsHeldSet h
    → contains (expired h height) cid ≡ lapsed height (lookup cid h.entries)
unfolding expired
expired-lapsed h cid height v = expired_keys-lapsed height cid h.entries v
