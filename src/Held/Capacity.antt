-- ===== src/Held/Capacity.antt =====
-- Byte accounting of src/held.rs: the saturating total, the exact sum, and the operations.
use ce_pin.Prelude.{ℕ, ◌+◌, ◌≤◌, min, ◌≡◌, refl, List, [], ◌∷◌, arith, u64_max, sat_add_64}
use ce_pin.Prelude.Text.{Text}
use ce_pin.Prelude.Map
use ce_pin.Prelude.Map.{Map, IsMap}
use ce_pin.Prelude.Map.Laws.{insert-IsMap, remove-IsMap, modify-IsMap}
use ce_pin.Prelude.Map.Sum.{sum, weight_of, sum-insert, sum-remove, sum-modify}
use ce_pin.Held.{HeldEntry, HeldSet, fold_bytes, total_bytes, insert, touch, remove, remove_each}

-- The bytes that the entries really take.
abbrev pub exact_bytes : HeldSet → ℕ
exact_bytes h = sum (λ e. e.bytes) h.entries

-- What holds of every held-set in memory.
abbrev pub IsHeldSet : HeldSet → Type 0
IsHeldSet h = IsMap h.entries

fold_bytes-min :
    (acc : ℕ) (m : Map HeldEntry)
    → acc ≤ u64_max
    → fold_bytes acc m ≡ min (acc + sum (λ e. e.bytes) m) u64_max
unfolding fold_bytes sum
fold_bytes-min acc [] h = omega arith
fold_bytes-min acc ((cid, e) ∷ m) h =
    omega (arith, fold_bytes-min (sat_add_64 acc e.bytes) m (omega arith))

-- The total is the exact sum, held at the largest u64.
pub total_bytes-min : (h : HeldSet) → total_bytes h ≡ min (exact_bytes h) u64_max
unfolding total_bytes
total_bytes-min h = omega (arith, fold_bytes-min 0 h.entries (omega arith))

pub total_bytes-exact : (h : HeldSet) → exact_bytes h ≤ u64_max → total_bytes h ≡ exact_bytes h
total_bytes-exact h fits = omega (arith, total_bytes-min h)

bytes_at : Text → HeldSet → ℕ
bytes_at cid h = weight_of (λ e. e.bytes) (Map.lookup cid h.entries)

-- `remove` returns just the bytes by which the sum falls.
pub exact_bytes-remove :
    (h : HeldSet) (cid : Text)
    → IsHeldSet h
    → exact_bytes (remove h cid).0 + (remove h cid).1 ≡ exact_bytes h
unfolding remove
exact_bytes-remove h cid v = ground (arith, sum-remove (λ (e : HeldEntry). e.bytes) cid h.entries v)

pub exact_bytes-insert :
    (h : HeldSet) (cid : Text) (e : HeldEntry)
    → IsHeldSet h
    → exact_bytes (insert h cid e) + (remove h cid).1 ≡ exact_bytes h + e.bytes
unfolding insert remove
exact_bytes-insert h cid e v =
    ground (arith, sum-insert (λ (x : HeldEntry). x.bytes) cid e h.entries v)

pub exact_bytes-touch :
    (h : HeldSet) (cid : Text) (now : ℕ) → exact_bytes (touch h cid now) ≡ exact_bytes h
unfolding touch
exact_bytes-touch h cid now = sum-modify (λ e. e.bytes) cid _ h.entries (λ e. refl)

pub insert-IsHeldSet :
    (h : HeldSet) (cid : Text) (e : HeldEntry) → IsHeldSet h → IsHeldSet (insert h cid e)
unfolding insert
insert-IsHeldSet h cid e v = insert-IsMap cid e h.entries v

pub remove-IsHeldSet : (h : HeldSet) (cid : Text) → IsHeldSet h → IsHeldSet (remove h cid).0
unfolding remove
remove-IsHeldSet h cid v = remove-IsMap cid h.entries v

pub touch-IsHeldSet :
    (h : HeldSet) (cid : Text) (now : ℕ) → IsHeldSet h → IsHeldSet (touch h cid now)
unfolding touch
touch-IsHeldSet h cid now v = modify-IsMap cid _ h.entries v

pub remove_each-entries :
    (cids : List Text) (h : HeldSet) → (remove_each cids h).entries ≡ Map.remove_all cids h.entries
unfolding remove_each remove Map.remove_all
remove_each-entries [] h = refl
remove_each-entries (cid ∷ cids) h = remove_each-entries cids (remove h cid).0

pub remove_each-IsHeldSet :
    (cids : List Text) (h : HeldSet) → IsHeldSet h → IsHeldSet (remove_each cids h)
unfolding remove_each
remove_each-IsHeldSet [] h v = v
remove_each-IsHeldSet (cid ∷ cids) h v =
    remove_each-IsHeldSet cids (remove h cid).0 (remove-IsHeldSet h cid v)

pub exact_bytes-remove_each-le :
    (cids : List Text) (h : HeldSet)
    → IsHeldSet h
    → exact_bytes (remove_each cids h) ≤ exact_bytes h
unfolding remove_each
exact_bytes-remove_each-le [] h v = omega arith
exact_bytes-remove_each-le (cid ∷ cids) h v = omega (
  arith,
  exact_bytes-remove h cid v,
  exact_bytes-remove_each-le cids (remove h cid).0 (remove-IsHeldSet h cid v),
)
