-- ===== src/Held.antt =====
-- src/held.rs: the host's held-set, from each held CID to its commitment record, with byte
-- accounting, expiry and eviction. Reading and writing its file is in `Held.Storage`.
pub mod Lease
pub mod Capacity
pub mod Ranking
pub mod Victims
pub mod Eviction
pub mod Storage
use ce_pin.Prelude.{
  ℕ, zero, suc, ◌-◌, ◌≤◌, compare, Bool, true, false, not, ◌&&◌, Option, none, some, List, [], ◌∷◌,
  leb, ◌==◌, if◌then◌else◌, unwrap_or, length, filter, u64_max, u128_max, sat_add_64,
}
use ce_pin.Prelude.Order.{Cmp, on, then_by, descending, bool_cmp}
use ce_pin.Prelude.Order.Sort.{sort_by}
use ce_pin.Prelude.Text.{Text, text_cmp, trim, parse_uint}
use ce_pin.Prelude.Map
use ce_pin.Prelude.Map.{Map}

-- `HELD_SCHEMA_VERSION`
abbrev pub held_schema_version : ℕ
held_schema_version = 1

pub record HeldEntry : Type 0 where
  pub bytes : ℕ
  pub rent_per_gb_hour : Text
  pub expiry_height : ℕ
  pub pinned_at : ℕ
  pub last_access : ℕ
  pub publisher : Text

unfoldable pub rent_base : HeldEntry → ℕ
rent_base e = unwrap_or (parse_uint u128_max (trim e.rent_per_gb_hour)) 0

-- `HeldEntry::default_record`
abbrev pub default_record : HeldEntry
default_record = record {
  bytes = 0;
  rent_per_gb_hour = [];
  expiry_height = 0;
  pinned_at = 0;
  last_access = 0;
  publisher = [];
}

pub record HeldSet : Type 0 where
  pub version : ℕ
  pub entries : Map HeldEntry

-- `HeldSet::default`
abbrev pub default_set : HeldSet
default_set = record { version = 0; entries = [] }

unfoldable pub contains : HeldSet → Text → Bool
contains h cid = Map.has_key cid h.entries

unfoldable pub len : HeldSet → ℕ
len h = length h.entries

abbrev no_keys : Map HeldEntry → Bool
no_keys [] = true
no_keys (e ∷ m) = false

unfoldable pub is_empty : HeldSet → Bool
is_empty h = no_keys h.entries

fold_bytes : ℕ → Map HeldEntry → ℕ
fold_bytes acc [] = acc
fold_bytes acc ((cid, e) ∷ m) = fold_bytes (sat_add_64 acc e.bytes) m

unfoldable pub total_bytes : HeldSet → ℕ
unfolding fold_bytes
total_bytes h = fold_bytes 0 h.entries

unfoldable pub insert : HeldSet → Text → HeldEntry → HeldSet
insert h cid entry = record h { entries = Map.insert cid entry h.entries }

unfoldable pub touch : HeldSet → Text → ℕ → HeldSet
touch h cid now = record h {
  entries = Map.modify cid (λ e. record e { last_access = now }) h.entries;
}

freed : Option HeldEntry → ℕ
freed none = 0
freed (some e) = e.bytes

-- The new set, and the bytes that were freed.
unfoldable pub remove : HeldSet → Text → HeldSet × ℕ
unfolding freed
remove h cid = (record h { entries = Map.remove cid h.entries }, freed (Map.lookup cid h.entries))

abbrev pub is_expired : ℕ → HeldEntry → Bool
is_expired current_height e = not (e.expiry_height == 0) && leb e.expiry_height current_height

unfoldable pub expired : HeldSet → ℕ → List Text
expired h current_height = Map.keys (filter (λ e. is_expired current_height e.1) h.entries)

-- Expired first, then the lowest rent, then the longest unused, then the CID.
abbrev pub evict_cmp : ℕ → Cmp (Text × HeldEntry)
evict_cmp current_height =
    then_by
      (then_by
        (then_by (descending (on (λ e. is_expired current_height e.1) bool_cmp))
          (on (λ e. rent_base e.1) compare))
        (on (λ e. e.1.last_access) compare))
      (on (λ e. e.0) text_cmp)

-- The loop over the ranked entries.
pub take_victims : ℕ → Map HeldEntry → List Text
take_victims need_to_free [] = []
take_victims need_to_free ((cid, e) ∷ ranked) =
    let victims = take_victims (need_to_free - e.bytes) ranked in
    if need_to_free == 0 then [] else cid ∷ victims

unfoldable pub evict_to_fit : HeldSet → ℕ → ℕ → List Text
unfolding take_victims
evict_to_fit h target_bytes current_height =
    let total = total_bytes h in
    if leb total target_bytes
    then []
    else take_victims (total - target_bytes) (sort_by (evict_cmp current_height) h.entries)

-- The loops of the host that drop each CID of a list.
unfoldable pub remove_each : List Text → HeldSet → HeldSet
remove_each [] h = h
remove_each (cid ∷ cids) h = remove_each cids (remove h cid).0
