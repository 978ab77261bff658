-- ===== src/Examples/HeldSets.antt =====
-- The theorems on files, the held-set, the configuration and the placement at concrete inputs.
use ce_pin.Files.Crash.{no_faults}
use ce_pin.Prelude.{
  ℕ, ◌+◌, ◌≤◌, ◌<◌, ◌≡◌, refl, true, false, none, some, List, [], ◌∷◌, ◌++◌, ◌⊎◌, ◌↔◌, take, min,
  arith, length, u64_max, All, if◌then◌else◌, sat_add_64,
}
use ce_pin.Prelude.Order.Sort.{IsSorted}
use ce_pin.Prelude.Text.{Text, lit}
use ce_pin.Prelude.Text as Texts
use ce_pin.Prelude.Map
use ce_pin.Files.{Bytes, Directory, atomic_write, perform_all}
use ce_pin.Files.Crash.{atomic_write-crash}
use ce_pin.Held.{
  HeldSet, contains, total_bytes, expired, evict_to_fit, remove_each, default_set, default_record,
  held_schema_version,
}
use ce_pin.Held.Capacity.{exact_bytes, IsHeldSet}
use ce_pin.Held.Ranking.{GoesFirst}
use ce_pin.Held.Eviction.{evict_to_fit-fits, evict_to_fit-needed, evict_to_fit-GoesFirst}
use ce_pin.Held.Storage.{load, loaded, save, saved}
use ce_pin.Held.Storage.Recovery.{load-save}
use ce_pin.Config.{admit, rejected, offered_rent, rent_too_low}
use ce_pin.Placement.{Candidate, select}
use ce_pin.Examples.{open_ended, leased, two_held, toy_json, toy_json-RoundTrips, toy_host}

two_held-IsHeldSet : IsHeldSet two_held
unfolding Texts.text_cmp
two_held-IsHeldSet = ((refl, tt), (tt, tt))

atomic_write-crash_example :
    let ops = (atomic_write no_faults (lit "1") (lit "f") (1 ∷ 2 ∷ [])).0 in
    (Map.lookup (lit "f") (perform_all (take 2 ops) ((lit "f", 9 ∷ []) ∷ []))
      ≡ Map.lookup (lit "f") ((lit "f", 9 ∷ []) ∷ []))
    ⊎ (Map.lookup (lit "f") (perform_all (take 2 ops) ((lit "f", 9 ∷ []) ∷ [])) ≡ some (1 ∷ 2 ∷ []))
atomic_write-crash_example =
    atomic_write-crash no_faults (lit "1") (lit "f") (1 ∷ 2 ∷ []) ((lit "f", 9 ∷ []) ∷ []) 2

two_held-fits : exact_bytes two_held ≤ u64_max
unfolding Map.Sum.sum
two_held-fits = omega arith

evict_to_fit-fits_example :
    (exact_bytes (remove_each (evict_to_fit two_held 15 0) two_held) ≤ 15)
    × (total_bytes (remove_each (evict_to_fit two_held 15 0) two_held) ≤ 15)
evict_to_fit-fits_example = evict_to_fit-fits two_held two_held-IsHeldSet 15 0 two_held-fits

two_held-victims : evict_to_fit two_held 15 0 ≡ [] ++ lit "b" ∷ []
unfolding evict_to_fit total_bytes ce_pin.Prelude.Order.Sort.sort_by ce_pin.Held.rent_base
    Texts.parse_uint Texts.trim
two_held-victims = refl

evict_to_fit-needed_example : 15 < exact_bytes (remove_each [] two_held)
evict_to_fit-needed_example =
    evict_to_fit-needed two_held two_held-IsHeldSet 15 0 [] (lit "b") two_held-fits two_held-victims

two_held-b : Texts.contains (evict_to_fit two_held 15 0) (lit "b") ≡ true
unfolding evict_to_fit Texts.contains total_bytes ce_pin.Prelude.Order.Sort.sort_by
    ce_pin.Held.rent_base Texts.parse_uint Texts.trim Texts.text_cmp
two_held-b = refl

two_held-a : Texts.contains (evict_to_fit two_held 15 0) (lit "a") ≡ false
unfolding evict_to_fit Texts.contains total_bytes ce_pin.Prelude.Order.Sort.sort_by
    ce_pin.Held.rent_base Texts.parse_uint Texts.trim Texts.text_cmp
two_held-a = refl

lookup_a : Map.lookup (lit "a") two_held.entries ≡ some open_ended
unfolding Map.lookup Texts.text_cmp
lookup_a = refl

lookup_b : Map.lookup (lit "b") two_held.entries ≡ some leased
unfolding Map.lookup Texts.text_cmp
lookup_b = refl

evict_to_fit-GoesFirst_example : GoesFirst 0 leased open_ended
evict_to_fit-GoesFirst_example =
    evict_to_fit-GoesFirst two_held two_held-IsHeldSet 15 0 (lit "b") (lit "a") leased open_ended
      two_held-b two_held-a lookup_b lookup_a

-- A set that the toy JSON can write, and the directory after its save.
abbrev one_held : HeldSet
one_held = record { version = 0; entries = (lit "c", record default_record { bytes = 4 }) ∷ [] }

abbrev held_json : Text
held_json = lit "held.json"

abbrev after_save : Directory
after_save = (held_json, 0 ∷ b'c' ∷ 4 ∷ 0 ∷ 0 ∷ 0 ∷ []) ∷ []

one_held-saved : save toy_json true no_faults (lit "1") held_json one_held [] ≡ (saved, after_save)
unfolding save Map.insert Map.modify Map.remove atomic_write perform_all Map.lookup Texts.text_cmp
    ce_pin.Files.temp_name
one_held-saved = refl

load-save_example :
    load toy_json true true held_json after_save
    ≡ (loaded (record one_held { version = held_schema_version }), after_save)
load-save_example =
    load-save toy_json toy_json-RoundTrips true true no_faults (lit "1") held_json one_held []
      after_save one_held-saved

low_rent : admit toy_host.cfg 5 (lit "0") 10 ≡ rejected (rent_too_low 0 1)
unfolding admit offered_rent Texts.parse_uint Texts.trim
low_rent = refl

abbrev node : Text → ℕ → Candidate
node id work = record {
  node_id = id;
  delivered_work = work;
  last_seen_secs = 0;
  mem_mb = 0;
  fault_domain = [];
}

abbrev two_nodes : List Candidate
two_nodes = node (lit "x") 1 ∷ node (lit "y") 2 ∷ []

one_selected : length (select two_nodes 2 (lit "x" ∷ [])) < 2
unfolding select ce_pin.Prelude.Order.Sort.sort_by Texts.contains Texts.text_cmp
one_selected = omega arith
