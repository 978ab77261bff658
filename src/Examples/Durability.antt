-- ===== src/Examples/Durability.antt =====
-- The theorems on the repair daemon and on the pin-set's store at concrete inputs.
use ce_pin.Files.Crash.{no_faults}
use ce_pin.Prelude.{
  length, ℕ, ◌≤◌, ◌≡◌, refl, true, false, Option, none, some, List, [], ◌∷◌, arith,
}
use ce_pin.Prelude.Text.{Text, lit}
use ce_pin.Prelude.Text as Texts
use ce_pin.Prelude.Map
use ce_pin.PinSet.{Entry, PinSet, empty_set, get, healthy_replicas}
use ce_pin.PinSet.Views.{
  Op, put, drop, write, reload, Store, run_ops, Views, spec_replay, AllAllowed, Shows,
}
use ce_pin.PinSet.Refinement.{run_ops-refines}
use ce_pin.Placement.{eligible}
use ce_pin.Placement.Selection.{Distinct}
use ce_pin.Prelude.Order.Sort.{Pairs}
use ce_pin.Client.{candidate_hosts}
use ce_pin.Repair.{repair_once, repair_set}
use ce_pin.Repair.Watch.{Round, watch}
use ce_pin.Repair.Watch.Keeping.{jobs, Keeps, watch-Keeps}
use ce_pin.Repair.Restoring.{CanRestore}
use ce_pin.Repair.Restoring.Loop.{RestoredIn, repair_once-restores}
use ce_pin.Examples.PinJson.{
  toy_pin_json, toy_pin_json-RoundTrips, pins_json, plain_pins, pins_saved, plain_entry,
  plain-loaded, wanting_pins, wanting_saved, wanting-loaded,
}
use ce_pin.Examples.Clients.{toy_pass}

abbrev toy_round : Round
toy_round = record {
  since = λ d. d;
  reads = true;
  directory_ok = true;
  faults = no_faults;
  pass = toy_pass;
}

plain-Keeps : Keeps toy_pin_json pins_json (jobs plain_pins.pins) pins_saved
plain-Keeps = record {
  set = plain_pins;
  there = plain-loaded;
  same_jobs = refl;
  distinct = (tt, tt);
}

watch-Keeps_example :
    Keeps toy_pin_json pins_json
      (jobs plain_pins.pins)
      (watch toy_pin_json (lit "1") pins_json [] (toy_round ∷ toy_round ∷ []) pins_saved)
watch-Keeps_example =
    watch-Keeps toy_pin_json toy_pin_json-RoundTrips pins_json (jobs plain_pins.pins) (lit "1") []
      (toy_round ∷ toy_round ∷ []) pins_saved ((λ d k. k, λ d k. k), ((λ d k. k, λ d k. k), tt))
      plain-Keeps

-- A pin that wants one replica, and one host that takes it.
abbrev wanting_entry : Entry
wanting_entry = plain_entry b'q' b'0' 3 1 400

one_candidate : Pairs Distinct (candidate_hosts (toy_pass.network (lit "q")))
unfolding candidate_hosts Texts.contains Texts.text_cmp
one_candidate = (tt, tt)

one_eligible : length (eligible (candidate_hosts (toy_pass.network (lit "q"))) []) ≡ 1
unfolding eligible ce_pin.Prelude.Order.Sort.sort_by candidate_hosts Texts.contains Texts.text_cmp
one_eligible = refl

wanting-CanRestore : CanRestore toy_pass (lit "q") wanting_entry
wanting-CanRestore = record {
  different = one_candidate;
  enough = omega (arith, one_eligible);
  willing = λ host. refl;
}

encodes_restored :
    toy_pin_json.to_vec_pretty (repair_set toy_pass wanting_pins).set
    ≡ some (b'q' ∷ b'q' ∷ b'0' ∷ 3 ∷ 1 ∷ 400 ∷ b'x' ∷ [])
unfolding repair_set Map.lookup Texts.text_cmp Map.keys candidate_hosts Texts.contains
    ce_pin.Client.replicate ce_pin.Prelude.Order.Sort.sort_by ce_pin.PinSet.update Map.modify
    ce_pin.Config.offered_rent Texts.parse_uint Texts.trim ce_pin.Files.atomic_write
    ce_pin.Files.perform_all Map.insert ce_pin.Files.temp_name Map.remove
encodes_restored = refl

finds_wanting : get wanting_pins (lit "q") ≡ some wanting_entry
unfolding get Map.lookup Texts.text_cmp
finds_wanting = refl

repair_once-restores_example :
    let (returned, d') =
      repair_once toy_pin_json true true no_faults (lit "1") pins_json toy_pass wanting_saved in
    (returned ≡ some (repair_set toy_pass wanting_pins).report)
    × RestoredIn toy_pin_json pins_json (lit "q") wanting_entry d'
repair_once-restores_example =
    repair_once-restores toy_pin_json toy_pin_json-RoundTrips (lit "1") pins_json toy_pass
      wanting_pins (b'q' ∷ b'q' ∷ b'0' ∷ 3 ∷ 1 ∷ 400 ∷ b'x' ∷ []) wanting_saved wanting-loaded
      wanting-loaded encodes_restored (tt, tt) (lit "q") wanting_entry finds_wanting
      wanting-CanRestore

abbrev four_ops : List Op
four_ops = put (plain_entry b'q' b'0' 3 0 400) ∷ write true no_faults ∷ drop (lit "q") ∷ reload ∷ []

abbrev empty_store : Store
empty_store = record { set = empty_set; directory = [] }

abbrev no_views : Views
no_views = record { memory = λ cid. none; disk = λ cid. none }

empty-Shows : Shows toy_pin_json pins_json empty_store no_views
unfolding get Map.lookup ce_pin.PinSet.load
empty-Shows = record {
  in_memory = λ cid. refl;
  on_disk = empty_set;
  loads = refl;
  in_file = λ cid. refl;
}

run_ops-refines_example :
    AllAllowed four_ops (run_ops toy_pin_json (lit "1") pins_json four_ops empty_store).0 no_views
    × Shows toy_pin_json pins_json
        (run_ops toy_pin_json (lit "1") pins_json four_ops empty_store).1
        (spec_replay four_ops
          (run_ops toy_pin_json (lit "1") pins_json four_ops empty_store).0
          no_views)
run_ops-refines_example =
    run_ops-refines toy_pin_json toy_pin_json-RoundTrips (lit "1") pins_json four_ops empty_store
      no_views empty-Shows
