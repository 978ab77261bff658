-- ===== src/Repair/Watch.antt =====
-- `watch` of src/repair.rs: passes until it is cancelled.
pub mod Keeping
use ce_pin.Prelude.{Bool, List, [], ◌∷◌}
use ce_pin.Prelude.Text.{Text}
use ce_pin.Files.{Directory, Faults}
use ce_pin.PinSet.{PinJson}
use ce_pin.Repair.{Pass, repair_once}

-- One round of the loop: what other processes did to the files since the round before, the answers
-- of the file system, and those of the network.
pub record Round : Type 0 where
  pub since : Directory → Directory
  pub reads : Bool
  pub directory_ok : Bool
  pub faults : Faults
  pub pass : Pass

-- The report of a pass is logged, and so is its error.
unfoldable pub run_round : PinJson → Text → Text → Text → Round → Directory → Directory
unfolding repair_once
run_round json pid file caps r d =
    (repair_once json r.reads r.directory_ok r.faults pid file (record (r.pass) { caps = caps })
      (r.since d)).1

-- The rounds that there are before the loop is cancelled.
unfoldable pub watch : PinJson → Text → Text → Text → List Round → Directory → Directory
unfolding run_round
watch json pid file caps [] d = d
watch json pid file caps (r ∷ rounds) d =
    watch json pid file caps rounds (run_round json pid file caps r d)
