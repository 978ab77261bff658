-- ===== src/Commands/Watch.antt =====
-- `cmd_watch` of src/main.rs: one pass of the repair, or passes until the process is interrupted.
use ce_pin.Prelude.{if◌then◌else◌, Bool, Option, none, some, List, ◌∷◌}
use ce_pin.Prelude.Text.{Text}
use ce_pin.Files.{Directory}
use ce_pin.Repair.{RepairReport, repair_once}
use ce_pin.Repair.Watch.{Round, watch}
use ce_pin.Commands.{World, Session, Outcome, done, error, repair_error, caps_hex}

abbrev reported : Session → Option RepairReport × Directory → Outcome × Session
reported s (none, d) = (error repair_error, record s { directory = d })
reported s (some report, d) = (done, record s { directory = d })

-- The passes up to the interrupt: the first, and the others.
pub record Schedule : Type 0 where
  pub first : Round
  pub later : List Round

unfoldable pub cmd_watch :
    World → Text → Bool → Option Text → Schedule → Session → Outcome × Session
unfolding repair_once watch caps_hex
cmd_watch w file once caps_arg schedule s =
    let caps = caps_hex w caps_arg in
    if once
    then reported s (
        repair_once w.json w.reads w.directory_ok w.faults w.pid file
          (record (schedule.first.pass) { caps = caps }) s.directory)
    else (
      done,
      record s {
        directory = watch w.json w.pid file caps (schedule.first ∷ schedule.later) s.directory;
      },
    )
