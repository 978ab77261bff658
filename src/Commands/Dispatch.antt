-- ===== src/Commands/Dispatch.antt =====
-- `Cmd` and `main` of src/main.rs: the command line, and the command that it runs.
use ce_pin.Prelude.{ℕ, Bool, Option, List, unwrap_or}
use ce_pin.Prelude.Text.{Text}
use ce_pin.Files.{Bytes}
use ce_pin.Paths.{default_path}
use ce_pin.Roots.{load_roots}
use ce_pin.Commands.{World, Session, Outcome}
use ce_pin.Commands.Add.{AddArgs, cmd_add}
use ce_pin.Commands.Inspect.{Row, cmd_get, cmd_ls, cmd_announce, cmd_status}
use ce_pin.Commands.Remove.{cmd_rm}
use ce_pin.Commands.Renew.{cmd_renew}
use ce_pin.Commands.Watch.{Schedule, cmd_watch}

-- The options of a command in the order of their declaration; the interval of `watch` only sets how
-- long the loop sleeps.
pub data Cmd : Type 0 where
  add : AddArgs → Cmd
  fetch : Text → Option Text → Cmd
  ls : Cmd
  announce : Text → Cmd
  status : Text → Option Text → Bool → Cmd
  rm : Text → Bool → Option Text → Cmd
  renew : Text → ℕ → Option Text → Option Text → Cmd
  watch : ℕ → Bool → Option Text → Cmd
  serve : Cmd

pub record Cli : Type 0 where
  pub pinset : Option Text
  pub cmd : Cmd

-- How a run ends: a command's outcome, the table of `ls`, or the host that takes over with its
-- roots.
pub data Run : Type 0 where
  ran : Outcome → Run
  listed : Option (List Row) → Run
  served : List Bytes → Run

abbrev with_outcome : Outcome × Session → Run × Session
with_outcome (outcome, s) = (ran outcome, s)

abbrev pub run_cmd : World → Option Text → Schedule → Text → Cmd → Session → Run × Session
run_cmd w data_dir schedule file (add a) s = with_outcome (cmd_add w file a s)
run_cmd w data_dir schedule file (fetch cid out) s = (ran (cmd_get w cid out), s)
run_cmd w data_dir schedule file ls s = (listed (cmd_ls w file s), s)
run_cmd w data_dir schedule file (announce cid) s = with_outcome (cmd_announce w cid s)
run_cmd w data_dir schedule file (status cid caps audit) s =
    with_outcome (cmd_status w file cid caps audit s)
run_cmd w data_dir schedule file (rm cid local caps) s =
    with_outcome (cmd_rm w file cid local caps s)
run_cmd w data_dir schedule file (renew cid expiry_blocks rent caps) s =
    with_outcome (cmd_renew w file cid expiry_blocks rent caps s)
run_cmd w data_dir schedule file (watch interval once caps) s =
    with_outcome (cmd_watch w file once caps schedule s)
run_cmd w data_dir schedule file serve s = (served (load_roots w.hs w.env data_dir w.read_text), s)

-- `data_dir` is the node's directory, for the roots.
unfoldable pub run_main : World → Option Text → Schedule → Cli → Session → Run × Session
unfolding cmd_add cmd_get cmd_ls cmd_announce cmd_status cmd_rm cmd_renew cmd_watch
run_main w data_dir schedule cli s =
    run_cmd w data_dir schedule (unwrap_or cli.pinset (default_path w.env w.config_dir)) cli.cmd s
