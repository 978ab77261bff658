-- ===== src/Commands/Inspect/Marking.antt =====
-- `cmd_status` of src/main.rs: the health that it writes back is each holder's own.
use ce_pin.Prelude.{◌≡◌, true, Bool, Option, List, [], ◌∷◌, ◌++◌, map, if◌then◌else◌, ◌⊎◌}
use ce_pin.Prelude.Text.{Text, contains}
use ce_pin.Prelude.Map
use ce_pin.PinSet.{PinSet, Replica, loaded, update, load}
use ce_pin.Held.Storage.{save_failed}
use ce_pin.Commands.{World, Session, save_set, wait, caps_hex}
use ce_pin.Commands.Inspect.{holds}

-- One step of the loop.
abbrev with_holder : List Text → Replica → List Text
with_holder all r = if contains all r.holder then all else all ++ r.holder ∷ []

-- A replica marked by its own check alone.
abbrev pub mark_by : (Text → Bool) → Replica → Replica
mark_by check r = record r { last_proof_ok = check r.holder }

-- The holders that a status command asks, and how each answers.
abbrev pub checks : World → Text → Option Text → Bool → Text → Bool
checks w cid caps_arg do_audit = holds w (caps_hex w caps_arg) cid do_audit

-- Of a recorded pin every replica is marked by the answer of its own holder, whatever the others
-- answer, and nothing else changes in the set; or the save of just that fails and leaves the file.
pub record Marked (w : World) (file cid : Text) (caps_arg : Option Text) (do_audit : Bool)
    (set : PinSet) (s s' : Session) : Type 0 where
  pub marked :
      (load w.json true file s'.directory
        ≡ loaded (
            update set cid (λ e. record e {
              replicas = map (mark_by (checks w cid caps_arg do_audit)) e.replicas;
            })))
      ⊎ (((save_set w file
              (update set cid (λ e. record e {
                replicas = map (mark_by (checks w cid caps_arg do_audit)) e.replicas;
              }))
              (wait w s)).0
            ≡ save_failed)
          × (Map.lookup file s'.directory ≡ Map.lookup file (w.meanwhile s.directory)))
