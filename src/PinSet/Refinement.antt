-- ===== src/PinSet/Refinement.antt =====
-- The pin-set of src/pinset.rs shows the views of its specification after any operations.
use ce_pin.PinSet.Updates.{get-upsert, get-remove}
use ce_pin.PinSet.Views.{
  Op, put, drop, change, write, reload, dropped, wrote, Store, run_op, run_ops, Views, spec_step,
  spec_replay, Allowed, AllAllowed, Shows,
}
use ce_pin.Prelude.{
  ◌≡◌, refl, sym, ap, ◌∙◌, Bool, none, some, List, [], ◌∷◌, if◌then◌else◌, inl, inr,
}
use ce_pin.Prelude.Text.{Text, text_eq}
use ce_pin.Files.{Directory, Faults}
use ce_pin.Held.Storage.{SaveResult, saved, save_failed}
use ce_pin.PinSet.{PinSet, PinJson, remove, get, save}
use ce_pin.PinSet.Recovery.{RoundTrips, save-load, load_same}
use ce_pin.PinSet.Updates.{get-update}
use mathlib.Core.Option

remove-found : (s : PinSet) (cid : Text) → (remove s cid).0 ≡ get s cid
unfolding get remove
remove-found s cid = refl

saved_ne : saved ≡ save_failed → ⊥
saved_ne h = cc

module _ (json : PinJson) (r : RoundTrips json) (pid file : Text) where
  write-Shows :
      (ok : Bool) (faults : Faults) (c : Store) (v : Views) (result : SaveResult) (d : Directory)
      → Shows json file c v
      → save json ok faults pid file c.set c.directory ≡ (result, d)
      → Shows json file (record c { directory = d }) (spec_step (write ok faults) (wrote result) v)
  write-Shows ok faults c v saved d h e =
      elim (save-load json r ok faults pid file c.set c.directory d saved e) [
        | inl (_, back) ↦ record {
          in_memory = h.in_memory;
          on_disk = c.set;
          loads = back;
          in_file = h.in_memory;
        }
        | inr (failed, _) ↦ absurd (saved_ne failed)
      ]
  write-Shows ok faults c v save_failed d h e =
      elim (save-load json r ok faults pid file c.set c.directory d save_failed e) [
        | inl (ok', _) ↦ absurd (saved_ne (sym ok'))
        | inr (_, same) ↦ record {
          in_memory = h.in_memory;
          on_disk = h.on_disk;
          loads = load_same json file c.directory d same ∙ h.loads;
          in_file = h.in_file;
        }
      ]

  run_op-Shows :
      (op : Op) (c : Store) (v : Views)
      → Shows json file c v
      → let (reply, c') = run_op json pid file op c in
        Allowed op v reply × Shows json file c' (spec_step op reply v)
  unfolding run_op
  run_op-Shows (put entry) c v h = (
    refl,
    record {
      in_memory = λ cid.
          get-upsert c.set entry cid
          ∙ ap (λ o. if text_eq cid entry.job.cid then some entry else o) (h.in_memory cid);
      on_disk = h.on_disk;
      loads = h.loads;
      in_file = h.in_file;
    },
  )
  run_op-Shows (drop cid) c v h = (
    ap dropped (remove-found c.set cid ∙ h.in_memory cid),
    record {
      in_memory = λ other.
          get-remove c.set cid other
          ∙ ap (λ o. if text_eq other cid then none else o) (h.in_memory other);
      on_disk = h.on_disk;
      loads = h.loads;
      in_file = h.in_file;
    },
  )
  run_op-Shows (change cid f) c v h = (
    refl,
    record {
      in_memory = λ other.
          get-update c.set cid f other
          ∙ ap (λ o. if text_eq other cid then Option.map f o else o) (h.in_memory other);
      on_disk = h.on_disk;
      loads = h.loads;
      in_file = h.in_file;
    },
  )
  run_op-Shows (write ok faults) c v h = ((_, refl), write-Shows ok faults c v _ _ h refl)
  run_op-Shows reload c v h = rw (h.loads) (
    refl,
    record { in_memory = h.in_file; on_disk = h.on_disk; loads = h.loads; in_file = h.in_file },
  )

  -- Whatever a client does to the pin-set, and whatever fails in its saves, the replies are those of
  -- the two functions, and the store shows them afterwards.
  pub run_ops-refines :
      (ops : List Op) (c : Store) (v : Views)
      → Shows json file c v
      → AllAllowed ops (run_ops json pid file ops c).0 v
        × Shows json file
            (run_ops json pid file ops c).1
            (spec_replay ops (run_ops json pid file ops c).0 v)
  unfolding run_ops
  run_ops-refines [] c v h = (tt, h)
  run_ops-refines (op ∷ ops) c v h =
      let (allowed, next) = run_op-Shows op c v h in
      let (rest, last) =
        run_ops-refines ops (run_op json pid file op c).1
          (spec_step op (run_op json pid file op c).0 v) next in
      ((allowed, rest), last)
