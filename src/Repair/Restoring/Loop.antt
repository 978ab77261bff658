-- ===== src/Repair/Restoring/Loop.antt =====
-- `repair_once` of src/repair.rs: one pass restores every pin that can be restored.
use ce_pin.Prelude.{
  ◌≤◌, ◌≡◌, refl, sym, ap, subst, ◌∙◌, true, false, Bool, Option, none, some, List, [], ◌∷◌, arith,
  ◌==◌, is_some, Bool-cases, inl, inr,
}
use ce_pin.Prelude.Text.{Text, text_eq, contains}
use ce_pin.Prelude.Text.Laws.{text_eq_iff}
use ce_pin.Prelude.Map
use ce_pin.Prelude.Map.{Map}
use ce_pin.Prelude.Map.Laws.{has_key-contains}
use ce_pin.Prelude.Map.Removal.{IsNodup, keys-IsNodup}
use ce_pin.Files.{Bytes, Directory, Faults}
use ce_pin.Files.Crash.{no_faults}
use ce_pin.Placement.{Candidate}
use ce_pin.PinSet.{Entry, PinSet, Replica, PinJson, loaded, get, update, load, healthy_replicas}
use ce_pin.PinSet.Recovery.{RoundTrips}
use ce_pin.PinSet.Updates.{get-update}
use ce_pin.Client.{candidate_hosts}
use ce_pin.Repair.{
  Pass, PassState, RepairPlan, RepairReport, plan_of, check_entry, count_repaired, place_missing,
  add_placed, repair_entry, repair_found, repair_each, repair_set, repair_once, mark_health,
}
use ce_pin.Repair.Store.{repair_once-load, repair_once-returns}
use ce_pin.Repair.Restoring.{CanRestore, repair_entry-restores}

get-update_other :
    (set : PinSet) (cid other : Text) (f : Entry → Entry)
    → text_eq other cid ≡ false
    → get (update set cid f) other ≡ get set other
get-update_other set cid other f h = get-update set cid f other ∙ rw h refl

-- The steps for one pin leave the others alone.
module _ (w : Pass) (cid other : Text) (differs : text_eq other cid ≡ false) where
  check_entry-other :
      (entry : Entry) (st : PassState)
      → get (check_entry w cid entry st).set other ≡ get st.set other
  unfolding check_entry mark_health
  check_entry-other entry st = get-update_other st.set cid other _ differs

  add_placed-other :
      (placed : Option (List Replica)) (st : PassState)
      → get (add_placed cid placed st).set other ≡ get st.set other
  add_placed-other none st = refl
  add_placed-other (some rs) st = get-update_other st.set cid other _ differs

  place_missing-other :
      (entry : Entry) (plan : RepairPlan) (cs : List Candidate) (st : PassState)
      → get (place_missing w cid entry plan cs st).set other ≡ get st.set other
  place_missing-other entry plan [] st = refl
  place_missing-other entry plan (c ∷ cs) st = add_placed-other _ st

  repair_found-other :
      (found : Option Entry) (st : PassState)
      → get (repair_found w cid found st).set other ≡ get st.set other
  unfolding repair_entry
  repair_found-other none st = refl
  repair_found-other (some entry) st =
      let placed =
        place_missing-other entry (plan_of w cid entry) (candidate_hosts (w.network cid))
          (count_repaired (check_entry w cid entry st)) in
      let checked = check_entry-other entry st in
      elim (Bool-cases ((plan_of w cid entry).to_place == 0)) [
        | inl enough ↦ rw enough checked
        | inr short ↦ rw short (placed ∙ checked)
      ]

repair_each-other :
    (w : Pass) (cids : List Text) (other : Text) (st : PassState)
    → contains cids other ≡ false
    → get (repair_each w cids st).set other ≡ get st.set other
unfolding repair_each contains
repair_each-other w [] other st h = refl
repair_each-other w (cid ∷ cids) other st h =
    repair_each-other w cids other (repair_found w cid (get st.set cid) st) (ground (arith, h))
    ∙ repair_found-other w cid other (ground (arith, h)) (get st.set cid) st

-- A pin under its old job with as many healthy replicas as that wants.
pub record Restored (entry : Entry) (found : Option Entry) : Type 0 where
  pub after : Entry
  pub there : found ≡ some after
  pub same_job : after.job ≡ entry.job
  pub enough : entry.job.replication ≤ healthy_replicas after

repair_found-Restored :
    (w : Pass) (cid : Text) (entry : Entry) (st : PassState)
    → CanRestore w cid entry
    → get st.set cid ≡ some entry
    → Restored entry (get (repair_found w cid (get st.set cid) st).set cid)
repair_found-Restored w cid entry st can there =
    let (after, found, same_job, enough) = repair_entry-restores w cid entry can st there in
    record {
      after = after;
      there = ap (λ o. get (repair_found w cid o st).set cid) there ∙ found;
      same_job = same_job;
      enough = enough;
    }

repair_each-first :
    (w : Pass) (cid : Text) (cids : List Text) (entry : Entry) (st : PassState)
    → contains cids cid ≡ false
    → CanRestore w cid entry
    → get st.set cid ≡ some entry
    → Restored entry (get (repair_each w (cid ∷ cids) st).set cid)
unfolding repair_each
repair_each-first w cid cids entry st once can there =
    subst (Restored entry)
      (sym (repair_each-other w cids cid (repair_found w cid (get st.set cid) st) once))
      (repair_found-Restored w cid entry st can there)

repair_each-Restored :
    (w : Pass) (cids : List Text) (cid : Text) (entry : Entry) (st : PassState)
    → IsNodup cids
    → contains cids cid ≡ true
    → CanRestore w cid entry
    → get st.set cid ≡ some entry
    → Restored entry (get (repair_each w cids st).set cid)
unfolding repair_each contains
repair_each-Restored w [] cid entry st d h can there = cc
repair_each-Restored w (c ∷ cids) cid entry st d h can there = elim (Bool-cases (text_eq cid c)) [
  | inl here ↦
      let same : cid ≡ c = (text_eq_iff cid c).0 here in
      subst (λ x. Restored entry (get (repair_each w (c ∷ cids) st).set x)) (sym same)
        (repair_each-first w c cids entry st d.0 (subst (λ x. CanRestore w x entry) same can)
          (subst (λ x. get st.set x ≡ some entry) same there))
  | inr later ↦
      let still = repair_found-other w c cid later (get st.set c) st ∙ there in
      repair_each-Restored w cids cid entry (repair_found w c (get st.set c) st) d.1
        (ground (arith, h, later)) can still
]

keys-found :
    (set : PinSet) (cid : Text) (entry : Entry)
    → get set cid ≡ some entry
    → contains (Map.keys set.pins) cid ≡ true
unfolding get Map.has_key
keys-found set cid entry there = sym (has_key-contains cid set.pins) ∙ ap is_some there

repair_set-Restored :
    (w : Pass) (set : PinSet) (cid : Text) (entry : Entry)
    → Map.IsMap set.pins
    → get set cid ≡ some entry
    → CanRestore w cid entry
    → Restored entry (get (repair_set w set).set cid)
unfolding repair_set
repair_set-Restored w set cid entry m there can =
    repair_each-Restored w (Map.keys set.pins) cid entry _ (keys-IsNodup set.pins m)
      (keys-found set cid entry there) can there

-- What a load finds of a pin.
pub record RestoredIn (json : PinJson) (file cid : Text) (entry : Entry) (d : Directory)
    : Type 0 where
  pub set : PinSet
  pub loads : load json true file d ≡ loaded set
  pub restored : Restored entry (get set cid)

returned_pass-restores :
    (json : PinJson) (r : RoundTrips json) (ok : Bool) (faults : Faults) (pid file : Text)
    (w : Pass) (set : PinSet) (d d' : Directory) (report : RepairReport)
    → load json true file d ≡ loaded set
    → load json true file (w.meanwhile d) ≡ loaded set
    → Map.IsMap set.pins
    → repair_once json true ok faults pid file w d ≡ (some report, d')
    → (cid : Text) (entry : Entry) → get set cid ≡ some entry
    → CanRestore w cid entry
    → RestoredIn json file cid entry d'
returned_pass-restores json r ok faults pid file w set d d' report there left m done cid entry found
      can =
    record {
      set = (repair_set w set).set;
      loads = repair_once-load json r ok faults pid file w set d d' report there left done;
      restored = repair_set-Restored w set cid entry m found can;
    }

-- With a file system that refuses nothing, a pass over a pin-set that was loaded returns its report,
-- and after it the file is loaded with every pin restored that can be: for which enough other hosts
-- are found and accept. JSON is to read back what it writes and to write the repaired set, the keys
-- of the set are in order, and the other processes left the set as it was meanwhile.
pub repair_once-restores :
    (json : PinJson) (r : RoundTrips json) (pid file : Text) (w : Pass) (set : PinSet)
    (bytes : Bytes) (d : Directory)
    → load json true file d ≡ loaded set
    → load json true file (w.meanwhile d) ≡ loaded set
    → json.to_vec_pretty (repair_set w set).set ≡ some bytes
    → Map.IsMap set.pins
    → (cid : Text) (entry : Entry) → get set cid ≡ some entry
    → CanRestore w cid entry
    → let (returned, d') = repair_once json true true no_faults pid file w d in
      (returned ≡ some (repair_set w set).report) × RestoredIn json file cid entry d'
repair_once-restores json r pid file w set bytes d there left encoded m cid entry found can =
    let returns = repair_once-returns json pid file w set bytes d there encoded in
    (
      returns,
      returned_pass-restores json r true no_faults pid file w set d _ _ there left m
          (ap (λ x. (x, (repair_once json true true no_faults pid file w d).1)) returns) cid entry
          found can,
    )
