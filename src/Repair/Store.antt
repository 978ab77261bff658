-- ===== src/Repair/Store.antt =====
-- `repair_once` of src/repair.rs and the file of the pin-set.
use ce_pin.Prelude.{
  ◌≡◌, refl, sym, ap, subst, ◌∙◌, true, false, Bool, Option, none, some, Bool-cases, List, [], ◌∷◌,
  ◌⊎◌, inl, inr, arith, ◌==◌,
}
use ce_pin.Prelude.Text.{Text}
use ce_pin.Prelude.Map
use ce_pin.Files.{Bytes, Directory, Faults, atomic_write, attempt}
use ce_pin.Files.Crash.{no_faults}
use ce_pin.Held.Storage.{SaveResult, saved, save_failed}
use ce_pin.Placement.{Candidate}
use ce_pin.PinSet.{Entry, PinSet, Replica, PinJson, loaded, get, load, save}
use ce_pin.PinSet.Recovery.{RoundTrips, save-load}
use ce_pin.Client.{candidate_hosts}
use ce_pin.Repair.{
  RepairPlan, RepairReport, Pass, PassState, plan_of, check_entry, count_repaired, place_missing,
  add_placed, repair_entry, repair_found, repair_each, repair_set, report_saved, finish_pass,
  repair_once,
}

add_placed-dirty :
    (cid : Text) (placed : Option (List Replica)) (st : PassState)
    → st.dirty ≡ true
    → (add_placed cid placed st).dirty ≡ true
add_placed-dirty cid none st h = h
add_placed-dirty cid (some rs) st h = refl

place_missing-dirty :
    (w : Pass) (cid : Text) (entry : Entry) (plan : RepairPlan) (cs : List Candidate)
    (st : PassState)
    → st.dirty ≡ true
    → (place_missing w cid entry plan cs st).dirty ≡ true
place_missing-dirty w cid entry plan [] st h = h
place_missing-dirty w cid entry plan (c ∷ cs) st h = add_placed-dirty cid _ st h

repair_entry-dirty :
    (w : Pass) (cid : Text) (entry : Entry) (st : PassState)
    → (repair_entry w cid entry st).dirty ≡ true
unfolding repair_entry check_entry
repair_entry-dirty w cid entry st =
    let placed =
      place_missing-dirty w cid entry (plan_of w cid entry) (candidate_hosts (w.network cid))
        (count_repaired (check_entry w cid entry st)) refl in
    elim (Bool-cases ((plan_of w cid entry).to_place == 0)) [
      | inl enough ↦ rw enough refl
      | inr short ↦ rw short placed
    ]

-- A step of the pass leaves the state as it was, or marks it as changed.
repair_found-dirty :
    (w : Pass) (cid : Text) (found : Option Entry) (st : PassState)
    → (repair_found w cid found st ≡ st) ⊎ ((repair_found w cid found st).dirty ≡ true)
repair_found-dirty w cid none st = inl refl
repair_found-dirty w cid (some entry) st = inr (repair_entry-dirty w cid entry st)

repair_each-dirty :
    (w : Pass) (cids : List Text) (st : PassState)
    → (repair_each w cids st ≡ st) ⊎ ((repair_each w cids st).dirty ≡ true)
unfolding repair_each
repair_each-dirty w [] st = inl refl
repair_each-dirty w (cid ∷ cids) st =
    let st' = repair_found w cid (get st.set cid) st in
    elim (repair_found-dirty w cid (get st.set cid) st) [
      | inl same ↦ elim (repair_each-dirty w cids st') [
        | inl same' ↦ inl (same' ∙ same)
        | inr changed ↦ inr changed
      ]
      | inr marked ↦ elim (repair_each-dirty w cids st') [
        | inl same' ↦ inr (ap (λ x. x.dirty) same' ∙ marked)
        | inr changed ↦ inr changed
      ]
    ]

clean_set :
    (w : Pass) (set : PinSet) → (repair_set w set).dirty ≡ false → (repair_set w set).set ≡ set
unfolding repair_set
clean_set w set clean = elim (repair_each-dirty w (Map.keys set.pins) _) [
  | inl same ↦ ap (λ (x : PassState). x.set) same
  | inr changed ↦ absurd (ground (arith, changed, clean))
]

no_report_ne : (report : RepairReport) → none ≡ some report → ⊥
no_report_ne report h = cc

not_both : (result : SaveResult) → result ≡ saved → result ≡ save_failed → ⊥
not_both result a b = cc

report_saved-saved :
    (result : SaveResult) (before report : RepairReport) (d d' : Directory)
    → report_saved before (result, d) ≡ (some report, d')
    → (result ≡ saved) × (d ≡ d')
report_saved-saved saved before report d d' e =
    (refl, ap (λ (p : Option RepairReport × Directory). p.1) e)
report_saved-saved save_failed before report d d' e =
    absurd (no_report_ne report (ap (λ (p : Option RepairReport × Directory). p.0) e))

finish_pass-load :
    (json : PinJson) (r : RoundTrips json) (ok : Bool) (faults : Faults) (pid file : Text)
    (st : PassState) (set : PinSet) (d d' : Directory) (report : RepairReport)
    → load json true file d ≡ loaded set
    → (st.dirty ≡ false → st.set ≡ set)
    → finish_pass json ok faults pid file st d ≡ (some report, d')
    → load json true file d' ≡ loaded st.set
finish_pass-load json r ok faults pid file st set d d' report there clean done =
    elim (Bool-cases st.dirty) [
      | inl changed ↦
          let (result, d1) = save json ok faults pid file st.set d in
          let (ok', same) = report_saved-saved result st.report report d1 d' (rw changed at done) in
          elim (save-load json r ok faults pid file st.set d d' result
            (ap (λ x. (result, x)) same)) [
              | inl (_, back) ↦ back
              | inr (failed, _) ↦ absurd (not_both result ok' failed)
            ]
      | inr unchanged ↦
          let same = ap (λ (p : Option RepairReport × Directory). p.1) (rw unchanged at done) in
          subst (λ x. load json true file x ≡ loaded st.set) same
            (there ∙ ap loaded (sym (clean unchanged)))
    ]

-- After a pass that returned its report over a pin-set that was loaded, the file is loaded as the
-- repaired set, also where nothing had to be saved, if JSON reads back what it writes and the other
-- processes left the set as it was meanwhile.
pub repair_once-load :
    (json : PinJson) (r : RoundTrips json) (ok : Bool) (faults : Faults) (pid file : Text)
    (w : Pass) (set : PinSet) (d d' : Directory) (report : RepairReport)
    → load json true file d ≡ loaded set
    → load json true file (w.meanwhile d) ≡ loaded set
    → repair_once json true ok faults pid file w d ≡ (some report, d')
    → load json true file d' ≡ loaded (repair_set w set).set
unfolding repair_once
repair_once-load json r ok faults pid file w set d d' report there left done =
    finish_pass-load json r ok faults pid file (repair_set w set) set (w.meanwhile d) d' report left
      (clean_set w set) (rw there at done)

save-saved :
    (json : PinJson) (pid file : Text) (s : PinSet) (bytes : Bytes) (d : Directory)
    → json.to_vec_pretty s ≡ some bytes
    → (save json true no_faults pid file s d).0 ≡ saved
unfolding save atomic_write attempt
save-saved json pid file s bytes d e = rw e refl

report_saved-report :
    (report : RepairReport) (p : SaveResult × Directory)
    → p.0 ≡ saved
    → (report_saved report p).0 ≡ some report
report_saved-report report (saved, d) e = refl
report_saved-report report (save_failed, d) e = cc

-- With a file system that refuses nothing a pass over a set that can be encoded when it is repaired
-- returns its report.
pub repair_once-returns :
    (json : PinJson) (pid file : Text) (w : Pass) (set : PinSet) (bytes : Bytes) (d : Directory)
    → load json true file d ≡ loaded set
    → json.to_vec_pretty (repair_set w set).set ≡ some bytes
    → (repair_once json true true no_faults pid file w d).0 ≡ some (repair_set w set).report
unfolding repair_once
repair_once-returns json pid file w set bytes d there encoded =
    rw there (elim (Bool-cases (repair_set w set).dirty) [
      | inl changed ↦ rw changed (
          report_saved-report (repair_set w set).report _
            (save-saved json pid file (repair_set w set).set bytes (w.meanwhile d) encoded))
      | inr unchanged ↦ rw unchanged refl
    ])
