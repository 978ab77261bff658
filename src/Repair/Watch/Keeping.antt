-- ===== src/Repair/Watch/Keeping.antt =====
-- `watch` of src/repair.rs: what stays of the pin-set over any number of passes.
use ce_pin.Prelude.{
  ◌≡◌, refl, ◌∙◌, true, false, Bool, Option, none, some, List, [], ◌∷◌, inl, inr, Bool-cases, All,
  arith, ◌==◌,
}
use ce_pin.Prelude.Text.{Text}
use ce_pin.Prelude.Map
use ce_pin.Prelude.Map.{Map}
use ce_pin.Files.{Directory, Faults}
use ce_pin.Held.Storage.{SaveResult, saved, save_failed, read}
use ce_pin.Placement.{Candidate}
use ce_pin.PinSet.{PinJob, Entry, PinSet, Replica, PinJson, loaded, get, update, load, save}
use ce_pin.PinSet.Recovery.{RoundTrips, save-load, load_same}
use ce_pin.Client.{candidate_hosts}
use ce_pin.Repair.{
  RepairPlan, RepairReport, Pass, PassState, plan_of, check_entry, count_repaired, place_missing,
  mark_health, add_placed, repair_entry, repair_found, repair_each, repair_set, report_saved,
  finish_pass, repair_once,
}
use ce_pin.Repair.Passes.{IsPinSet, repair_set-IsPinSet}
use ce_pin.Repair.Watch.{Round, run_round, watch}

-- What the publisher asked for: each CID with its job.
abbrev pub jobs : Map Entry → Map PinJob
jobs [] = []
jobs ((cid, e) ∷ m) = (cid, e.job) ∷ jobs m

modify-jobs :
    (k : Text) (f : Entry → Entry) (m : Map Entry)
    → ((e : Entry) → (f e).job ≡ e.job)
    → jobs (Map.modify k f m) ≡ jobs m
unfolding Map.modify
modify-jobs k f [] keep = refl
modify-jobs k f ((j, e) ∷ m) keep = ground (arith, keep e, modify-jobs k f m keep)

update-jobs :
    (s : PinSet) (cid : Text) (f : Entry → Entry)
    → ((e : Entry) → (f e).job ≡ e.job)
    → jobs (update s cid f).pins ≡ jobs s.pins
unfolding update
update-jobs s cid f keep = modify-jobs cid f s.pins keep

check_entry-jobs :
    (w : Pass) (cid : Text) (entry : Entry) (st : PassState)
    → jobs (check_entry w cid entry st).set.pins ≡ jobs st.set.pins
unfolding check_entry mark_health
check_entry-jobs w cid entry st = update-jobs st.set cid _ (λ e. refl)

place_missing-jobs :
    (w : Pass) (cid : Text) (entry : Entry) (plan : RepairPlan) (cs : List Candidate)
    (st : PassState)
    → jobs (place_missing w cid entry plan cs st).set.pins ≡ jobs st.set.pins
place_missing-jobs w cid entry plan [] st = refl
place_missing-jobs w cid entry plan (c ∷ cs) st = add_placed-jobs cid _ st
  where
    add_placed-jobs :
        (cid : Text) (placed : Option (List Replica)) (st : PassState)
        → jobs (add_placed cid placed st).set.pins ≡ jobs st.set.pins
    add_placed-jobs cid none st = refl
    add_placed-jobs cid (some rs) st = update-jobs st.set cid _ (λ e. refl)

repair_found-jobs :
    (w : Pass) (cid : Text) (found : Option Entry) (st : PassState)
    → jobs (repair_found w cid found st).set.pins ≡ jobs st.set.pins
unfolding repair_entry
repair_found-jobs w cid none st = refl
repair_found-jobs w cid (some entry) st =
    let placed =
      place_missing-jobs w cid entry (plan_of w cid entry) (candidate_hosts (w.network cid))
        (count_repaired (check_entry w cid entry st)) in
    let checked = check_entry-jobs w cid entry st in
    elim (Bool-cases ((plan_of w cid entry).to_place == 0)) [
      | inl enough ↦ rw enough checked
      | inr short ↦ rw short (placed ∙ checked)
    ]

repair_each-jobs :
    (w : Pass) (cids : List Text) (st : PassState)
    → jobs (repair_each w cids st).set.pins ≡ jobs st.set.pins
unfolding repair_each
repair_each-jobs w [] st = refl
repair_each-jobs w (cid ∷ cids) st =
    repair_each-jobs w cids (repair_found w cid (get st.set cid) st)
    ∙ repair_found-jobs w cid (get st.set cid) st

repair_set-jobs : (w : Pass) (set : PinSet) → jobs (repair_set w set).set.pins ≡ jobs set.pins
unfolding repair_set
repair_set-jobs w set = repair_each-jobs w (Map.keys set.pins) _

-- The file is loaded as a set with these jobs, in which no pin lists a holder twice.
pub record Keeps (json : PinJson) (file : Text) (wanted : Map PinJob) (d : Directory) : Type 0 where
  pub set : PinSet
  pub there : load json true file d ≡ loaded set
  pub same_jobs : jobs set.pins ≡ wanted
  pub distinct : IsPinSet set

report_saved-directory :
    (report : RepairReport) (r : SaveResult × Directory) → (report_saved report r).1 ≡ r.1
report_saved-directory report (saved, d) = refl
report_saved-directory report (save_failed, d) = refl

module _ (json : PinJson) (r : RoundTrips json) (file : Text) (wanted : Map PinJob) where
  save-Keeps :
      (ok : Bool) (faults : Faults) (pid : Text) (set : PinSet) (d : Directory)
      → Keeps json file wanted d
      → jobs set.pins ≡ wanted
      → IsPinSet set
      → Keeps json file wanted (save json ok faults pid file set d).1
  save-Keeps ok faults pid set d k j n = elim (save-load json r ok faults pid file set d _ _ refl) [
    | inl (_, back) ↦ record { set = set; there = back; same_jobs = j; distinct = n }
    | inr (_, same) ↦ record {
      set = k.set;
      there = load_same json file d _ same ∙ k.there;
      same_jobs = k.same_jobs;
      distinct = k.distinct;
    }
  ]

  finish_pass-Keeps :
      (ok : Bool) (faults : Faults) (pid : Text) (st : PassState) (d : Directory)
      → Keeps json file wanted d
      → jobs st.set.pins ≡ wanted
      → IsPinSet st.set
      → Keeps json file wanted (finish_pass json ok faults pid file st d).1
  finish_pass-Keeps ok faults pid st d k j n = elim (Bool-cases st.dirty) [
    | inl changed ↦
        rw (changed, report_saved-directory st.report (save json ok faults pid file st.set d))
          (save-Keeps ok faults pid st.set d k j n)
    | inr clean ↦ rw clean k
  ]

  -- Other processes that keep the file so.
  abbrev pub Polite : (Directory → Directory) → Type 0
  Polite others = (d : Directory) → Keeps json file wanted d → Keeps json file wanted (others d)

  repair_once-Keeps :
      (reads ok : Bool) (faults : Faults) (pid : Text) (w : Pass) (d : Directory)
      → Polite w.meanwhile
      → Keeps json file wanted d
      → Keeps json file wanted (repair_once json reads ok faults pid file w d).1
  unfolding repair_once
  repair_once-Keeps false ok faults pid w d polite k = unfold load read in k
  repair_once-Keeps true ok faults pid w d polite k = rw (k.there) (
      finish_pass-Keeps ok faults pid (repair_set w k.set) (w.meanwhile d) (polite d k)
        (repair_set-jobs w k.set ∙ k.same_jobs) (repair_set-IsPinSet w k.set k.distinct))

  -- However many passes there are, and whatever fails in them, the file is loaded as a set with the
  -- jobs that it had, in which no pin lists a holder twice, if other processes, between the passes
  -- and during them, keep it so and JSON reads back what it writes.
  pub watch-Keeps :
      (pid caps : Text) (rounds : List Round) (d : Directory)
      → All (λ (x : Round). Polite x.since × Polite x.pass.meanwhile) rounds
      → Keeps json file wanted d
      → Keeps json file wanted (watch json pid file caps rounds d)
  unfolding watch run_round
  watch-Keeps pid caps [] d others k = k
  watch-Keeps pid caps (x ∷ rounds) d others k = watch-Keeps pid caps rounds _ others.1 (
      repair_once-Keeps x.reads x.directory_ok x.faults pid _ (x.since d) others.0.1
        (others.0.0 d k))
