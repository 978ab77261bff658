-- ===== src/Repair/Passes.antt =====
-- `repair_once` of src/repair.rs: what a pass makes of the pin-set.
use ce_pin.Prelude.{
  ℕ, ◌≤◌, ◌≡◌, refl, ap, ◌∙◌, append-nil, Option, none, some, List, [], ◌∷◌, ◌++◌, length, map, All,
  ◌==◌, inl, inr, Bool-cases, arith,
}
use ce_pin.Prelude.Text.{Text}
use ce_pin.Prelude.Map
use ce_pin.Prelude.Map.{Map}
use ce_pin.Prelude.Map.Removal.{IsNodup}
use ce_pin.Placement.{Candidate}
use ce_pin.PinSet.{Entry, PinSet, Replica, get, update}
use ce_pin.PinSet.Updates.{get-update_same}
use ce_pin.Client.{candidate_hosts}
use ce_pin.Client.Replicas.{holders, replicate-length_le}
use ce_pin.Repair.Audits.{passes, by_answer, marks-own, healthy-count}
use ce_pin.Prelude.{◌-◌, filter}
use ce_pin.Repair.{repair_plan}
use ce_pin.Repair.{
  RepairPlan, Pass, PassState, mark, mark_health, audit_all, check_entry, plan_of, count_repaired,
  repair_entry, repair_each, repair_set, repair_found, terms_of, place_missing, add_placed,
}
use ce_pin.Repair.Plan.{push_new-IsNodup, push_new-appends, mark-holders}

-- No replica set lists a holder twice.
abbrev pub IsPinSet : PinSet → Type 0
IsPinSet s = All (λ e. IsNodup (holders e.1.replicas)) s.pins

modify-All {ℓ κ} :
    {V : Type ℓ} (P : V → Type κ) (k : Text) (f : V → V)
    → ((v : V) → P v → P (f v))
    → (m : Map V) → All (λ e. P e.1) m
    → All (λ e. P e.1) (Map.modify k f m)
unfolding Map.modify
modify-All P k f g [] h = tt
modify-All P k f g ((j, v) ∷ m) h = ground (arith, g v, modify-All P k f g m h.1)

update-IsPinSet :
    (s : PinSet) (cid : Text) (f : Entry → Entry)
    → ((e : Entry) → IsNodup (holders e.replicas) → IsNodup (holders (f e).replicas))
    → IsPinSet s
    → IsPinSet (update s cid f)
unfolding update
update-IsPinSet s cid f g = modify-All (λ e. IsNodup (holders e.replicas)) cid f g s.pins

check_entry-IsPinSet :
    (w : Pass) (cid : Text) (entry : Entry) (st : PassState)
    → IsPinSet st.set
    → IsPinSet (check_entry w cid entry st).set
unfolding check_entry mark_health
check_entry-IsPinSet w cid entry st =
    update-IsPinSet st.set cid _
      (λ e d. rw (mark-holders (audit_all w cid entry.replicas).0 e.replicas) d)

add_placed-IsPinSet :
    (cid : Text) (placed : Option (List Replica)) (st : PassState)
    → IsPinSet st.set
    → IsPinSet (add_placed cid placed st).set
add_placed-IsPinSet cid none st h = h
add_placed-IsPinSet cid (some new_replicas) st h =
    update-IsPinSet st.set cid _ (λ e. push_new-IsNodup new_replicas e.replicas) h

place_missing-IsPinSet :
    (w : Pass) (cid : Text) (entry : Entry) (plan : RepairPlan) (cs : List Candidate)
    (st : PassState)
    → IsPinSet st.set
    → IsPinSet (place_missing w cid entry plan cs st).set
place_missing-IsPinSet w cid entry plan [] st h = h
place_missing-IsPinSet w cid entry plan (c ∷ cs) st h = add_placed-IsPinSet cid _ st h

repair_entry-IsPinSet :
    (w : Pass) (cid : Text) (entry : Entry) (st : PassState)
    → IsPinSet st.set
    → IsPinSet (repair_entry w cid entry st).set
unfolding repair_entry
repair_entry-IsPinSet w cid entry st h =
    let checked = check_entry-IsPinSet w cid entry st h in
    let placed =
      place_missing-IsPinSet w cid entry (plan_of w cid entry) (candidate_hosts (w.network cid))
        (count_repaired (check_entry w cid entry st)) checked in
    elim (Bool-cases ((plan_of w cid entry).to_place == 0)) [
      | inl enough ↦ rw enough checked
      | inr short ↦ rw short placed
    ]

repair_found-IsPinSet :
    (w : Pass) (cid : Text) (found : Option Entry) (st : PassState)
    → IsPinSet st.set
    → IsPinSet (repair_found w cid found st).set
repair_found-IsPinSet w cid none st h = h
repair_found-IsPinSet w cid (some entry) st h = repair_entry-IsPinSet w cid entry st h

repair_each-IsPinSet :
    (w : Pass) (cids : List Text) (st : PassState)
    → IsPinSet st.set
    → IsPinSet (repair_each w cids st).set
unfolding repair_each
repair_each-IsPinSet w [] st h = h
repair_each-IsPinSet w (cid ∷ cids) st h =
    repair_each-IsPinSet w cids (repair_found w cid (get st.set cid) st)
      (repair_found-IsPinSet w cid (get st.set cid) st h)

-- A pass over a pin-set in which no pin lists a holder twice leaves one, whatever the hosts answer.
pub repair_set-IsPinSet : (w : Pass) (set : PinSet) → IsPinSet set → IsPinSet (repair_set w set).set
unfolding repair_set
repair_set-IsPinSet w set h = repair_each-IsPinSet w (Map.keys set.pins) _ h

-- What is found of a pin after a pass: its job, its replicas, each marked by whether its holder passed
-- its audit, and after them those that were placed, no more than healthy ones are missing.
pub record Repaired (w : Pass) (cid : Text) (entry : Entry) (st : PassState) : Type 0 where
  pub added : List Replica
  pub found :
      get (repair_entry w cid entry st).set cid
      ≡ some (record entry { replicas = map (by_answer w cid) entry.replicas ++ added })
  pub no_more :
      length added
      ≤ entry.job.replication - length (filter (λ r. passes w cid r.holder) entry.replicas)

pub check_entry-get :
    (w : Pass) (cid : Text) (entry : Entry) (st : PassState)
    → get st.set cid ≡ some entry
    → get (check_entry w cid entry st).set cid
      ≡ some
          (record entry { replicas = map (mark (audit_all w cid entry.replicas).0) entry.replicas })
unfolding check_entry mark_health
check_entry-get w cid entry st = get-update_same st.set cid _ entry

add_placed-get :
    (cid : Text) (placed : Option (List Replica)) (n : ℕ) (st : PassState) (e : Entry)
    → get st.set cid ≡ some e
    → ((rs : List Replica) → placed ≡ some rs → length rs ≤ n)
    → (added : List Replica) × (get (add_placed cid placed st).set cid
        ≡ some (record e { replicas = e.replicas ++ added }))
      × (length added ≤ n)
add_placed-get cid none n st e h few = ([], rw (append-nil e.replicas) h, omega arith)
add_placed-get cid (some rs) n st e h few =
    let (added, appends, l) = push_new-appends rs e.replicas in
    (
      added,
      get-update_same st.set cid _ e h ∙ ap (λ xs. some (record e { replicas = xs })) appends,
      omega (arith, l, few rs refl),
    )

place_missing-get :
    (w : Pass) (cid : Text) (entry : Entry) (plan : RepairPlan) (cs : List Candidate)
    (st : PassState) (e : Entry)
    → get st.set cid ≡ some e
    → (added : List Replica) × (get (place_missing w cid entry plan cs st).set cid
        ≡ some (record e { replicas = e.replicas ++ added }))
      × (length added ≤ plan.to_place)
place_missing-get w cid entry plan [] st e h = ([], rw (append-nil e.replicas) h, omega arith)
place_missing-get w cid entry plan (c ∷ cs) st e h =
    add_placed-get cid _ plan.to_place st e h (λ rs.
      replicate-length_le (w.market cid) (terms_of w cid entry) plan.to_place (c ∷ cs) plan.exclude
        rs)

to_place-missing :
    (w : Pass) (cid : Text) (entry : Entry)
    → (plan_of w cid entry).to_place
      ≡ entry.job.replication - length (filter (λ r. passes w cid r.holder) entry.replicas)
unfolding repair_plan
to_place-missing w cid entry =
    ap (λ (n : ℕ). entry.job.replication - n) (healthy-count w cid entry.replicas)

-- The pass over a pin writes back, for each replica that it had, whether that holder passed its
-- audit, keeps the job, and adds at most as many replicas as the job wants beyond those whose holders
-- passed.
pub repair_entry-Repaired :
    (w : Pass) (cid : Text) (entry : Entry) (st : PassState)
    → get st.set cid ≡ some entry
    → Repaired w cid entry st
unfolding repair_entry
repair_entry-Repaired w cid entry st h =
    let checked =
      check_entry-get w cid entry st h
      ∙ ap (λ rs. some (record entry { replicas = rs })) (marks-own w cid entry.replicas) in
    let (added, there, few) =
      place_missing-get w cid entry (plan_of w cid entry) (candidate_hosts (w.network cid))
        (count_repaired (check_entry w cid entry st)) _ checked in
    elim (Bool-cases ((plan_of w cid entry).to_place == 0)) [
      | inl enough ↦ record {
        added = [];
        found = rw (enough, append-nil (map (by_answer w cid) entry.replicas)) checked;
        no_more = omega arith;
      }
      | inr short ↦ record {
        added = added;
        found = rw short there;
        no_more = omega (arith, few, to_place-missing w cid entry);
      }
    ]
