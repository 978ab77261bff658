-- ===== src/Repair/Restoring.antt =====
-- `repair_once` of src/repair.rs: a pass over a pin restores its replication, where hosts accept.
pub mod Loop
use ce_pin.Repair.Adding.{place-length, place-healthy, push_new-all, mark-healthy, replicate-select}
use ce_pin.Prelude.{
  ℕ, ◌+◌, ◌-◌, ◌≤◌, ◌≡◌, ◌≢◌, refl, sym, ap, subst, ◌∙◌, true, false, some, List, [], ◌∷◌, ◌++◌,
  map, filter, length, length-append, filter-append, All, arith, ◌==◌, ==_iff, Bool-cases, inl, inr,
}
use ce_pin.Prelude.Text.{Text, contains}
use ce_pin.Prelude.Order.Sort.{Pairs, sort_by}
use ce_pin.Placement.{Candidate, rank, eligible, select}
use ce_pin.Placement.Selection.{Distinct}
use ce_pin.Placement.Filling.{select-fills}
use ce_pin.PinSet.{Entry, Replica, get, healthy_replicas}
use ce_pin.PinSet.Updates.{get-update_same}
use ce_pin.Client.{accepted, offer_req, candidate_hosts, place, replicate}
use ce_pin.Client.Replicas.{holders, replicate-Placed}
use ce_pin.Repair.{
  RepairPlan, Pass, PassState, mark, audit_all, plan_of, check_entry, count_repaired, repair_entry,
  repair_plan, terms_of, place_missing, add_placed, push_new,
}
use ce_pin.Repair.Passes.{check_entry-get}
use ce_pin.Repair.Plan.{live, mark-holders}

nonzero : (n : ℕ) → (n == 0) ≡ false → n ≢ 0
nonzero n h e = ground (arith, h, e)

eligible_nil : (exclude : List Text) → length (eligible [] exclude) ≡ 0
unfolding eligible rank sort_by
eligible_nil exclude = refl

place_missing-add_placed :
    (w : Pass) (cid : Text) (entry : Entry) (plan : RepairPlan) (cs : List Candidate)
    (st : PassState)
    → cs ≢ []
    → place_missing w cid entry plan cs st
      ≡ add_placed cid
          (replicate (w.market cid) (terms_of w cid entry) plan.to_place cs plan.exclude)
          st
place_missing-add_placed w cid entry plan [] st h = absurd (h refl)
place_missing-add_placed w cid entry plan (c ∷ cs) st h = refl

abbrev marked : List Text → Entry → Entry
marked healthy entry = record entry { replicas = map (mark healthy) entry.replicas }

-- The pin once its replicas are marked and the new ones are added.
abbrev restored : List Text → Entry → List Replica → Entry
restored healthy entry new_replicas = record entry {
  replicas = map (mark healthy) entry.replicas ++ new_replicas;
}

restored-healthy :
    (healthy : List Text) (entry : Entry) (new_replicas : List Replica)
    → filter (λ r. r.last_proof_ok) new_replicas ≡ new_replicas
    → healthy_replicas (restored healthy entry new_replicas)
      ≡ live entry.replicas healthy + length new_replicas
unfolding healthy_replicas
restored-healthy healthy entry new_replicas all_ok =
    ap length
      (filter-append (λ r. r.last_proof_ok) (map (mark healthy) entry.replicas) new_replicas)
    ∙ length-append (filter (λ r. r.last_proof_ok) (map (mark healthy) entry.replicas)) _
    ∙ rw (mark-healthy healthy entry.replicas, all_ok) refl

-- What is needed to restore a pin: its candidates are different nodes, of which as many as are
-- missing do not hold it, and the hosts accept what they are offered.
pub record CanRestore (w : Pass) (cid : Text) (entry : Entry) : Type 0 where
  pub different : Pairs Distinct (candidate_hosts (w.network cid))
  pub enough :
      entry.job.replication - live entry.replicas (audit_all w cid entry.replicas).0
      ≤ length (eligible (candidate_hosts (w.network cid)) (holders entry.replicas))
  pub willing :
      (host : Text)
      → accepted ((w.market cid).offer_reply host (offer_req (terms_of w cid entry))) ≡ true

module _ (w : Pass) (cid : Text) (entry : Entry) (can : CanRestore w cid entry) where
  abbrev missing : ℕ
  missing = (plan_of w cid entry).to_place

  abbrev targets : List Text
  targets = select (candidate_hosts (w.network cid)) missing (holders entry.replicas)

  abbrev new_replicas : List Replica
  new_replicas = place (w.market cid) (terms_of w cid entry) targets

  targets-length : length targets ≡ missing
  unfolding repair_plan
  targets-length =
      select-fills (candidate_hosts (w.network cid)) missing (holders entry.replicas) can.different
        can.enough

  replicates :
      missing ≢ 0
      → replicate
          (w.market cid)
          (terms_of w cid entry)
          missing
          (candidate_hosts (w.network cid))
          (holders entry.replicas)
        ≡ some new_replicas
  replicates short =
      replicate-select (w.market cid) (terms_of w cid entry) missing
        (candidate_hosts (w.network cid)) (holders entry.replicas)
        (λ e. short (sym targets-length ∙ ap length e))

  some_candidate : missing ≢ 0 → candidate_hosts (w.network cid) ≢ []
  unfolding repair_plan
  some_candidate short none_there =
      let nobody =
        ap (λ cs. length (eligible cs (holders entry.replicas))) none_there
        ∙ eligible_nil (holders entry.replicas) in
      short (omega (arith, can.enough, nobody))

  new_replicas-added :
      missing ≢ 0
      → push_new new_replicas (map (mark (audit_all w cid entry.replicas).0) entry.replicas)
        ≡ map (mark (audit_all w cid entry.replicas).0) entry.replicas ++ new_replicas
  new_replicas-added short =
      let healthy = (audit_all w cid entry.replicas).0 in
      let (_, once, fresh, _) =
        replicate-Placed (w.market cid) (terms_of w cid entry) missing
          (candidate_hosts (w.network cid)) (holders entry.replicas) new_replicas can.different
          (replicates short) in
      push_new-all new_replicas (map (mark healthy) entry.replicas) once (
        subst (λ hs. All (λ r. contains hs r.holder ≡ false) new_replicas)
          (sym (mark-holders healthy entry.replicas)) fresh)

  placed-get :
      (st : PassState)
      → missing ≢ 0
      → get st.set cid ≡ some (marked (audit_all w cid entry.replicas).0 entry)
      → get
          (place_missing w cid entry (plan_of w cid entry) (candidate_hosts (w.network cid)) st).set
          cid
        ≡ some (restored (audit_all w cid entry.replicas).0 entry new_replicas)
  unfolding repair_plan
  placed-get st short there =
      let cs = candidate_hosts (w.network cid) in
      ap (λ (x : PassState). get x.set cid)
        (place_missing-add_placed w cid entry (plan_of w cid entry) cs st (some_candidate short))
      ∙ ap (λ o. get (add_placed cid o st).set cid) (replicates short)
      ∙ get-update_same st.set cid (λ e. record e { replicas = push_new new_replicas e.replicas })
          (marked (audit_all w cid entry.replicas).0 entry) there
      ∙ ap (λ rs. some (record entry { replicas = rs })) (new_replicas-added short)

  restored-enough :
      entry.job.replication
      ≤ healthy_replicas (restored (audit_all w cid entry.replicas).0 entry new_replicas)
  unfolding repair_plan
  restored-enough = omega (
    arith,
    restored-healthy (audit_all w cid entry.replicas).0 entry new_replicas
        (place-healthy (w.market cid) (terms_of w cid entry) can.willing targets),
    place-length (w.market cid) (terms_of w cid entry) can.willing targets,
    targets-length,
  )

  marked-enough :
      missing ≡ 0
      → entry.job.replication ≤ healthy_replicas (marked (audit_all w cid entry.replicas).0 entry)
  unfolding repair_plan healthy_replicas
  marked-enough enough =
      omega (arith, mark-healthy (audit_all w cid entry.replicas).0 entry.replicas, enough)

  -- Where enough other hosts are found and accept, a pass over a pin leaves it with as many healthy
  -- replicas as its job wants, under the same job.
  pub repair_entry-restores :
      (st : PassState)
      → get st.set cid ≡ some entry
      → (after : Entry) × (get (repair_entry w cid entry st).set cid ≡ some after)
        × (after.job ≡ entry.job)
        × (entry.job.replication ≤ healthy_replicas after)
  unfolding repair_entry
  repair_entry-restores st there =
      let healthy = (audit_all w cid entry.replicas).0 in
      let checked = check_entry-get w cid entry st there in
      elim (Bool-cases (missing == 0)) [
        | inl enough ↦ (
          marked healthy entry,
          rw enough checked,
          refl,
          marked-enough ((==_iff missing 0).0 enough),
        )
        | inr short ↦ (
          restored healthy entry new_replicas,
          rw short (
              placed-get (count_repaired (check_entry w cid entry st))
                (λ e. nonzero missing short e) checked),
          refl,
          restored-enough,
        )
      ]
