-- ===== src/Repair.antt =====
-- src/repair.rs: one pass of the repair loop: audit each replica, write its health back, pay the
-- rent, and place what is missing.
pub mod Audits
pub mod Plan
pub mod Passes
pub mod Store
pub mod Adding
pub mod Restoring
pub mod Watch
use ce_pin.Prelude.{
  ℕ, ◌+◌, ◌-◌, ◌≡◌, Bool, true, false, not, ◌||◌, Option, none, some, List, [], ◌∷◌, ◌++◌, length,
  filter, any, map, ◌==◌, if◌then◌else◌, unwrap_or,
}
use ce_pin.Prelude.Text.{Text, text_eq, is_empty, contains}
use ce_pin.Prelude.Map
use ce_pin.Audit.{Hashing}
use ce_pin.Config.{offered_rent}
use ce_pin.Placement.{Candidate}
use ce_pin.Files.{Directory, Faults}
use ce_pin.Held.Storage.{SaveResult, saved, save_failed}
use ce_pin.PinSet.{
  Entry, PinSet, Replica, PinJson, LoadResult, loaded, read_error, parse_error, get, update, load,
  save,
}
use ce_pin.Client.{
  Network, candidate_hosts, Market, Terms, replicate, Receipt, pay_rent, rent_owed_base,
}
use ce_pin.Client.Probe.{Auditor, AuditResult, audited, audit_error, index_panic, audit_replica}

pub record RepairPlan : Type 0 where
  pub to_place : ℕ
  pub exclude : List Text

unfoldable pub repair_plan : List Replica → List Text → ℕ → RepairPlan
repair_plan replicas healthy desired =
    let healthy_count = length (filter (λ r. contains healthy r.holder) replicas) in
    record { to_place = desired - healthy_count; exclude = map (λ r. r.holder) replicas }

pub record RepairReport : Type 0 where
  pub pins_checked : ℕ
  pub pins_repaired : ℕ
  pub replicas_added : ℕ
  pub replicas_unhealthy : ℕ

abbrev pub empty_report : RepairReport
empty_report = record {
  pins_checked = 0;
  pins_repaired = 0;
  replicas_added = 0;
  replicas_unhealthy = 0;
}

-- What the world answers during one pass: to an audit of a CID's holder, and per CID to the search
-- for candidates and to `replicate`. `meanwhile` is what other processes do to the files between the
-- load of the set and its save.
pub record Pass : Type 0 where
  pub hs : Hashing
  pub caps : Text
  pub auditor : Text → Text → Auditor
  pub network : Text → Network
  pub market : Text → Market
  pub meanwhile : Directory → Directory

-- What the pass changes, with the receipts it asks to sign, the latest first.
pub record PassState : Type 0 where
  pub set : PinSet
  pub report : RepairReport
  pub dirty : Bool
  pub receipts : List Receipt

abbrev is_pass : AuditResult → Bool
is_pass (audited ok) = ok
is_pass audit_error = false
is_pass index_panic = false

-- The audits of a pin: the holders that passed, and how many did not.
unfoldable pub audit_all : Pass → Text → List Replica → List Text × ℕ
audit_all w cid [] = ([], 0)
audit_all w cid (r ∷ rs) =
    let (healthy, failed) = audit_all w cid rs in
    if is_pass (audit_replica w.hs (w.auditor cid r.holder) w.caps cid)
    then (r.holder ∷ healthy, failed)
    else (healthy, failed + 1)

-- Only a holder that passed is marked.
abbrev pub mark : List Text → Replica → Replica
mark healthy r = record r { last_proof_ok = contains healthy r.holder }

unfoldable pub mark_health : List Text → Entry → Entry
mark_health healthy e = record e { replicas = map (mark healthy) e.replicas }

-- The rent of one hour for each replica with a channel whose last audit passed.
unfoldable pub pay_each : ℕ → List Replica → List Receipt → List Receipt
pay_each owed [] done = done
pay_each owed (r ∷ rs) done =
    if is_empty r.channel_id || not r.last_proof_ok
    then pay_each owed rs done
    else elim (pay_rent r owed) [
      | none ↦ pay_each owed rs done
      | some receipt ↦ pay_each owed rs (receipt ∷ done)
    ]

unfoldable pub pay_rent_for : Entry → List Receipt → List Receipt
unfolding pay_each
pay_rent_for entry done =
    let rent_base = offered_rent entry.job.rent_per_gb_hour in
    if rent_base == 0
    then done
    else pay_each (rent_owed_base entry.job.bytes_len 1 rent_base) entry.replicas done

-- A new replica is pushed unless its holder is there already.
unfoldable pub push_new : List Replica → List Replica → List Replica
push_new [] replicas = replicas
push_new (nr ∷ new_replicas) replicas =
    push_new new_replicas
      (if any (λ r. text_eq r.holder nr.holder) replicas then replicas else replicas ++ nr ∷ [])

abbrev pub terms_of : Pass → Text → Entry → Terms
terms_of w cid entry = record {
  cid = cid;
  bytes_len = entry.job.bytes_len;
  rent_per_gb_hour = entry.job.rent_per_gb_hour;
  expiry_height = entry.job.expiry_height;
  caps = w.caps;
}

abbrev pub add_placed : Text → Option (List Replica) → PassState → PassState
add_placed cid none st = st
add_placed cid (some new_replicas) st = record st {
  report = record (st.report) { replicas_added = st.report.replicas_added + length new_replicas };
  set = update st.set cid (λ e. record e { replicas = push_new new_replicas e.replicas });
  dirty = true;
}

abbrev pub place_missing : Pass → Text → Entry → RepairPlan → List Candidate → PassState → PassState
place_missing w cid entry plan [] st = st
place_missing w cid entry plan (c ∷ candidates) st =
    add_placed cid
      (replicate (w.market cid) (terms_of w cid entry) plan.to_place (c ∷ candidates) plan.exclude)
      st

-- Steps 1 to 3 for a pin; `entry` is the copy that the pass took before them.
unfoldable pub check_entry : Pass → Text → Entry → PassState → PassState
unfolding audit_all mark_health pay_rent_for
check_entry w cid entry st =
    let (healthy, failed) = audit_all w cid entry.replicas in
    record st {
      report = record (st.report) {
        pins_checked = st.report.pins_checked + 1;
        replicas_unhealthy = st.report.replicas_unhealthy + failed;
      };
      set = update st.set cid (mark_health healthy);
      dirty = true;
      receipts = pay_rent_for entry st.receipts;
    }

abbrev pub plan_of : Pass → Text → Entry → RepairPlan
plan_of w cid entry =
    repair_plan entry.replicas (audit_all w cid entry.replicas).0 entry.job.replication

abbrev pub count_repaired : PassState → PassState
count_repaired st = record st {
  report = record (st.report) { pins_repaired = st.report.pins_repaired + 1 };
}

-- Step 4 after the others.
unfoldable pub repair_entry : Pass → Text → Entry → PassState → PassState
unfolding check_entry repair_plan push_new
repair_entry w cid entry st =
    let plan = plan_of w cid entry in
    let checked = check_entry w cid entry st in
    if plan.to_place == 0
    then checked
    else place_missing w cid entry plan (candidate_hosts (w.network cid)) (count_repaired checked)

abbrev pub repair_found : Pass → Text → Option Entry → PassState → PassState
repair_found w cid none st = st
repair_found w cid (some entry) st = repair_entry w cid entry st

-- The loop over the CIDs that the set had at the start.
unfoldable pub repair_each : Pass → List Text → PassState → PassState
unfolding repair_entry get
repair_each w [] st = st
repair_each w (cid ∷ cids) st = repair_each w cids (repair_found w cid (get st.set cid) st)

-- A pass over a loaded set; `dirty` says whether the set is saved afterwards.
unfoldable pub repair_set : Pass → PinSet → PassState
unfolding repair_each
repair_set w set =
    repair_each w (Map.keys set.pins)
      (record { set = set; report = empty_report; dirty = false; receipts = [] })

abbrev pub report_saved : RepairReport → SaveResult × Directory → Option RepairReport × Directory
report_saved report (saved, d) = (some report, d)
report_saved report (save_failed, d) = (none, d)

abbrev pub finish_pass :
    PinJson → Bool → Faults → Text → Text → PassState → Directory → Option RepairReport × Directory
finish_pass json ok faults pid file st d =
    if st.dirty
    then report_saved st.report (save json ok faults pid file st.set d)
    else (some st.report, d)

abbrev pub pass_over :
    PinJson
    → Bool
    → Faults
    → Text
    → Text
    → Pass
    → LoadResult
    → Directory
    → Option RepairReport × Directory
pass_over json ok faults pid file w (loaded set) d =
    finish_pass json ok faults pid file (repair_set w set) (w.meanwhile d)
pass_over json ok faults pid file w _ d = (none, d)

-- The whole pass; `none` is an error. `reads`, `ok` and `faults` are the file system's answers.
unfoldable pub repair_once :
    PinJson
    → Bool
    → Bool
    → Faults
    → Text
    → Text
    → Pass
    → Directory
    → Option RepairReport × Directory
unfolding repair_set load save
repair_once json reads ok faults pid file w d =
    pass_over json ok faults pid file w (load json reads file d) d
