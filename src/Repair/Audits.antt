-- ===== src/Repair/Audits.antt =====
-- Step 1 and 2 of `repair_once` in src/repair.rs: which replicas a pass takes for healthy.
use ce_pin.Prelude.{
  ◌≡◌, refl, ap, ◌∙◌, true, false, Bool, Bool-cases, inl, inr, List, [], ◌∷◌, length, map, filter,
  All, All-imp, arith,
}
use ce_pin.Prelude.Text.{Text, contains}
use ce_pin.Prelude.Text.Laws.{contains-filter, text_cmp_refl}
use ce_pin.PinSet.{Replica}
use ce_pin.Client.Probe.{AuditResult, audited, audit_error, index_panic, audit_replica}
use ce_pin.Client.Replicas.{holders}
use ce_pin.Repair.{Pass, is_pass, audit_all, mark}

-- An audit that was answered with a proof that verifies.
abbrev pub passed : AuditResult → Bool
passed (audited ok) = ok
passed audit_error = false
passed index_panic = false

-- Whether a host passes the audit of the pass for a CID.
abbrev pub passes : Pass → Text → Text → Bool
passes w cid host = passed (audit_replica w.hs (w.auditor cid host) w.caps cid)

is_pass-passed : (r : AuditResult) → is_pass r ≡ passed r
is_pass-passed (audited ok) = refl
is_pass-passed audit_error = refl
is_pass-passed index_panic = refl

audit_all-filter :
    (w : Pass) (cid : Text) (rs : List Replica)
    → (audit_all w cid rs).0 ≡ filter (passes w cid) (holders rs)
unfolding audit_all
audit_all-filter w cid [] = refl
audit_all-filter w cid (r ∷ rs) = elim (Bool-cases (passes w cid r.holder)) [
  | inl ok ↦
      rw (is_pass-passed (audit_replica w.hs (w.auditor cid r.holder) w.caps cid), ok)
        (ap (λ t. r.holder ∷ t) (audit_all-filter w cid rs))
  | inr bad ↦
      rw (is_pass-passed (audit_replica w.hs (w.auditor cid r.holder) w.caps cid), bad)
        (audit_all-filter w cid rs)
]

holders-All : (rs : List Replica) → All (λ r. contains (holders rs) r.holder ≡ true) rs
unfolding contains
holders-All [] = tt
holders-All (r ∷ rs) = (
  ground (arith, text_cmp_refl r.holder),
  All-imp (λ x. contains (holders rs) x.holder ≡ true)
      (λ x. contains (holders (r ∷ rs)) x.holder ≡ true) (λ x h. ground (arith, h)) rs
      (holders-All rs),
)

-- A replica is healthy to the pass if its own holder passes.
healthy-own :
    (w : Pass) (cid : Text) (rs : List Replica)
    → All (λ r. contains (audit_all w cid rs).0 r.holder ≡ passes w cid r.holder) rs
healthy-own w cid rs =
    All-imp (λ r. contains (holders rs) r.holder ≡ true)
      (λ r. contains (audit_all w cid rs).0 r.holder ≡ passes w cid r.holder)
      (λ r known.
        ap (λ t. contains t r.holder) (audit_all-filter w cid rs)
        ∙ contains-filter (passes w cid) (holders rs) r.holder
        ∙ rw known refl)
      rs (holders-All rs)

-- A replica that is marked by what its own holder answered.
abbrev pub by_answer : Pass → Text → Replica → Replica
by_answer w cid r = record r { last_proof_ok = passes w cid r.holder }

mark-map :
    (w : Pass) (cid : Text) (healthy : List Text) (rs : List Replica)
    → All (λ r. contains healthy r.holder ≡ passes w cid r.holder) rs
    → map (mark healthy) rs ≡ map (by_answer w cid) rs
mark-map w cid healthy [] h = refl
mark-map w cid healthy (r ∷ rs) h = rw (h.0, mark-map w cid healthy rs h.1) refl

pub marks-own :
    (w : Pass) (cid : Text) (rs : List Replica)
    → map (mark (audit_all w cid rs).0) rs ≡ map (by_answer w cid) rs
marks-own w cid rs = mark-map w cid (audit_all w cid rs).0 rs (healthy-own w cid rs)

healthy-filter :
    (w : Pass) (cid : Text) (healthy : List Text) (rs : List Replica)
    → All (λ r. contains healthy r.holder ≡ passes w cid r.holder) rs
    → length (filter (λ r. contains healthy r.holder) rs)
      ≡ length (filter (λ r. passes w cid r.holder) rs)
healthy-filter w cid healthy [] h = refl
healthy-filter w cid healthy (r ∷ rs) h = ground (arith, h.0, healthy-filter w cid healthy rs h.1)

pub healthy-count :
    (w : Pass) (cid : Text) (rs : List Replica)
    → length (filter (λ r. contains (audit_all w cid rs).0 r.holder) rs)
      ≡ length (filter (λ r. passes w cid r.holder) rs)
healthy-count w cid rs = healthy-filter w cid (audit_all w cid rs).0 rs (healthy-own w cid rs)
