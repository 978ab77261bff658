-- ===== src/Placement/Diversity.antt =====
-- `select` in src/placement.rs: the fault domains of the hosts that it picks.
use ce_pin.Prelude.{ℕ, ◌≤◌, ◌≡◌, true, false, List, ◌++◌, length, All, ◌⊎◌}
use ce_pin.Prelude.Text.{Text, contains}
use ce_pin.Prelude.Map.Removal.{IsNodup}
use mathlib.Core.List.{Mem}
use ce_pin.Placement.{Candidate, domain_of, select}
use ce_pin.Placement.FirstPass.{ids, domains}

-- How the selected hosts spread: the first of them are candidates that are not excluded and have
-- different fault domains, and either there are `n` of these or every candidate that is not excluded
-- lies in one of their domains.
pub record Spreads (cs : List Candidate) (n : ℕ) (exclude : List Text) : Type 0 where
  pub first : List Candidate
  pub others : List Text
  pub is_selection : select cs n exclude ≡ ids first ++ others
  pub among : All (λ c. Mem c cs × (contains exclude c.node_id ≡ false)) first
  pub apart : IsNodup (domains first)
  pub full :
      (n ≤ length first)
      ⊎ All
          (λ c. contains exclude c.node_id ≡ false → contains (domains first) (domain_of c) ≡ true)
          cs

-- A candidate that is not excluded.
abbrev Open : List Candidate → List Text → Candidate → Type 0
Open cs exclude c = Mem c cs × (contains exclude c.node_id ≡ false)
