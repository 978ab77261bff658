-- ===== src/Placement/Filling.antt =====
-- `select` of src/placement.rs: as many hosts as asked for, where there are so many.
use ce_pin.Prelude.{
  ℕ, suc, ◌≤◌, ◌≡◌, refl, ap, true, false, List, [], ◌∷◌, map, length, All, arith, if◌then◌else◌,
  ltb, ltb→lt, ltb-false→le, Bool-cases, inl, inr,
}
use ce_pin.Prelude.Text.{Text, text_eq, contains}
use ce_pin.Prelude.Text.Laws.{text_cmp-eq, text_cmp-IsOrder}
use ce_pin.Prelude.Order.Sort.{Pairs}
use ce_pin.Prelude.Map.Removal.{IsNodup}
use ce_pin.Placement.{Candidate, eligible, select}
use ce_pin.Placement.Exhausting.{select-exhausts}
use ce_pin.Placement.Selection.{Distinct, eligible-Distinct, select-length_le}

-- A list without the first occurrence of a text.
erase : Text → List Text → List Text
erase x [] = []
erase x (y ∷ ys) = let rest = erase x ys in if text_eq x y then ys else y ∷ rest

erase-length :
    (x : Text) (ys : List Text) → contains ys x ≡ true → length ys ≡ suc (length (erase x ys))
unfolding erase contains
erase-length x [] h = cc
erase-length x (y ∷ ys) h = ground (arith, erase-length x ys)

erase-contains :
    (x z : Text) (ys : List Text) → text_eq z x ≡ false → contains (erase x ys) z ≡ contains ys z
unfolding erase contains
erase-contains x z [] h = refl
erase-contains x z (y ∷ ys) h = ground (arith, erase-contains x z ys h, text_cmp-eq x y)

abbrev Within : List Text → List Text → Type 0
Within ys = All (λ x. contains ys x ≡ true)

erase-Within :
    (x : Text) (ys xs : List Text) → contains xs x ≡ false → Within ys xs → Within (erase x ys) xs
unfolding contains
erase-Within x ys [] n h = tt
erase-Within x ys (z ∷ xs) n h =
    ground (arith, erase-contains x z ys, text_cmp-IsOrder.flip x z, erase-Within x ys xs)

-- Different texts of a list are no more than the list is long.
pigeonhole : (xs ys : List Text) → IsNodup xs → Within ys xs → length xs ≤ length ys
pigeonhole [] ys d h = omega arith
pigeonhole (x ∷ xs) ys d h =
    let fewer = pigeonhole xs (erase x ys) d.1 (erase-Within x ys xs d.0 h.1) in
    omega (arith, fewer, erase-length x ys h.0)

abbrev node_ids : List Candidate → List Text
node_ids = map (λ c. c.node_id)

node_ids-absent :
    (c : Candidate) (cs : List Candidate)
    → All (Distinct c) cs
    → contains (node_ids cs) c.node_id ≡ false
unfolding contains
node_ids-absent c [] h = refl
node_ids-absent c (e ∷ cs) h = ground (arith, node_ids-absent c cs h.1)

node_ids-IsNodup : (cs : List Candidate) → Pairs Distinct cs → IsNodup (node_ids cs)
node_ids-IsNodup [] h = tt
node_ids-IsNodup (c ∷ cs) h = (node_ids-absent c cs h.0, node_ids-IsNodup cs h.1)

node_ids-Within :
    (ys : List Text) (cs : List Candidate)
    → All (λ c. contains ys c.node_id ≡ true) cs
    → Within ys (node_ids cs)
node_ids-Within ys [] h = tt
node_ids-Within ys (c ∷ cs) h = (h.0, node_ids-Within ys cs h.1)

node_ids-length : (cs : List Candidate) → length (node_ids cs) ≡ length cs
node_ids-length [] = refl
node_ids-length (c ∷ cs) = ap suc (node_ids-length cs)

-- Of different nodes of which `n` are not excluded, `select` picks `n`.
pub select-fills :
    (cs : List Candidate) (n : ℕ) (exclude : List Text)
    → Pairs Distinct cs
    → n ≤ length (eligible cs exclude)
    → length (select cs n exclude) ≡ n
select-fills cs n exclude d enough =
    let picked = select cs n exclude in
    let ranked = eligible cs exclude in
    elim (Bool-cases (ltb (length picked) n)) [
      | inl short ↦
          let within =
            node_ids-Within picked ranked (select-exhausts cs n exclude (ltb→lt _ _ short)) in
          let fewer =
            pigeonhole (node_ids ranked) picked
              (node_ids-IsNodup ranked (eligible-Distinct cs exclude d)) within in
          absurd (omega (arith, fewer, node_ids-length ranked, ltb→lt _ _ short, enough))
      | inr full ↦ omega (arith, select-length_le cs n exclude, ltb-false→le (length picked) n full)
    ]
