-- ===== src/Placement/Exhausting.antt =====
-- `select` of src/placement.rs: it leaves nobody out that it has room for.
use ce_pin.Prelude.{
  ℕ, ◌≤◌, ◌<◌, sym, ap, subst, leb, ◌⊎◌, inl, inr, Bool-cases, All, ◌≡◌, true, List, [], ◌∷◌, ◌++◌,
  length, arith,
}
use ce_pin.Prelude.Text.{Text, contains}
use ce_pin.Prelude.Text.Laws.{text_cmp_refl}
use ce_pin.Placement.{Candidate, first_pass, second_pass, eligible, select}
use ce_pin.Placement.Selection.{contains-concat}

-- A text that is in a list stays in it.
second_pass-contains :
    (n : ℕ) (cs : List Candidate) (picked : List Text) (a : Text)
    → contains picked a ≡ true
    → contains (second_pass n cs picked) a ≡ true
unfolding second_pass
second_pass-contains n [] picked a h = h
second_pass-contains n (c ∷ cs) picked a h = ground (
  arith,
  contains-concat picked c.node_id a,
  second_pass-contains n cs picked a,
  second_pass-contains n cs (picked ++ c.node_id ∷ []) a,
)

-- The list holds each of the candidates.
abbrev Covers : List Candidate → List Text → Type 0
Covers cs xs = All (λ c. contains xs c.node_id ≡ true) cs

-- One step of the second pass: it stops at `n`, or goes on with a list that has the candidate.
second_pass-step :
    (n : ℕ) (c : Candidate) (cs : List Candidate) (picked : List Text)
    → ((n ≤ length picked) × (second_pass n (c ∷ cs) picked ≡ picked))
      ⊎ ((next : List Text) × (contains next c.node_id ≡ true)
          × (second_pass n (c ∷ cs) picked ≡ second_pass n cs next))
unfolding second_pass
second_pass-step n c cs picked = elim (Bool-cases (leb n (length picked))) [
  | inl stop ↦ inl (ground (arith, stop), rw stop)
  | inr more ↦ elim (Bool-cases (contains picked c.node_id)) [
    | inl known ↦ inr (picked, known, rw (more, known))
    | inr new' ↦ inr (
      picked ++ c.node_id ∷ [],
      ground (arith, contains-concat picked c.node_id c.node_id, text_cmp_refl c.node_id),
      rw (more, new'),
    )
  ]
]

second_pass-exhausts :
    (n : ℕ) (cs : List Candidate) (picked : List Text)
    → length (second_pass n cs picked) < n
    → Covers cs (second_pass n cs picked)
second_pass-exhausts n [] picked h = tt
second_pass-exhausts n (c ∷ cs) picked h = elim (second_pass-step n c cs picked) [
  | inl (stop, same) ↦ absurd (omega (arith, ap length same))
  | inr (next, has, goes) ↦ subst (Covers (c ∷ cs)) (sym goes) (
    second_pass-contains n cs next c.node_id has,
    second_pass-exhausts n cs next (omega (arith, ap length goes)),
  )
]

-- Either `n` hosts are selected, or the selection is the second pass over the first.
select-cases :
    (cs : List Candidate) (n : ℕ) (exclude : List Text)
    → (n ≤ length (select cs n exclude))
      ⊎ (select cs n exclude
          ≡ second_pass n (eligible cs exclude) (first_pass n (eligible cs exclude) [] []))
unfolding select
select-cases cs n exclude = ground arith

-- Where fewer than `n` hosts are selected, every candidate that is not excluded is among them.
pub select-exhausts :
    (cs : List Candidate) (n : ℕ) (exclude : List Text)
    → length (select cs n exclude) < n
    → All (λ c. contains (select cs n exclude) c.node_id ≡ true) (eligible cs exclude)
select-exhausts cs n exclude h =
    let ranked = eligible cs exclude in
    elim (select-cases cs n exclude) [
      | inl full ↦ absurd (omega arith)
      | inr same ↦ subst (Covers ranked) (sym same) (
          second_pass-exhausts n ranked (first_pass n ranked [] []) (omega (arith, ap length same)))
    ]
