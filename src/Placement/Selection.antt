-- ===== src/Placement/Selection.antt =====
-- `select` of src/placement.rs: how many hosts it picks, and which.
use ce_pin.Prelude.{
  ℕ, ◌≤◌, All, All-append, All-filter, filter, not, Bool, ◌≡◌, refl, true, false, List, [], ◌∷◌,
  ◌++◌, length, arith, if◌then◌else◌, length-append,
}
use ce_pin.Prelude.Text.{Text, text_eq, contains}
use ce_pin.Prelude.Text.Laws.{text_cmp-IsOrder}
use ce_pin.Prelude.Order.Sort.{Pairs, sort_by-Pairs}
use ce_pin.Prelude.Map.Removal.{IsNodup}
use ce_pin.Placement.{
  Candidate, domain_of, first_pass, second_pass, rank, rank_cmp, eligible, select,
}

-- What `++ [x]` does to membership and to the absence of repetitions.
pub contains-concat :
    (xs : List Text) (x a : Text)
    → contains (xs ++ x ∷ []) a ≡ (if contains xs a then true else text_eq a x)
unfolding contains
contains-concat [] x a = ground arith
contains-concat (y ∷ xs) x a = ground (arith, contains-concat xs x a)

pub IsNodup-concat :
    (xs : List Text) (x : Text) → IsNodup xs → contains xs x ≡ false → IsNodup (xs ++ x ∷ [])
unfolding contains
IsNodup-concat [] x d n = (refl, tt)
IsNodup-concat (y ∷ xs) x d n =
    ground (arith, contains-concat xs x y, text_cmp-IsOrder.flip x y, IsNodup-concat xs x d.1)

-- The second pass never repeats a host, never passes `n`, and reaches it if there are hosts enough.
second_pass-IsNodup :
    (n : ℕ) (cs : List Candidate) (picked : List Text)
    → IsNodup picked
    → IsNodup (second_pass n cs picked)
unfolding second_pass
second_pass-IsNodup n [] picked d = d
second_pass-IsNodup n (c ∷ cs) picked d = ground (
  arith,
  IsNodup-concat picked c.node_id d,
  second_pass-IsNodup n cs picked,
  second_pass-IsNodup n cs (picked ++ c.node_id ∷ []),
)

second_pass-length_le :
    (n : ℕ) (cs : List Candidate) (picked : List Text)
    → length picked ≤ n
    → length (second_pass n cs picked) ≤ n
unfolding second_pass
second_pass-length_le n [] picked h = h
second_pass-length_le n (c ∷ cs) picked h = ground (
  arith,
  length-append picked (c.node_id ∷ []),
  second_pass-length_le n cs picked,
  second_pass-length_le n cs (picked ++ c.node_id ∷ []),
)

first_pass-length_le :
    (n : ℕ) (cs : List Candidate) (picked used : List Text)
    → length picked ≤ n
    → length (first_pass n cs picked used) ≤ n
unfolding first_pass
first_pass-length_le n [] picked used h = h
first_pass-length_le n (c ∷ cs) picked used h = ground (
  arith,
  length-append picked (c.node_id ∷ []),
  first_pass-length_le n cs picked used,
  first_pass-length_le n cs (picked ++ c.node_id ∷ []) (domain_of c ∷ used),
)

-- The texts of the one list that are not in the other: what both passes keep off.
abbrev pub Absent : List Text → List Text → Type 0
Absent xs = All (λ x. contains xs x ≡ false)

-- Two candidates are different nodes.
abbrev pub Distinct : Candidate → Candidate → Type 0
Distinct a b = text_eq a.node_id b.node_id ≡ false

Distinct-sym : (a b : Candidate) → Distinct a b → Distinct b a
Distinct-sym a b h = ground (arith, text_cmp-IsOrder.flip a.node_id b.node_id)

-- None of the candidates has been picked.
abbrev Fresh : List Text → Candidate → Type 0
Fresh picked c = contains picked c.node_id ≡ false

Fresh-concat :
    (picked : List Text) (c : Candidate) (cs : List Candidate)
    → All (Fresh picked) cs
    → All (Distinct c) cs
    → All (Fresh (picked ++ c.node_id ∷ [])) cs
Fresh-concat picked c [] f d = tt
Fresh-concat picked c (e ∷ cs) f d = (
  ground (
    arith,
    contains-concat picked c.node_id e.node_id,
    text_cmp-IsOrder.flip c.node_id e.node_id,
  ),
  Fresh-concat picked c cs f.1 d.1,
)

first_pass-IsNodup :
    (n : ℕ) (cs : List Candidate) (picked used : List Text)
    → IsNodup picked
    → All (Fresh picked) cs
    → Pairs Distinct cs
    → IsNodup (first_pass n cs picked used)
unfolding first_pass
first_pass-IsNodup n [] picked used d f p = d
first_pass-IsNodup n (c ∷ cs) picked used d f p =
    let with_c = picked ++ c.node_id ∷ [] in
    let skipped = first_pass-IsNodup n cs picked used d f.1 p.1 in
    let kept =
      first_pass-IsNodup n cs with_c (domain_of c ∷ used) (IsNodup-concat picked c.node_id d f.0)
        (Fresh-concat picked c cs f.1 p.0) p.1 in
    ground (arith, skipped, kept)

module _ {ℓ} (P : Text → Type ℓ) where
  first_pass-All :
      (n : ℕ) (cs : List Candidate) (picked used : List Text)
      → All P picked
      → All (λ c. P c.node_id) cs
      → All P (first_pass n cs picked used)
  unfolding first_pass
  first_pass-All n [] picked used a b = a
  first_pass-All n (c ∷ cs) picked used a b =
      let skipped = first_pass-All n cs picked used a b.1 in
      let kept =
        first_pass-All n cs (picked ++ c.node_id ∷ []) (domain_of c ∷ used)
          (All-append P picked (c.node_id ∷ []) a (b.0, tt)) b.1 in
      ground (arith, skipped, kept)

  second_pass-All :
      (n : ℕ) (cs : List Candidate) (picked : List Text)
      → All P picked
      → All (λ c. P c.node_id) cs
      → All P (second_pass n cs picked)
  unfolding second_pass
  second_pass-All n [] picked a b = a
  second_pass-All n (c ∷ cs) picked a b =
      let skipped = second_pass-All n cs picked a b.1 in
      let kept =
        second_pass-All n cs (picked ++ c.node_id ∷ [])
          (All-append P picked (c.node_id ∷ []) a (b.0, tt)) b.1 in
      ground (arith, skipped, kept)

  -- What holds of every candidate that is not excluded holds of every host that is selected.
  pub select-All :
      (cs : List Candidate) (n : ℕ) (exclude : List Text)
      → All (λ c. P c.node_id) (eligible cs exclude)
      → All P (select cs n exclude)
  unfolding select
  select-All cs n exclude h =
      let ranked = eligible cs exclude in
      let first = first_pass-All n ranked [] [] tt h in
      let second = second_pass-All n ranked (first_pass n ranked [] []) first h in
      ground (arith, first, second)

All-filter_true :
    (exclude : List Text) (cs : List Candidate)
    → All
        (λ c. contains exclude c.node_id ≡ false)
        (filter (λ c. not (contains exclude c.node_id)) cs)
All-filter_true exclude [] = tt
All-filter_true exclude (c ∷ cs) = ground (arith, All-filter_true exclude cs)

Pairs-filter :
    (p : Candidate → Bool) (cs : List Candidate) → Pairs Distinct cs → Pairs Distinct (filter p cs)
Pairs-filter p [] h = tt
Pairs-filter p (c ∷ cs) h = ground (arith, All-filter (Distinct c) p cs h.0, Pairs-filter p cs h.1)

pub eligible-Distinct :
    (cs : List Candidate) (exclude : List Text)
    → Pairs Distinct cs
    → Pairs Distinct (eligible cs exclude)
unfolding eligible rank
eligible-Distinct cs exclude d =
    Pairs-filter _ (rank cs) (sort_by-Pairs rank_cmp Distinct Distinct-sym cs d)

All-Fresh_nil : (cs : List Candidate) → All (Fresh []) cs
unfolding contains
All-Fresh_nil [] = tt
All-Fresh_nil (c ∷ cs) = (refl, All-Fresh_nil cs)

pub select-length_le :
    (cs : List Candidate) (n : ℕ) (exclude : List Text) → length (select cs n exclude) ≤ n
unfolding select
select-length_le cs n exclude =
    let ranked = eligible cs exclude in
    let firsts = first_pass n ranked [] [] in
    let short = first_pass-length_le n ranked [] [] (omega arith) in
    ground (arith, short, second_pass-length_le n ranked firsts)

-- At most `n` hosts are selected, none of them is excluded, and, where the candidates are different
-- nodes, none is selected twice.
pub select-fresh :
    (cs : List Candidate) (n : ℕ) (exclude : List Text)
    → Pairs Distinct cs
    → (length (select cs n exclude) ≤ n)
      × Absent exclude (select cs n exclude)
      × IsNodup (select cs n exclude)
unfolding select eligible
select-fresh cs n exclude d =
    let ranked = eligible cs exclude in
    let firsts = first_pass n ranked [] [] in
    let once =
      first_pass-IsNodup n ranked [] [] tt (All-Fresh_nil ranked)
        (eligible-Distinct cs exclude d) in
    (
      select-length_le cs n exclude,
      select-All (λ x. contains exclude x ≡ false) cs n exclude (All-filter_true exclude (rank cs)),
      ground (arith, once, second_pass-IsNodup n ranked firsts once),
    )
