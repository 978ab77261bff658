-- ===== src/Placement/FirstPass.antt =====
-- The two passes of `select` in src/placement.rs: the hosts that each adds.
use ce_pin.Prelude.{
  ℕ, ◌≤◌, ◌≡◌, refl, sym, ◌∙◌, true, false, ◌||◌, List, [], ◌∷◌, ◌++◌, length, map, append_assoc,
  append-nil, All, ◌⊎◌, inl, inr, Bool-cases, arith, leb,
}
use ce_pin.Prelude.Text.{Text, contains}
use ce_pin.Prelude.Text.Laws.{text_cmp-IsOrder, text_cmp_refl}
use ce_pin.Prelude.Map.Removal.{IsNodup}
use ce_pin.Placement.{Candidate, domain_of, first_pass, second_pass}

abbrev pub ids : List Candidate → List Text
ids = map (λ c. c.node_id)

abbrev pub domains : List Candidate → List Text
domains = map domain_of

-- What the first pass adds to `picked`: hosts of different domains, none of them used before, until
-- there are `n`, or until each candidate's domain is used or among them.
pub record Spread (P : Candidate → Type 0) (n : ℕ) (cs : List Candidate)
    (picked used result : List Text) : Type 0 where
  pub added : List Candidate
  pub is_result : result ≡ picked ++ ids added
  pub picks : All P cs → All P added
  pub apart : IsNodup (domains added)
  pub fresh : All (λ c. contains used (domain_of c) ≡ false) added
  pub full :
      (n ≤ length result)
      ⊎ All (λ c. (contains used (domain_of c) || contains (domains added) (domain_of c)) ≡ true) cs

fresh-contains :
    (d : Text) (used : List Text) (added : List Candidate)
    → All (λ c. contains (d ∷ used) (domain_of c) ≡ false) added
    → (contains (domains added) d ≡ false) × All (λ c. contains used (domain_of c) ≡ false) added
unfolding contains
fresh-contains d used [] h = (refl, tt)
fresh-contains d used (c ∷ added) h =
    ground (arith, text_cmp-IsOrder.flip d (domain_of c), fresh-contains d used added h.1)

full-cons :
    (d : Text) (used : List Text) (added cs : List Candidate)
    → All
        (λ c. (contains (d ∷ used) (domain_of c) || contains (domains added) (domain_of c)) ≡ true)
        cs
    → All
        (λ c. (contains used (domain_of c) || contains (d ∷ domains added) (domain_of c)) ≡ true)
        cs
unfolding contains
full-cons d used added [] h = tt
full-cons d used added (c ∷ cs) h = (ground arith, full-cons d used added cs h.1)

contains_head : (d : Text) (ds : List Text) → contains (d ∷ ds) d ≡ true
unfolding contains
contains_head d ds = ground (arith, text_cmp_refl d)

-- Nothing more is picked.
Spread-stop :
    (P : Candidate → Type 0) (n : ℕ) (cs : List Candidate) (picked used : List Text)
    → (n ≤ length picked) ⊎ All (λ c. (contains used (domain_of c) || false) ≡ true) cs
    → Spread P n cs picked used picked
unfolding contains
Spread-stop P n cs picked used full = record {
  added = [];
  is_result = sym (append-nil picked);
  picks = λ h. tt;
  apart = tt;
  fresh = tt;
  full = full;
}

-- A candidate of a used domain is passed over.
Spread-skip :
    (P : Candidate → Type 0) (n : ℕ) (c : Candidate) (cs : List Candidate)
    (picked used result : List Text)
    → contains used (domain_of c) ≡ true
    → Spread P n cs picked used result
    → Spread P n (c ∷ cs) picked used result
Spread-skip P n c cs picked used result skip rest = record {
  added = rest.added;
  is_result = rest.is_result;
  picks = λ h. rest.picks h.1;
  apart = rest.apart;
  fresh = rest.fresh;
  full = elim rest.full [ inl enough ↦ inl enough | inr all ↦ inr (ground (arith, skip), all) ];
}

-- A candidate of a new domain is picked.
Spread-take :
    (P : Candidate → Type 0) (n : ℕ) (c : Candidate) (cs : List Candidate)
    (picked used result : List Text)
    → contains used (domain_of c) ≡ false
    → Spread P n cs (picked ++ c.node_id ∷ []) (domain_of c ∷ used) result
    → Spread P n (c ∷ cs) picked used result
Spread-take P n c cs picked used result unseen rest =
    let d = domain_of c in
    let (alone, unused) = fresh-contains d used rest.added rest.fresh in
    record {
      added = c ∷ rest.added;
      is_result = rest.is_result ∙ append_assoc picked (c.node_id ∷ []) (ids rest.added);
      picks = λ h. (h.0, rest.picks h.1);
      apart = (alone, rest.apart);
      fresh = (unseen, unused);
      full = elim rest.full [
        | inl enough ↦ inl enough
        | inr all ↦ inr (
          ground (arith, contains_head d (domains rest.added)),
          full-cons d used rest.added cs all,
        )
      ];
    }

pub first_pass-Spread :
    (P : Candidate → Type 0) (n : ℕ) (cs : List Candidate) (picked used : List Text)
    → Spread P n cs picked used (first_pass n cs picked used)
unfolding first_pass
first_pass-Spread P n [] picked used = Spread-stop P n [] picked used (inr tt)
first_pass-Spread P n (c ∷ cs) picked used = elim (Bool-cases (leb n (length picked))) [
  | inl stop ↦ rw stop (Spread-stop P n (c ∷ cs) picked used (inl (ground (arith, stop))))
  | inr more ↦ elim (Bool-cases (contains used (domain_of c))) [
    | inl skip ↦
        rw (more, skip)
          (Spread-skip P n c cs picked used _ skip (first_pass-Spread P n cs picked used))
    | inr unseen ↦
        rw (more, unseen)
          (Spread-take P n c cs picked used _ unseen
            (first_pass-Spread P n cs (picked ++ c.node_id ∷ []) (domain_of c ∷ used)))
  ]
]

pub second_pass-extends :
    (n : ℕ) (cs : List Candidate) (picked : List Text)
    → (more : List Text) × (second_pass n cs picked ≡ picked ++ more)
unfolding second_pass
second_pass-extends n [] picked = ([], sym (append-nil picked))
second_pass-extends n (c ∷ cs) picked = elim (Bool-cases (leb n (length picked))) [
  | inl stop ↦ rw stop ([], sym (append-nil picked))
  | inr go ↦ elim (Bool-cases (contains picked c.node_id)) [
    | inl known ↦ rw (go, known) (second_pass-extends n cs picked)
    | inr new' ↦
        let (more, e) = second_pass-extends n cs (picked ++ c.node_id ∷ []) in
        rw (go, new') (c.node_id ∷ more, e ∙ append_assoc picked (c.node_id ∷ []) more)
  ]
]
