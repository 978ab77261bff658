-- ===== src/Placement.antt =====
-- src/placement.rs: the ranking of candidate hosts and the choice of replicas across fault domains.
pub mod Ranking
pub mod Selection
pub mod Exhausting
pub mod FirstPass
pub mod Diversity
pub mod Filling
use ce_pin.Prelude.{
  ℕ, suc, ◌-◌, compare, ◌≡◌, Bool, true, false, not, Option, none, some, List, [], ◌∷◌, ◌++◌,
  length, filter, find, is_some, leb, ltb, ◌==◌, if◌then◌else◌,
}
use ce_pin.Prelude.Order.{Cmp, on, then_by, descending}
use ce_pin.Prelude.Order.Sort.{sort_by}
use ce_pin.Prelude.Text.{Text, lit, text_cmp, contains, is_empty, trim, strip_prefix}

pub record Candidate : Type 0 where
  pub node_id : Text
  pub delivered_work : ℕ
  pub last_seen_secs : ℕ
  pub mem_mb : ℕ
  pub fault_domain : Text

-- More delivered work first, then the more recently seen, then the roomier, then the node id.
abbrev pub rank_cmp : Cmp Candidate
rank_cmp =
    then_by
      (then_by
        (then_by (descending (on (λ c. c.delivered_work) compare))
          (on (λ c. c.last_seen_secs) compare))
        (descending (on (λ c. c.mem_mb) compare)))
      (on (λ c. c.node_id) text_cmp)

unfoldable pub rank : List Candidate → List Candidate
rank candidates = sort_by rank_cmp candidates

-- A host whose domain is not known is a domain of its own.
unfoldable pub domain_of : Candidate → Text
domain_of c = if is_empty (trim c.fault_domain) then lit "node:" ++ c.node_id else c.fault_domain

-- The first pass: one host from each domain, the best first; `used` are the domains so far.
unfoldable pub first_pass : ℕ → List Candidate → List Text → List Text → List Text
first_pass n [] picked used = picked
first_pass n (c ∷ ranked) picked used =
    let stop = leb n (length picked) in
    let skip = contains used (domain_of c) in
    let next =
      first_pass n ranked (if skip then picked else picked ++ c.node_id ∷ [])
        (if skip then used else domain_of c ∷ used) in
    if stop then picked else next

-- The second pass: the next best hosts, whatever their domain.
unfoldable pub second_pass : ℕ → List Candidate → List Text → List Text
second_pass n [] picked = picked
second_pass n (c ∷ ranked) picked =
    let stop = leb n (length picked) in
    let next =
      second_pass n ranked
        (if contains picked c.node_id then picked else picked ++ c.node_id ∷ []) in
    if stop then picked else next

-- The ranked candidates that are not excluded.
unfoldable pub eligible : List Candidate → List Text → List Candidate
unfolding rank
eligible candidates exclude = filter (λ c. not (contains exclude c.node_id)) (rank candidates)

unfoldable pub select : List Candidate → ℕ → List Text → List Text
unfolding eligible first_pass second_pass
select candidates n exclude =
    if n == 0
    then []
    else let ranked = eligible candidates exclude in
      let picked = first_pass n ranked [] [] in
      if ltb (length picked) n then second_pass n ranked picked else picked

-- The rest of the first tag that begins with the prefix.
unfoldable pub tag_value : Text → List Text → Option Text
tag_value prefix [] = none
tag_value prefix (t ∷ tags) = elim (strip_prefix prefix t) [
  | some value ↦ some value
  | none ↦ tag_value prefix tags
]

abbrev first_value : List Text → List Text → Text
first_value [] tags = []
first_value (prefix ∷ prefixes) tags = elim (tag_value prefix tags) [
  | some value ↦ value
  | none ↦ first_value prefixes tags
]

unfoldable pub fault_domain_from_tags : List Text → Text
unfolding tag_value
fault_domain_from_tags tags = first_value (lit "region:" ∷ lit "zone:" ∷ lit "asn:" ∷ []) tags
