-- ===== src/Placement/Ranking.antt =====
-- `rank` of src/placement.rs: the order of its result.
use ce_pin.Prelude.{◌≤◌, compare, Ordering, ◌≡◌, ◌≢◌, List, arith}
use mathlib.Core.List.{Perm}
use ce_pin.Prelude.Order.{IsOrder, compare-IsOrder, on-IsOrder, then_by-IsOrder, descending-IsOrder}
use ce_pin.Prelude.Order.Sort.{IsSorted, sort_by-IsSorted, sort_by-perm}
use ce_pin.Prelude.Text.{text_cmp}
use ce_pin.Prelude.Text.Laws.{text_cmp-IsOrder}
use ce_pin.Placement.{Candidate, rank_cmp, rank}

pub rank_cmp-IsOrder : IsOrder rank_cmp
rank_cmp-IsOrder =
    then_by-IsOrder _ _
      (then_by-IsOrder _ _
        (then_by-IsOrder _ _
          (descending-IsOrder _ (on-IsOrder (λ c. c.delivered_work) compare compare-IsOrder))
          (on-IsOrder (λ c. c.last_seen_secs) compare compare-IsOrder))
        (descending-IsOrder _ (on-IsOrder (λ c. c.mem_mb) compare compare-IsOrder)))
      (on-IsOrder (λ c. c.node_id) text_cmp text_cmp-IsOrder)

-- The ranking is in the order of `rank_cmp` and has the same candidates, each as often.
pub rank-IsSorted : (cs : List Candidate) → IsSorted rank_cmp (rank cs) × Perm (rank cs) cs
unfolding rank
rank-IsSorted cs = (sort_by-IsSorted rank_cmp rank_cmp-IsOrder cs, sort_by-perm rank_cmp cs)

-- What it means to rank no later.
pub record RanksFirst (a b : Candidate) : Type 0 where
  pub work : b.delivered_work ≤ a.delivered_work
  pub seen : a.delivered_work ≡ b.delivered_work → a.last_seen_secs ≤ b.last_seen_secs
  pub room :
      a.delivered_work ≡ b.delivered_work
      → a.last_seen_secs ≡ b.last_seen_secs
      → b.mem_mb ≤ a.mem_mb

pub rank_cmp-RanksFirst : (a b : Candidate) → rank_cmp a b ≢ Ordering.gt → RanksFirst a b
rank_cmp-RanksFirst a b h = record {
  work = ground arith;
  seen = λ p. ground arith;
  room = λ p q. ground arith;
}
