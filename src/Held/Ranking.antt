-- ===== src/Held/Ranking.antt =====
-- The order of `HeldSet::evict_to_fit` in src/held.rs.
use ce_pin.Prelude.{ℕ, ◌≤◌, compare, Ordering, ◌≡◌, ◌≢◌, false, arith}
use ce_pin.Prelude.Order.{
  IsOrder, bool_cmp, compare-IsOrder, bool_cmp-IsOrder, on-IsOrder, then_by-IsOrder,
  descending-IsOrder,
}
use ce_pin.Prelude.Text.{Text, text_cmp}
use ce_pin.Prelude.Text.Laws.{text_cmp-IsOrder}
use ce_pin.Held.{HeldEntry, evict_cmp, is_expired, rent_base}

pub evict_cmp-IsOrder : (height : ℕ) → IsOrder (evict_cmp height)
evict_cmp-IsOrder height =
    then_by-IsOrder _ _
      (then_by-IsOrder _ _
        (then_by-IsOrder _ _
          (descending-IsOrder _ (on-IsOrder (λ e. is_expired height e.1) bool_cmp bool_cmp-IsOrder))
          (on-IsOrder (λ e. rent_base e.1) compare compare-IsOrder))
        (on-IsOrder (λ e. e.1.last_access) compare compare-IsOrder))
      (on-IsOrder (λ e. e.0) text_cmp text_cmp-IsOrder)

-- What it means that `a` goes no later than `b`: an expired entry before a live one; of two in the
-- same state, the lower rent; at the same rent, the longer unused.
pub record GoesFirst (height : ℕ) (a b : HeldEntry) : Type 0 where
  pub live : is_expired height a ≡ false → is_expired height b ≡ false
  pub cheap : is_expired height a ≡ is_expired height b → rent_base a ≤ rent_base b
  pub stale :
      is_expired height a ≡ is_expired height b
      → rent_base a ≡ rent_base b
      → a.last_access ≤ b.last_access

pub evict_cmp-GoesFirst :
    (height : ℕ) (a b : Text × HeldEntry)
    → evict_cmp height a b ≢ Ordering.gt
    → GoesFirst height a.1 b.1
evict_cmp-GoesFirst height a b h = record {
  live = λ p. ground arith;
  cheap = λ p. ground arith;
  stale = λ p q. ground arith;
}
