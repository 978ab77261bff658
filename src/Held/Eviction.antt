-- ===== src/Held/Eviction.antt =====
-- `HeldSet::evict_to_fit` of src/held.rs: how much the victims free, and which entries they are.
use ce_pin.Prelude.{
  ℕ, ◌+◌, ◌-◌, ◌≤◌, ◌<◌, ◌≡◌, refl, sym, ap, subst, ◌∙◌, true, false, some, List, [], ◌∷◌, ◌++◌,
  arith, inl, inr, u64_max, ◌⊎◌,
}
use mathlib.Core.Bool.{false≢true}
use ce_pin.Prelude.Order.Sort.{sort_by, Pairs, sort_by-IsSorted}
use ce_pin.Prelude.Text.{Text, contains}
use ce_pin.Prelude.Map.{Map, lookup}
use ce_pin.Prelude.Map.Sum.{weight_of}
use ce_pin.Prelude.Map.Removal.{
  IsNodup, Differ, weights, sum-remove_all, lookup-sort_by, sort_by-Differ, sum-sort_by,
}
use ce_pin.Held.{
  HeldEntry, HeldSet, total_bytes, take_victims, evict_to_fit, evict_cmp, remove_each,
}
use ce_pin.Held.Capacity.{
  exact_bytes, IsHeldSet, total_bytes-min, total_bytes-exact, remove_each-entries,
}
use ce_pin.Held.Ranking.{evict_cmp-IsOrder, GoesFirst, evict_cmp-GoesFirst}
use ce_pin.Held.Victims.{
  entry_bytes, take_victims-IsNodup, take_victims-enough, take_victims-needed, take_victims-first,
  no_last, IsNodup-init,
}

module _ (h : HeldSet) (v : IsHeldSet h) where
  ranked-lookup :
      (height : ℕ) (cid : Text)
      → lookup cid (sort_by (evict_cmp height) h.entries) ≡ lookup cid h.entries
  ranked-lookup height cid = lookup-sort_by (evict_cmp height) cid h.entries v

  weights-ranked :
      (height : ℕ) (ks : List Text)
      → weights entry_bytes ks (sort_by (evict_cmp height) h.entries)
        ≡ weights entry_bytes ks h.entries
  unfolding weights
  weights-ranked height [] = refl
  weights-ranked height (k ∷ ks) =
      omega (arith, ap (weight_of entry_bytes) (ranked-lookup height k), weights-ranked height ks)

  exact_bytes-remove_each :
      (ks : List Text)
      → IsNodup ks
      → exact_bytes (remove_each ks h) + weights entry_bytes ks h.entries ≡ exact_bytes h
  exact_bytes-remove_each ks d =
      rw (remove_each-entries ks h) (sum-remove_all entry_bytes ks h.entries v d)

  abbrev ranked : ℕ → Map HeldEntry
  ranked height = sort_by (evict_cmp height) h.entries

  ranked-Pairs : (height : ℕ) → Pairs Differ (ranked height)
  ranked-Pairs height = sort_by-Differ (evict_cmp height) h.entries v

  evict_to_fit-cases :
      (target height : ℕ)
      → ((total_bytes h ≤ target) × (evict_to_fit h target height ≡ []))
        ⊎ ((target < total_bytes h)
            × (evict_to_fit h target height
                ≡ take_victims (total_bytes h - target) (ranked height)))
  unfolding evict_to_fit
  evict_to_fit-cases target height = ground arith

  evict_to_fit-frees :
      (target height : ℕ)
      → exact_bytes h ≤ u64_max
      → IsNodup (evict_to_fit h target height)
        × (exact_bytes h ≤ target + weights entry_bytes (evict_to_fit h target height) h.entries)
  unfolding weights
  evict_to_fit-frees target height fits = elim (evict_to_fit-cases target height) [
    | inl (under, e) ↦ rw e (tt, omega (arith, total_bytes-exact h fits))
    | inr (over, e) ↦ rw e (
      take_victims-IsNodup (total_bytes h - target) (ranked height) (ranked-Pairs height),
      omega (
        arith,
        total_bytes-exact h fits,
        take_victims-enough (total_bytes h - target) (ranked height) (ranked-Pairs height),
        weights-ranked height (take_victims (total_bytes h - target) (ranked height)),
        sum-sort_by (evict_cmp height) entry_bytes h.entries,
      ),
    )
  ]

  -- When the entries' sizes add up to a u64, the entries that are left after the chosen victims
  -- are removed take no more than the target, by their exact sum and by the host's own total.
  pub evict_to_fit-fits :
      (target height : ℕ)
      → exact_bytes h ≤ u64_max
      → (exact_bytes (remove_each (evict_to_fit h target height) h) ≤ target)
        × (total_bytes (remove_each (evict_to_fit h target height) h) ≤ target)
  evict_to_fit-fits target height fits =
      let (nodup, frees) = evict_to_fit-frees target height fits in
      let left = exact_bytes-remove_each (evict_to_fit h target height) nodup in
      (omega arith, omega (arith, total_bytes-min))

  -- When the entries' sizes add up to a u64, eviction stops as soon as it may: without the last
  -- victim the entries still exceed the target.
  pub evict_to_fit-needed :
      (target height : ℕ) (vs : List Text) (last : Text)
      → exact_bytes h ≤ u64_max
      → evict_to_fit h target height ≡ vs ++ last ∷ []
      → target < exact_bytes (remove_each vs h)
  evict_to_fit-needed target height vs last fits e = elim (evict_to_fit-cases target height) [
    | inl (under, e') ↦ absurd (no_last vs last (sym e' ∙ e))
    | inr (over, e') ↦ omega (
      arith,
      total_bytes-exact h fits,
      exact_bytes-remove_each vs
          (IsNodup-init vs last (subst IsNodup e (evict_to_fit-frees target height fits).0)),
      weights-ranked height vs,
      take_victims-needed (total_bytes h - target) (ranked height) vs last (ranked-Pairs height)
          (sym e' ∙ e),
    )
  ]

  -- A victim goes before every survivor: it is expired if the survivor is; in the same state it
  -- pays no higher rent; at the same rent it was used no later.
  pub evict_to_fit-GoesFirst :
      (target height : ℕ) (cid kept : Text) (a b : HeldEntry)
      → contains (evict_to_fit h target height) cid ≡ true
      → contains (evict_to_fit h target height) kept ≡ false
      → lookup cid h.entries ≡ some a
      → lookup kept h.entries ≡ some b
      → GoesFirst height a b
  unfolding contains
  evict_to_fit-GoesFirst target height cid kept a b vk vj ha hb =
      elim (evict_to_fit-cases target height) [
        | inl (under, e) ↦ absurd (false≢true (rw e at vk))
        | inr (over, e) ↦
            evict_cmp-GoesFirst height (cid, a) (kept, b)
              (take_victims-first (evict_cmp height) (total_bytes h - target) (ranked height) cid
                kept a b (sort_by-IsSorted _ (evict_cmp-IsOrder height) h.entries) (rw e at vk)
                (rw e at vj) (ranked-lookup height cid ∙ ha) (ranked-lookup height kept ∙ hb))
      ]
