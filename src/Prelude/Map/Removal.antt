-- ===== src/Prelude/Map/Removal.antt =====
-- Removing a list of distinct keys: the weight that goes, and entry lists in another order.
use Prim.Native.Nat.{ℕ, ◌+◌, Ordering}
use mathlib.Core.Path.{◌≡◌, refl, sym, ap, ◌∙◌}
use mathlib.Core.Bool.{false}
use mathlib.Core.Option.{some}
use mathlib.Core.List.{List, [], ◌∷◌}
use native.Mathlib.Omega.{arith}
use ce_pin.Prelude.Tests.{is_some, if◌then◌else◌}
use ce_pin.Prelude.Lists.{All, All-imp}
use ce_pin.Prelude.Order.{Cmp}
use ce_pin.Prelude.Order.Sort.{sort_by, insert_by, Pairs, All-sort_by, sort_by-Pairs}
use ce_pin.Prelude.Text.{Text, text_cmp, text_eq, contains}
use ce_pin.Prelude.Text.Laws.{text_cmp-eq, text_cmp_refl, text_cmp-IsOrder}
use ce_pin.Prelude.Map.{Map, lookup, has_key, keys, remove, remove_all, Above, IsMap}
use ce_pin.Prelude.Map.Laws.{lookup-remove, remove-IsMap, lookup-Above, has_key-contains}
use ce_pin.Prelude.Map.Sum.{sum, weight_of, sum-remove}

-- No text occurs twice.
abbrev pub IsNodup : List Text → Type 0
IsNodup [] = Unit
IsNodup (k ∷ ks) = (contains ks k ≡ false) × IsNodup ks

module _ {ℓ} {V : Type ℓ} where
  keys-Above : (k : Text) (m : Map V) → Above k m → contains (keys m) k ≡ false
  unfolding has_key
  keys-Above k m a = sym (has_key-contains k m) ∙ ap is_some (lookup-Above k m a)

  pub keys-IsNodup : (m : Map V) → IsMap m → IsNodup (keys m)
  unfolding keys
  keys-IsNodup [] h = tt
  keys-IsNodup ((k, v) ∷ m) h = (keys-Above k m h.0, keys-IsNodup m h.1)

  -- Two entries have different keys.
  abbrev pub Differ : Text × V → Text × V → Type 0
  Differ a b = text_eq a.0 b.0 ≡ false

  Differ-sym : (a b : Text × V) → Differ a b → Differ b a
  Differ-sym a b h = ground (arith, text_cmp-IsOrder.flip a.0 b.0)

  Differ-Above : (k : Text) (v : V) (m : Map V) → Above k m → All (Differ (k, v)) m
  Differ-Above k v =
      All-imp (λ e. text_cmp k e.0 ≡ Ordering.lt) (Differ (k, v)) (λ e h. ground arith)

  IsMap-Pairs : (m : Map V) → IsMap m → Pairs Differ m
  IsMap-Pairs [] h = tt
  IsMap-Pairs ((k, v) ∷ m) h = (Differ-Above k v m h.0, IsMap-Pairs m h.1)

module _ {ℓ} {V : Type ℓ} (weight : V → ℕ) where
  -- The weight under each key of a list.
  unfoldable pub weights : List Text → Map V → ℕ
  weights [] m = 0
  weights (k ∷ ks) m = weight_of weight (lookup k m) + weights ks m

  weights-remove :
      (k : Text) (ks : List Text) (m : Map V)
      → contains ks k ≡ false
      → weights ks (remove k m) ≡ weights ks m
  unfolding weights contains
  weights-remove k [] m h = refl
  weights-remove k (j ∷ ks) m h =
      ground (arith, lookup-remove k j m, text_cmp-IsOrder.flip k j, weights-remove k ks m)

  -- Removing distinct keys takes away exactly the weight under them.
  pub sum-remove_all :
      (ks : List Text) (m : Map V)
      → IsMap m
      → IsNodup ks
      → sum weight (remove_all ks m) + weights ks m ≡ sum weight m
  unfolding remove_all weights
  sum-remove_all [] m h d = omega arith
  sum-remove_all (k ∷ ks) m h d = omega (
    arith,
    sum-remove weight k m h,
    weights-remove k ks m d.0,
    sum-remove_all ks (remove k m) (remove-IsMap k m h) d.1,
  )

-- The same entries in the order of a sort.
module _ {ℓ} {V : Type ℓ} (cmp : Cmp (Text × V)) where
  lookup-insert_by :
      (k : Text) (e : Text × V) (m : Map V)
      → All (Differ e) m
      → lookup k (insert_by cmp e m) ≡ (if text_eq k e.0 then some e.1 else lookup k m)
  unfolding lookup insert_by
  lookup-insert_by k e [] h = refl
  lookup-insert_by k e (x ∷ m) h =
      ground
        (arith, text_cmp-eq k e.0, text_cmp-eq k x.0, text_cmp_refl k, lookup-insert_by k e m h.1)

  lookup-sort_by-Pairs :
      (k : Text) (m : Map V) → Pairs Differ m → lookup k (sort_by cmp m) ≡ lookup k m
  unfolding lookup sort_by
  lookup-sort_by-Pairs k [] h = refl
  lookup-sort_by-Pairs k (x ∷ m) h =
      lookup-insert_by k x (sort_by cmp m) (All-sort_by cmp (Differ x) m h.0)
      ∙ ap (λ r. if text_eq k x.0 then some x.1 else r) (lookup-sort_by-Pairs k m h.1)

  pub lookup-sort_by : (k : Text) (m : Map V) → IsMap m → lookup k (sort_by cmp m) ≡ lookup k m
  lookup-sort_by k m h = lookup-sort_by-Pairs k m (IsMap-Pairs m h)

  pub sort_by-Differ : (m : Map V) → IsMap m → Pairs Differ (sort_by cmp m)
  sort_by-Differ m h = sort_by-Pairs cmp Differ Differ-sym m (IsMap-Pairs m h)

  module _ (weight : V → ℕ) where
    sum-insert_by :
        (e : Text × V) (m : Map V) → sum weight (insert_by cmp e m) ≡ weight e.1 + sum weight m
    unfolding sum insert_by
    sum-insert_by e [] = refl
    sum-insert_by e (x ∷ m) = ground (arith, sum-insert_by e m)

    pub sum-sort_by : (m : Map V) → sum weight (sort_by cmp m) ≡ sum weight m
    unfolding sum sort_by
    sum-sort_by [] = refl
    sum-sort_by (x ∷ m) = omega (arith, sum-insert_by x (sort_by cmp m), sum-sort_by m)
