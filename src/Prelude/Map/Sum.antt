-- ===== src/Prelude/Map/Sum.antt =====
-- A weight summed over the entries of a map, and what each operation does to the sum.
use Prim.Native.Nat.{ℕ, ◌+◌, ◌≤◌}
use mathlib.Core.Path.{◌≡◌, refl, ap}
use mathlib.Core.Option.{Option, none, some}
use mathlib.Core.List.{List, [], ◌∷◌}
use native.Mathlib.Omega.{arith}
use ce_pin.Prelude.Text.{Text}
use ce_pin.Prelude.Text.Laws.{text_cmp-eq}
use ce_pin.Prelude.Map.{Map, lookup, insert, remove, remove_all, modify, Above, IsMap}
use ce_pin.Prelude.Map.Laws.{lookup-Above, Above-trans}

module _ {ℓ} {V : Type ℓ} (weight : V → ℕ) where
  unfoldable pub sum : Map V → ℕ
  sum [] = 0
  sum ((k, v) ∷ m) = weight v + sum m

  -- The weight under a key, 0 if it is absent.
  abbrev pub weight_of : Option V → ℕ
  weight_of none = 0
  weight_of (some v) = weight v

  remove-Above : (k : Text) (m : Map V) → Above k m → remove k m ≡ m
  unfolding remove
  remove-Above k [] a = refl
  remove-Above k ((j, w) ∷ m) a = ground (arith, remove-Above k m a.1)

  pub sum-remove :
      (k : Text) (m : Map V) → IsMap m → sum (remove k m) + weight_of (lookup k m) ≡ sum m
  unfolding sum remove lookup
  sum-remove k [] h = refl
  sum-remove k ((j, w) ∷ m) h =
      ground (
        arith,
        text_cmp-eq k j,
        ap (λ (t : Map V). sum t) (remove-Above j m h.0),
        sum-remove k m h.1,
      )

  pub sum-insert :
      (k : Text) (v : V) (m : Map V)
      → IsMap m
      → sum (insert k v m) + weight_of (lookup k m) ≡ sum m + weight v
  unfolding sum insert lookup
  sum-insert k v [] h = omega arith
  sum-insert k v ((j, w) ∷ m) h =
      ground (arith, lookup-Above k m, Above-trans k j m, sum-insert k v m h.1)

  pub sum-modify :
      (k : Text) (f : V → V) (m : Map V)
      → ((v : V) → weight (f v) ≡ weight v)
      → sum (modify k f m) ≡ sum m
  unfolding sum modify
  sum-modify k f [] keep = refl
  sum-modify k f ((j, w) ∷ m) keep = ground (arith, keep w, sum-modify k f m keep)

  pub sum-remove-le : (k : Text) (m : Map V) → sum (remove k m) ≤ sum m
  unfolding sum remove
  sum-remove-le k [] = omega arith
  sum-remove-le k ((j, w) ∷ m) = ground (arith, sum-remove-le k m)

  pub sum-remove_all-le : (ks : List Text) (m : Map V) → sum (remove_all ks m) ≤ sum m
  unfolding remove_all
  sum-remove_all-le [] m = omega arith
  sum-remove_all-le (k ∷ ks) m = omega (arith, sum-remove_all-le ks (remove k m), sum-remove-le k m)
