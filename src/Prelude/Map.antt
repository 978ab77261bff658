-- ===== src/Prelude/Map.antt =====
-- `BTreeMap<String, V>` as its entries in ascending order of their keys.
pub mod Laws
pub mod Sum
pub mod Removal
pub mod Entries
use Prim.Native.Nat.{Ordering}
use mathlib.Core.Path.{◌≡◌}
use mathlib.Core.Bool.{Bool, not}
use mathlib.Core.Option.{Option, none, some}
use mathlib.Core.List.{List, [], ◌∷◌}
use ce_pin.Prelude.Tests.{is_some, if◌then◌else◌}
use ce_pin.Prelude.Lists.{All}
use ce_pin.Prelude.Text.{Text, text_cmp, text_eq}

abbrev pub Map {ℓ} : Type ℓ → Type ℓ
Map V = List (Text × V)

module _ {ℓ} {V : Type ℓ} where
  -- `get`
  unfoldable pub lookup : Text → Map V → Option V
  lookup k [] = none
  lookup k ((j, v) ∷ m) = if text_eq k j then some v else lookup k m

  -- `contains_key`
  unfoldable pub has_key : Text → Map V → Bool
  unfolding lookup
  has_key k m = is_some (lookup k m)

  -- `insert`: replaces the value of a key that is there.
  unfoldable pub insert : Text → V → Map V → Map V
  insert k v [] = (k, v) ∷ []
  insert k v ((j, w) ∷ m) = elim (text_cmp k j) [
    | Ordering.lt ↦ (k, v) ∷ (j, w) ∷ m
    | Ordering.eq ↦ (k, v) ∷ m
    | Ordering.gt ↦ (j, w) ∷ insert k v m
  ]

  -- `remove`
  unfoldable pub remove : Text → Map V → Map V
  remove k [] = []
  remove k ((j, v) ∷ m) = let rest = remove k m in if text_eq k j then rest else (j, v) ∷ rest

  -- A loop that removes each key of a list.
  unfoldable pub remove_all : List Text → Map V → Map V
  remove_all [] m = m
  remove_all (k ∷ ks) m = remove_all ks (remove k m)

  -- `get_mut`, as the new map.
  unfoldable pub modify : Text → (V → V) → Map V → Map V
  modify k f [] = []
  modify k f ((j, v) ∷ m) = if text_eq k j then (j, f v) ∷ m else (j, v) ∷ modify k f m

  unfoldable pub keys : Map V → List Text
  keys [] = []
  keys ((k, v) ∷ m) = k ∷ keys m

  -- What holds of every tree map: the keys ascend strictly.
  abbrev pub Above : Text → Map V → Type 0
  Above k = All (λ e. text_cmp k e.0 ≡ Ordering.lt)

  abbrev pub IsMap : Map V → Type 0
  IsMap [] = Unit
  IsMap ((k, v) ∷ m) = Above k m × IsMap m
