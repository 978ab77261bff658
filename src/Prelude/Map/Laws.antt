-- ===== src/Prelude/Map/Laws.antt =====
-- The laws of the ordered map: what a lookup finds after each operation, and that the keys stay
-- in order.
use Prim.Native.Nat.{Ordering}
use mathlib.Core.Path.{◌≡◌, refl}
use mathlib.Core.Option.{Option, none, some}
use mathlib.Core.Option
use mathlib.Core.List.{List, [], ◌∷◌}
use native.Mathlib.Omega.{arith}
use ce_pin.Prelude.Tests.{if◌then◌else◌}
use ce_pin.Prelude.Lists.{All-imp}
use ce_pin.Prelude.Text.{Text, text_cmp, text_eq, contains}
use ce_pin.Prelude.Text.Laws.{text_cmp-eq, text_cmp_refl, text_cmp-IsOrder}
use ce_pin.Prelude.Map.{
  Map, lookup, has_key, insert, remove, remove_all, modify, keys, Above, IsMap,
}

module _ {ℓ} {V : Type ℓ} where
  pub lookup-insert :
      (k j : Text) (v : V) (m : Map V)
      → lookup j (insert k v m) ≡ (if text_eq j k then some v else lookup j m)
  unfolding lookup insert
  lookup-insert k j v [] = refl
  lookup-insert k j v ((i, w) ∷ m) = ground (
    arith,
    text_cmp-eq j k,
    text_cmp-eq j i,
    text_cmp-eq k i,
    text_cmp_refl j,
    text_cmp_refl k,
    lookup-insert k j v m,
  )

  pub lookup-remove :
      (k j : Text) (m : Map V) → lookup j (remove k m) ≡ (if text_eq j k then none else lookup j m)
  unfolding lookup remove
  lookup-remove k j [] = ground arith
  lookup-remove k j ((i, w) ∷ m) = ground (
    arith,
    text_cmp-eq j k,
    text_cmp-eq j i,
    text_cmp-eq k i,
    text_cmp_refl j,
    text_cmp_refl k,
    lookup-remove k j m,
  )

  pub lookup-modify :
      (k j : Text) (f : V → V) (m : Map V)
      → lookup j (modify k f m) ≡ (if text_eq j k then Option.map f (lookup j m) else lookup j m)
  unfolding lookup modify
  lookup-modify k j f [] = ground arith
  lookup-modify k j f ((i, w) ∷ m) = ground (
    arith,
    text_cmp-eq j k,
    text_cmp-eq j i,
    text_cmp-eq k i,
    text_cmp_refl j,
    text_cmp_refl k,
    lookup-modify k j f m,
  )

  pub lookup-remove_all :
      (ks : List Text) (j : Text) (m : Map V)
      → lookup j (remove_all ks m) ≡ (if contains ks j then none else lookup j m)
  unfolding remove_all contains
  lookup-remove_all [] j m = refl
  lookup-remove_all (k ∷ ks) j m =
      ground (arith, lookup-remove_all ks j (remove k m), lookup-remove k j m)

  pub Above-insert :
      (i k : Text) (v : V) (m : Map V)
      → text_cmp i k ≡ Ordering.lt
      → Above i m
      → Above i (insert k v m)
  unfolding insert
  Above-insert i k v [] h a = (h, tt)
  Above-insert i k v ((j, w) ∷ m) h a = ground (arith, Above-insert i k v m h a.1)

  pub Above-remove : (i k : Text) (m : Map V) → Above i m → Above i (remove k m)
  unfolding remove
  Above-remove i k [] a = tt
  Above-remove i k ((j, w) ∷ m) a = ground (arith, Above-remove i k m a.1)

  Above-modify : (i k : Text) (f : V → V) (m : Map V) → Above i m → Above i (modify k f m)
  unfolding modify
  Above-modify i k f [] a = tt
  Above-modify i k f ((j, w) ∷ m) a = ground (arith, Above-modify i k f m a.1)

  pub Above-trans : (i k : Text) (m : Map V) → text_cmp i k ≡ Ordering.lt → Above k m → Above i m
  Above-trans i k m h =
      All-imp (λ e. text_cmp k e.0 ≡ Ordering.lt) (λ e. text_cmp i e.0 ≡ Ordering.lt)
        (λ e. text_cmp-IsOrder.trans i k e.0 h) m

  pub insert-IsMap : (k : Text) (v : V) (m : Map V) → IsMap m → IsMap (insert k v m)
  unfolding insert
  insert-IsMap k v [] h = (tt, tt)
  insert-IsMap k v ((j, w) ∷ m) h = ground (
    arith,
    text_cmp-IsOrder.flip k j,
    text_cmp-eq k j,
    Above-trans k j m,
    Above-insert j k v m,
    insert-IsMap k v m h.1,
  )

  pub remove-IsMap : (k : Text) (m : Map V) → IsMap m → IsMap (remove k m)
  unfolding remove
  remove-IsMap k [] h = tt
  remove-IsMap k ((j, w) ∷ m) h = ground (arith, Above-remove j k m h.0, remove-IsMap k m h.1)

  pub remove_all-IsMap : (ks : List Text) (m : Map V) → IsMap m → IsMap (remove_all ks m)
  unfolding remove_all
  remove_all-IsMap [] m h = h
  remove_all-IsMap (k ∷ ks) m h = remove_all-IsMap ks (remove k m) (remove-IsMap k m h)

  pub modify-IsMap : (k : Text) (f : V → V) (m : Map V) → IsMap m → IsMap (modify k f m)
  unfolding modify
  modify-IsMap k f [] h = tt
  modify-IsMap k f ((j, w) ∷ m) h = ground (arith, Above-modify j k f m h.0, modify-IsMap k f m h.1)

  -- A key below all others is absent.
  pub lookup-Above : (k : Text) (m : Map V) → Above k m → lookup k m ≡ none
  unfolding lookup
  lookup-Above k [] a = refl
  lookup-Above k ((j, w) ∷ m) a = ground (arith, lookup-Above k m a.1)

  pub has_key-contains : (k : Text) (m : Map V) → has_key k m ≡ contains (keys m) k
  unfolding has_key lookup keys contains
  has_key-contains k [] = refl
  has_key-contains k ((j, w) ∷ m) = ground (arith, has_key-contains k m)

pub ruleset map_laws = (lookup-insert, lookup-remove, lookup-modify, lookup-remove_all)
