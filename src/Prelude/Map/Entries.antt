-- ===== src/Prelude/Map/Entries.antt =====
-- What holds of all entries of a map, kept by each operation; and lists of distinct keys weighed.
use Prim.Native.Nat.{ℕ, ◌+◌, ◌≤◌, Ordering}
use mathlib.Core.Path.{◌≡◌, refl, sym, subst}
use mathlib.Core.Logic.{inl, inr}
use mathlib.Core.Bool.{true, false}
use mathlib.Core.Option.{some}
use mathlib.Core.List.{List, [], ◌∷◌, ◌++◌}
use native.Mathlib.Omega.{arith}
use ce_pin.Prelude.Tests.{if◌then◌else◌, Bool-cases}
use ce_pin.Prelude.Lists.{All}
use ce_pin.Prelude.Text.{Text, text_cmp, text_eq, contains}
use ce_pin.Prelude.Text.Laws.{text_eq_iff, text_eq_refl}
use ce_pin.Prelude.Map.{Map, lookup, insert, remove, remove_all, modify}
use ce_pin.Prelude.Map.Removal.{IsNodup}

module _ {ℓ κ} {V : Type ℓ} (P : Text × V → Type κ) where
  pub All-insert : (k : Text) (v : V) (m : Map V) → P (k, v) → All P m → All P (insert k v m)
  unfolding insert
  All-insert k v [] p h = (p, tt)
  All-insert k v ((j, w) ∷ m) p h =
      let rest = All-insert k v m p h.1 in
      elim (text_cmp k j)
        as (λ o. All P (elim o [
          | Ordering.lt ↦ (k, v) ∷ (j, w) ∷ m
          | Ordering.eq ↦ (k, v) ∷ m
          | Ordering.gt ↦ (j, w) ∷ insert k v m
        ])) [ Ordering.lt ↦ (p, h) | Ordering.eq ↦ (p, h.1) | Ordering.gt ↦ (h.0, rest) ]

  pub All-remove : (k : Text) (m : Map V) → All P m → All P (remove k m)
  unfolding remove
  All-remove k [] h = tt
  All-remove k ((j, w) ∷ m) h =
      let rest = All-remove k m h.1 in
      elim (Bool-cases (text_eq k j)) [ inl same ↦ rw same rest | inr apart ↦ rw apart (h.0, rest) ]

  pub All-remove_all : (ks : List Text) (m : Map V) → All P m → All P (remove_all ks m)
  unfolding remove_all
  All-remove_all [] m h = h
  All-remove_all (k ∷ ks) m h = All-remove_all ks (remove k m) (All-remove k m h)

  pub All-modify :
      (k : Text) (f : V → V) (m : Map V)
      → ((j : Text) (v : V) → P (j, v) → P (j, f v))
      → All P m
      → All P (modify k f m)
  unfolding modify
  All-modify k f [] g h = tt
  All-modify k f ((j, w) ∷ m) g h =
      let rest = All-modify k f m g h.1 in
      elim (Bool-cases (text_eq k j)) [
        | inl same ↦ rw same (g j w h.0, h.1)
        | inr apart ↦ rw apart (h.0, rest)
      ]

  pub All-lookup : (k : Text) (v : V) (m : Map V) → All P m → lookup k m ≡ some v → P (k, v)
  unfolding lookup
  All-lookup k v [] h e = cc
  All-lookup k v ((j, w) ∷ m) h e = elim (Bool-cases (text_eq k j)) [
    | inl same ↦
        let key : j ≡ k = sym ((text_eq_iff k j).0 same) in
        let value : w ≡ v = ground (arith, rw same at e) in
        subst (λ x. P (x, v)) key (subst (λ y. P (j, y)) value h.0)
    | inr apart ↦ All-lookup k v m h.1 (rw apart at e)
  ]

module _ (size : Text → ℕ) where
  unfoldable pub weigh : List Text → ℕ
  weigh [] = 0
  weigh (k ∷ ks) = size k + weigh ks

  pub weigh-append : (ks js : List Text) → weigh (ks ++ js) ≡ weigh ks + weigh js
  unfolding weigh
  weigh-append [] js = omega arith
  weigh-append (k ∷ ks) js = omega (arith, weigh-append ks js)

  -- A list without the first occurrence of a key.
  without : Text → List Text → List Text
  without k [] = []
  without k (j ∷ js) = if text_eq k j then js else j ∷ without k js

  weigh-without :
      (k : Text) (js : List Text) → contains js k ≡ true → weigh js ≡ size k + weigh (without k js)
  unfolding weigh without contains
  weigh-without k [] h = cc
  weigh-without k (j ∷ js) h = elim (Bool-cases (text_eq k j)) [
    | inl same ↦ rw (same, (text_eq_iff k j).0 same) refl
    | inr apart ↦
        let there : contains js k ≡ true = ground (arith, apart, h) in
        rw apart (omega (arith, weigh-without k js there))
  ]

  contains-without :
      (k other : Text) (js : List Text)
      → text_eq other k ≡ false
      → contains js other ≡ true
      → contains (without k js) other ≡ true
  unfolding without contains
  contains-without k other [] n h = h
  contains-without k other (j ∷ js) n h =
      ground
        (arith, text_eq_iff k j, text_eq_iff other j, text_eq_refl k, contains-without k other js n)

  other_key :
      (ks : List Text) (k j : Text)
      → contains ks k ≡ false
      → contains ks j ≡ true
      → text_eq j k ≡ false
  other_key ks k j out inside = elim (Bool-cases (text_eq j k)) [
    | inl same ↦ cc ((text_eq_iff j k).0 same)
    | inr apart ↦ apart
  ]

  -- Distinct keys that all occur in a list weigh no more than the list.
  pub weigh-le :
      (ks js : List Text)
      → IsNodup ks
      → ((k : Text) → contains ks k ≡ true → contains js k ≡ true)
      → weigh ks ≤ weigh js
  unfolding weigh contains
  weigh-le [] js d h = omega arith
  weigh-le (k ∷ ks) js d h =
      let there = h k (ground (arith, text_eq_refl k)) in
      omega (
        arith,
        weigh-without k js there,
        weigh-le ks (without k js) d.1 (λ (j : Text) (inside : contains ks j ≡ true).
            contains-without k j js (other_key ks k j d.0 inside) (h j (ground (arith, inside)))),
      )
