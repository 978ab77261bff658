-- ===== src/Prelude/Text/Laws.antt =====
-- Comparison of texts as an order, its equality, membership and prefixes.
use Prim.Native.Nat.{Ordering}
use mathlib.Core.Path.{◌≡◌, refl, ap}
use mathlib.Core.Bool.{true, Bool, ◌&&◌}
use ce_pin.Prelude.Lists.{filter}
use mathlib.Core.Option.{some}
use mathlib.Core.Logic.{◌↔◌}
use mathlib.Core.List.{List, [], ◌∷◌, ◌++◌}
use native.Mathlib.Omega.{arith}
use ce_pin.Prelude.Order.{IsOrder, flipped}
use ce_pin.Prelude.Text.{Text, text_cmp, text_eq, contains, strip_prefix}

pub text_cmp_refl : (a : Text) → text_cmp a a ≡ Ordering.eq
unfolding text_cmp
text_cmp_refl [] = refl
text_cmp_refl (a ∷ s) = ground (arith, text_cmp_refl s)

pub text_cmp-eq : (a b : Text) → text_cmp a b ≡ Ordering.eq → a ≡ b
unfolding text_cmp
text_cmp-eq [] [] h = refl
text_cmp-eq [] (b ∷ t) h = cc
text_cmp-eq (a ∷ s) [] h = cc
text_cmp-eq (a ∷ s) (b ∷ t) h = ground (arith, text_cmp-eq s t)

text_cmp-flip : (a b : Text) → text_cmp b a ≡ flipped (text_cmp a b)
unfolding text_cmp
text_cmp-flip [] [] = refl
text_cmp-flip [] (b ∷ t) = refl
text_cmp-flip (a ∷ s) [] = refl
text_cmp-flip (a ∷ s) (b ∷ t) = ground (arith, text_cmp-flip s t)

text_cmp_trans :
    (a b c : Text)
    → text_cmp a b ≡ Ordering.lt
    → text_cmp b c ≡ Ordering.lt
    → text_cmp a c ≡ Ordering.lt
unfolding text_cmp
text_cmp_trans [] [] c h k = cc
text_cmp_trans [] (b ∷ t) [] h k = cc
text_cmp_trans [] (b ∷ t) (c ∷ u) h k = refl
text_cmp_trans (a ∷ s) [] c h k = cc
text_cmp_trans (a ∷ s) (b ∷ t) [] h k = cc
text_cmp_trans (a ∷ s) (b ∷ t) (c ∷ u) h k = ground (arith, text_cmp_trans s t u)

pub text_cmp-IsOrder : IsOrder text_cmp
text_cmp-IsOrder = record {
  flip = text_cmp-flip;
  trans = text_cmp_trans;
  congr = λ a b c h. ap (λ t. text_cmp t c) (text_cmp-eq a b h);
}

pub text_eq_iff : (a b : Text) → (text_eq a b ≡ true) ↔ (a ≡ b)
text_eq_iff a b = (λ h. text_cmp-eq a b (ground arith), λ e. rw e (ground (arith, text_cmp_refl b)))

pub text_eq_refl : (a : Text) → text_eq a a ≡ true
text_eq_refl a = ground (arith, text_cmp_refl a)

pub contains-append :
    (a : Text) (xs ys : List Text) → contains xs a ≡ true → contains (xs ++ ys) a ≡ true
unfolding contains
contains-append a [] ys h = cc
contains-append a (x ∷ xs) ys h = ground (arith, contains-append a xs ys)

pub contains-append_right :
    (a : Text) (xs ys : List Text) → contains ys a ≡ true → contains (xs ++ ys) a ≡ true
unfolding contains
contains-append_right a [] ys h = h
contains-append_right a (x ∷ xs) ys h = ground (arith, contains-append_right a xs ys h)

pub strip_prefix-eq-some : (p s t : Text) → strip_prefix p s ≡ some t → s ≡ p ++ t
unfolding strip_prefix
strip_prefix-eq-some [] s t h = ground arith
strip_prefix-eq-some (p ∷ ps) [] t h = cc
strip_prefix-eq-some (p ∷ ps) (c ∷ s) t h = ground (arith, strip_prefix-eq-some ps s t)

pub strip_prefix-append : (p t : Text) → strip_prefix p (p ++ t) ≡ some t
unfolding strip_prefix
strip_prefix-append [] t = refl
strip_prefix-append (p ∷ ps) t = ground (arith, strip_prefix-append ps t)

-- What is in a filtered list: what was in the list and passes.
pub contains-filter :
    (p : Text → Bool) (xs : List Text) (x : Text)
    → contains (filter p xs) x ≡ (contains xs x && p x)
unfolding contains
contains-filter p [] x = refl
contains-filter p (y ∷ xs) x =
    ground (arith, contains-filter p xs x, text_cmp-eq x y, text_cmp_refl x)
