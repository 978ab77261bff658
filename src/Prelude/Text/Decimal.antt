-- ===== src/Prelude/Text/Decimal.antt =====
-- `Display` of Rust's integers of up to 128 bits, and its reading back by `parse`.
use mathlib.Core.Option.{none, some}
use Prim.Native.Nat.{ℕ, zero, suc, ◌+◌, ◌/◌, ◌%◌, ◌^◌, ◌≤◌, ◌<◌}
use mathlib.Core.Path.{refl, ◌∙◌, ◌≡◌}
use mathlib.Core.Logic.{◌≢◌}
use mathlib.Core.List.{[], ◌∷◌, cons-ne-nil}
use native.Mathlib.Omega.{arith}
use ce_pin.Prelude.Tests.{ltb, if◌then◌else◌}
use ce_pin.Prelude.Lists.{All, All-imp}
use ce_pin.Prelude.Text.Trim.{IsVisible, trim-visible}
use ce_pin.Prelude.Text.{trim, parse_uint, Text, parse_digits}

-- The digits of a number before `acc`, at most as many as `fuel`.
show_digits : ℕ → ℕ → Text → Text
show_digits zero n acc = acc
show_digits (suc fuel) n acc =
    let digits = (b'0' + n % 10) ∷ acc in
    let rest = show_digits fuel (n / 10) digits in if ltb n 10 then digits else rest

-- A u128 has at most 39 digits.
unfoldable pub show_nat : ℕ → Text
unfolding show_digits
show_nat n = show_digits 39 n []

abbrev pub IsDigit : ℕ → Type 0
IsDigit c = (b'0' ≤ c) × (c ≤ b'9')

show_digits-IsDigit :
    (fuel n : ℕ) (acc : Text) → All IsDigit acc → All IsDigit (show_digits fuel n acc)
unfolding show_digits
show_digits-IsDigit zero n acc h = h
show_digits-IsDigit (suc fuel) n acc h =
    let last : IsDigit (b'0' + n % 10) = (omega arith, omega arith) in
    let rest = show_digits-IsDigit fuel (n / 10) ((b'0' + n % 10) ∷ acc) (last, h) in
    ground (arith, rest, last)

show_digits-ne-nil : (fuel n : ℕ) (acc : Text) → acc ≢ [] → show_digits fuel n acc ≢ []
unfolding show_digits
show_digits-ne-nil zero n acc h = h
show_digits-ne-nil (suc fuel) n acc h =
    let rest = show_digits-ne-nil fuel (n / 10) ((b'0' + n % 10) ∷ acc) (cons-ne-nil _ acc) in
    ground (arith, rest, cons-ne-nil (b'0' + n % 10) acc)

-- With fuel for its digits a number is read in full.
parse_digits-show_digits :
    (bound fuel n : ℕ) (acc : Text)
    → n < 10 ^ fuel
    → 0 < fuel
    → n ≤ bound
    → parse_digits bound 0 (show_digits fuel n acc) ≡ parse_digits bound n acc
unfolding parse_digits show_digits
parse_digits-show_digits bound zero n acc h p b = absurd (omega arith)
parse_digits-show_digits bound (suc zero) n acc h p b = ground arith
parse_digits-show_digits bound (suc (suc fuel)) n acc h p b =
    let rest =
      parse_digits-show_digits bound (suc fuel) (n / 10) ((b'0' + n % 10) ∷ acc) (omega arith)
        (omega arith) (omega arith) in
    ground (arith, rest)

pub show_nat-ne-nil : (n : ℕ) → show_nat n ≢ []
unfolding show_nat
show_nat-ne-nil n =
    let rest = show_digits-ne-nil 38 (n / 10) ((b'0' + n % 10) ∷ []) (cons-ne-nil _ []) in
    ground (arith, rest, cons-ne-nil (b'0' + n % 10) [])

show_nat-IsDigit : (n : ℕ) → All IsDigit (show_nat n)
unfolding show_nat
show_nat-IsDigit n = show_digits-IsDigit 39 n [] tt

parse_uint-digits :
    (bound : ℕ) (s : Text) → s ≢ [] → All IsDigit s → parse_uint bound s ≡ parse_digits bound 0 s
unfolding parse_uint
parse_uint-digits bound [] h d = absurd (h refl)
parse_uint-digits bound (c ∷ []) h d = refl
parse_uint-digits bound (c ∷ e ∷ s) h d = ground arith

-- What `Display` prints of a u128 is read back by `parse`, at every type that the number fits.
pub parse_uint-show_nat :
    (bound n : ℕ) → n ≤ bound → n < 10 ^ 39 → parse_uint bound (show_nat n) ≡ some n
unfolding show_nat parse_digits
parse_uint-show_nat bound n b h =
    parse_uint-digits bound (show_nat n) (show_nat-ne-nil n) (show_nat-IsDigit n)
    ∙ parse_digits-show_digits bound 39 n [] h (omega arith) b

show_nat-IsVisible : (n : ℕ) → All IsVisible (show_nat n)
show_nat-IsVisible n =
    All-imp IsDigit IsVisible (λ c d. (omega arith, omega arith)) (show_nat n) (show_nat-IsDigit n)

-- A number with a sign before it is no unsigned number.
pub parse_uint-minus : (bound : ℕ) (s : Text) → parse_uint bound (b'-' ∷ s) ≡ none
unfolding parse_uint parse_digits
parse_uint-minus bound [] = refl
parse_uint-minus bound (c ∷ s) = refl

pub trim-minus : (n : ℕ) → trim (b'-' ∷ show_nat n) ≡ b'-' ∷ show_nat n
trim-minus n = trim-visible (b'-' ∷ show_nat n) ((omega arith, omega arith), show_nat-IsVisible n)

-- Printed numbers have no white space to trim.
pub trim-show_nat : (n : ℕ) → trim (show_nat n) ≡ show_nat n
trim-show_nat n = trim-visible (show_nat n) (show_nat-IsVisible n)
