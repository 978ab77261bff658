-- ===== src/Prelude/Text/Number.antt =====
-- The range of parsed integers.
use Prim.Native.Nat.{ℕ, ◌+◌, ◌*◌, ◌-◌, ◌≤◌}
use mathlib.Core.Path.{◌≡◌}
use mathlib.Core.Option.{some}
use mathlib.Core.List.{[], ◌∷◌}
use native.Mathlib.Omega.{arith}
use ce_pin.Prelude.Text.{Text, parse_digits, parse_uint}

parse_digits-le :
    (bound acc n : ℕ) (s : Text) → acc ≤ bound → parse_digits bound acc s ≡ some n → n ≤ bound
unfolding parse_digits
parse_digits-le bound acc n [] h e = ground arith
parse_digits-le bound acc n (c ∷ s) h e =
    ground (arith, parse_digits-le bound (acc * 10 + (c - b'0')) n s)

pub parse_uint-le : (bound n : ℕ) (s : Text) → parse_uint bound s ≡ some n → n ≤ bound
unfolding parse_uint
parse_uint-le bound n [] e = cc
parse_uint-le bound n (c ∷ []) e = parse_digits-le bound 0 n (c ∷ []) (omega arith) e
parse_uint-le bound n (c ∷ d ∷ s) e =
    ground (arith, parse_digits-le bound 0 n (d ∷ s), parse_digits-le bound 0 n (c ∷ d ∷ s))
