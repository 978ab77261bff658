-- ===== src/Commands/Rent.antt =====
-- The rent that src/main.rs prints into its requests, as src/config.rs reads it.
use ce_pin.Prelude.{ℕ, ◌<◌, ◌^◌, ◌≡◌, refl, arith, u128_max, ℤ, pos, negsuc, suc}
use ce_pin.Prelude.Text.Decimal.{
  show_nat, parse_uint-show_nat, trim-show_nat, trim-minus, parse_uint-minus,
}
use ce_pin.Config.{offered_rent}
use ce_pin.Commands.{show_int}

-- The base units that a host charges by for an amount: none for a debt.
abbrev pub base_units : ℤ → ℕ
base_units (pos n) = n
base_units (negsuc n) = 0

-- The values of an i128.
abbrev pub IsI128 : ℤ → Type 0
IsI128 (pos n) = n < 2 ^ 127
IsI128 (negsuc n) = n < 2 ^ 127

-- The rent that the command writes into its offers is read back by every host as the amount that
-- was parsed, and as no rent where that amount is negative.
pub offered_rent-show_int :
    (amount : ℤ) → IsI128 amount → offered_rent (show_int amount) ≡ base_units amount
unfolding offered_rent show_int
offered_rent-show_int (pos n) h =
    rw (trim-show_nat n, parse_uint-show_nat u128_max n (omega arith) (omega arith)) refl
offered_rent-show_int (negsuc n) h =
    rw (trim-minus (suc n), parse_uint-minus u128_max (show_nat (suc n))) refl
