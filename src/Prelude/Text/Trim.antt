-- ===== src/Prelude/Text/Trim.antt =====
-- What `trim` leaves of a text without white space, alone or before a space.
use Prim.Native.Nat.{ℕ, ◌≤◌}
use mathlib.Core.Path.{◌≡◌, refl, ◌∙◌, ap}
use mathlib.Core.Logic.{◌≢◌}
use mathlib.Core.List.{[], ◌∷◌, ◌++◌, reverse, reverse_aux, reverse-append, reverse-reverse}
use native.Mathlib.Omega.{arith}
use ce_pin.Prelude.Lists.{All}
use ce_pin.Prelude.Text.{Text, trim, trim_start}

-- The characters of ASCII that print.
abbrev pub IsVisible : ℕ → Type 0
IsVisible c = (33 ≤ c) × (c ≤ 126)

trim_start-visible : (s : Text) → All IsVisible s → trim_start s ≡ s
unfolding trim_start
trim_start-visible [] d = refl
trim_start-visible (c ∷ s) d = ground arith

All-reverse_aux :
    (s acc : Text) → All IsVisible s → All IsVisible acc → All IsVisible (reverse_aux s acc)
All-reverse_aux [] acc h k = k
All-reverse_aux (c ∷ s) acc h k = All-reverse_aux s (c ∷ acc) h.1 (h.0, k)

All-reverse : (s : Text) → All IsVisible s → All IsVisible (reverse s)
All-reverse s h = All-reverse_aux s [] h tt

pub trim-visible : (s : Text) → All IsVisible s → trim s ≡ s
unfolding trim
trim-visible s d =
    ap (λ t. reverse (trim_start (reverse t))) (trim_start-visible s d)
    ∙ ap reverse (trim_start-visible (reverse s) (All-reverse s d))
    ∙ reverse-reverse s

trim_start-visible_space :
    (s : Text) → All IsVisible s → s ≢ [] → trim_start (s ++ b' ' ∷ []) ≡ s ++ b' ' ∷ []
unfolding trim_start
trim_start-visible_space [] d h = absurd (h refl)
trim_start-visible_space (c ∷ s) d h = ground arith

pub trim-visible_space : (s : Text) → All IsVisible s → s ≢ [] → trim (s ++ b' ' ∷ []) ≡ s
unfolding trim trim_start
trim-visible_space s d h =
    ap (λ t. reverse (trim_start (reverse t))) (trim_start-visible_space s d h)
    ∙ ap (λ t. reverse (trim_start t)) (reverse-append s (b' ' ∷ []))
    ∙ ap reverse (trim_start-visible (reverse s) (All-reverse s d))
    ∙ reverse-reverse s
