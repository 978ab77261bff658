-- ===== src/Caps/Precedence.antt =====
-- `resolve` of src/caps.rs: which of the sources it takes.
use ce_pin.Prelude.{◌≡◌, ◌≢◌, refl, Option, none, some, [], ◌∷◌, ◌⊎◌, inl, inr}
use ce_pin.Prelude.Text.{Text, lit, trim}
use ce_pin.Config.{EnvVars}
use ce_pin.Paths.{caps_file}
use ce_pin.Caps.{chain_of, read_at, resolve}

-- A source that has nothing but white space, or is not there.
abbrev pub IsBlank : Option Text → Type 0
IsBlank none = Unit
IsBlank (some c) = trim c ≡ []

-- A source that has something else: what is left of it is `t`.
abbrev pub Says : Option Text → Text → Type 0
Says source t = (c : Text) × (source ≡ some c) × (trim c ≡ t) × (t ≢ [])

chain_of-cases :
    (source : Option Text)
    → (IsBlank source × (chain_of source ≡ none))
      ⊎ ((t : Text) × Says source t × (chain_of source ≡ some t))
chain_of-cases none = inl (tt, refl)
chain_of-cases (some c) = trimmed (trim c) refl
  where
    trimmed :
        (t : Text)
        → trim c ≡ t
        → (IsBlank (some c) × (chain_of (some c) ≡ none))
          ⊎ ((t : Text) × Says (some c) t × (chain_of (some c) ≡ some t))
    trimmed [] e = inl (e, rw e refl)
    trimmed (x ∷ t) e = inr (x ∷ t, (c, refl, e, (cc)), rw e refl)

-- The chain is that of the flag; if the flag is blank or missing, that of the environment; if that is
-- blank or missing too, that of the file; and if all are, it is empty. It is trimmed of white space.
pub resolve-first :
    (explicit : Option Text) (env : EnvVars) (config_dir : Option Text) (read : Text → Option Text)
    → let t = resolve explicit env config_dir read in
      let variable = env (lit "CE_PIN_CAPS") in
      let file = read_at read (caps_file env config_dir) in
      Says explicit t
      ⊎ (IsBlank explicit × Says variable t)
      ⊎ (IsBlank explicit × IsBlank variable × Says file t)
      ⊎ (IsBlank explicit × IsBlank variable × IsBlank file × (t ≡ []))
unfolding resolve
resolve-first explicit env config_dir read = elim (chain_of-cases explicit) [
  | inr (t, says, e) ↦ rw e (inl says)
  | inl (blank1, e1) ↦ elim (chain_of-cases (env (lit "CE_PIN_CAPS"))) [
    | inr (t, says, e2) ↦ rw (e1, e2) (inr (inl (blank1, says)))
    | inl (blank2, e2) ↦ elim (chain_of-cases (read_at read (caps_file env config_dir))) [
      | inr (t, says, e3) ↦ rw (e1, e2, e3) (inr (inr (inl (blank1, blank2, says))))
      | inl (blank3, e3) ↦ rw (e1, e2, e3) (inr (inr (inr (blank1, blank2, blank3, refl))))
    ]
  ]
]
