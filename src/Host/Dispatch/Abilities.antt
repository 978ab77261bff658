-- ===== src/Host/Dispatch/Abilities.antt =====
-- The abilities of src/host.rs: what a chain has to grant for the action that a topic names.
use ce_pin.Prelude.{◌≡◌, refl, true, Option, some, Bool-cases, inl, inr}
use ce_pin.Prelude.Text.{Text}
use ce_pin.Files.{Bytes}
use ce_pin.Host.{Host, HostState}
use ce_pin.Prelude.{ℕ, Bool, any, ◌&&◌, ◌==◌, subst, ap, ◌∙◌, some_inj, if◌then◌else◌}
use ce_pin.Prelude.Text.{lit, text_eq}
use ce_pin.Prelude.Text.Laws.{text_eq_iff}
use ce_pin.Host.Dispatch.{ability_of, is_revoked}
use ce_pin.Host.Dispatch.{Gate, Call, Action, action_of, is_authorized}

-- The name of an action on a topic, and the ability that a chain has to grant for it.
abbrev pub name_of : Action → Text
name_of Action.offer = lit "offer"
name_of Action.audit = lit "audit"
name_of Action.status = lit "status"
name_of Action.renew = lit "renew"
name_of Action.release = lit "release"

abbrev pub needed : Action → Text
needed Action.offer = lit "pin:store"
needed Action.audit = lit "pin:audit"
needed Action.status = lit "pin:read"
needed Action.renew = lit "pin:store"
needed Action.release = lit "pin:release"

pub ability_of-needed : (a : Action) → ability_of a ≡ needed a
unfolding ability_of
ability_of-needed Action.offer = refl
ability_of-needed Action.audit = refl
ability_of-needed Action.status = refl
ability_of-needed Action.renew = refl
ability_of-needed Action.release = refl

-- The capabilities that a state lists as revoked.
abbrev pub lists : HostState → Bytes → ℕ → Bool
lists s issuer nonce = any (λ (r : Bytes × ℕ). text_eq r.0 issuer && r.1 == nonce) s.revoked

-- The chain grants the sender the ability of the action, with what the state lists as revoked.
abbrev pub Grants : (gate : Gate) → Host → Call → Action → Bytes → gate.Chain → HostState → Type 0
Grants gate host call action from chain s =
    gate.authorize host.host_id host.roots call.now from (needed action) chain (lists s) ≡ true

pub is_authorized-Grants :
    (gate : Gate) (host : Host) (call : Call) (action : Action) (from : Bytes) (chain : gate.Chain)
    (s : HostState)
    → is_authorized gate host call action from chain s ≡ true
    → Grants gate host call action from chain s
unfolding is_authorized is_revoked
is_authorized-Grants gate host call action from chain s h =
    subst
      (λ (x : Text). gate.authorize host.host_id host.roots call.now from x chain (lists s) ≡ true)
      (ability_of-needed action) h

name_step :
    (name x : Text) (a b : Action) (rest : Option Action)
    → x ≡ name_of b
    → (rest ≡ some a → name ≡ name_of a)
    → (if text_eq name x then some b else rest) ≡ some a
    → name ≡ name_of a
name_step name x a b rest is_name later h = elim (Bool-cases (text_eq name x)) [
  | inl same ↦ (text_eq_iff name x).0 same ∙ is_name ∙ ap name_of (some_inj b a (rw same at h))
  | inr other ↦ later (rw other at h)
]

pub action_of-name : (name : Text) (a : Action) → action_of name ≡ some a → name ≡ name_of a
unfolding action_of
action_of-name name a = name_step name (lit "offer") a Action.offer _ refl (
    name_step name (lit "audit") a Action.audit _ refl (
      name_step name (lit "status") a Action.status _ refl (
        name_step name (lit "renew") a Action.renew _ refl
          (name_step name (lit "release") a Action.release _ refl (λ h. cc)))))
