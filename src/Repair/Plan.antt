-- ===== src/Repair/Plan.antt =====
-- `repair_plan` of src/repair.rs, and the replica lists that a pass makes.
use ce_pin.Prelude.{
  ℕ, ◌+◌, ◌≤◌, ◌≡◌, refl, ap, sym, append-nil, append_assoc, ◌∙◌, List, [], ◌∷◌, ◌++◌, length,
  filter, any, map, inl, inr, Bool-cases, arith, max,
}
use ce_pin.Prelude.Text.{Text, text_eq, contains}
use ce_pin.Prelude.Text.Laws.{text_cmp-IsOrder}
use ce_pin.Prelude.Map.Removal.{IsNodup}
use ce_pin.Placement.Selection.{IsNodup-concat}
use ce_pin.PinSet.{Replica}
use ce_pin.Client.Replicas.{holders}
use ce_pin.Repair.{repair_plan, mark, push_new}

-- The holders that passed, among the replicas.
abbrev pub live : List Replica → List Text → ℕ
live replicas healthy = length (filter (λ r. contains healthy r.holder) replicas)

-- The plan asks for exactly as many replicas as bring the live ones to the desired factor, and
-- nothing where they are there; every holder of the pin is excluded.
pub repair_plan-restores :
    (rs : List Replica) (healthy : List Text) (desired : ℕ)
    → let plan = repair_plan rs healthy desired in
      (live rs healthy + plan.to_place ≡ max (live rs healthy) desired)
      × (plan.exclude ≡ holders rs)
unfolding repair_plan
repair_plan-restores rs healthy desired = (omega arith, refl)

pub holders-append :
    (rs : List Replica) (r : Replica) → holders (rs ++ r ∷ []) ≡ holders rs ++ r.holder ∷ []
holders-append [] r = refl
holders-append (x ∷ rs) r = ap (λ hs. x.holder ∷ hs) (holders-append rs r)

pub any-holder :
    (rs : List Replica) (h : Text) → any (λ r. text_eq r.holder h) rs ≡ contains (holders rs) h
unfolding contains
any-holder [] h = refl
any-holder (r ∷ rs) h = ground (arith, text_cmp-IsOrder.flip r.holder h, any-holder rs h)

pub push_new-IsNodup :
    (new_replicas rs : List Replica)
    → IsNodup (holders rs)
    → IsNodup (holders (push_new new_replicas rs))
unfolding push_new
push_new-IsNodup [] rs d = d
push_new-IsNodup (nr ∷ new_replicas) rs d =
    elim (Bool-cases (any (λ r. text_eq r.holder nr.holder) rs)) [
      | inl there ↦ rw there (push_new-IsNodup new_replicas rs d)
      | inr new' ↦ rw new' (
          push_new-IsNodup new_replicas (rs ++ nr ∷ []) (
            rw (holders-append rs nr)
              (IsNodup-concat (holders rs) nr.holder d (sym (any-holder rs nr.holder) ∙ new'))))
    ]

pub mark-holders :
    (healthy : List Text) (rs : List Replica) → holders (map (mark healthy) rs) ≡ holders rs
mark-holders healthy [] = refl
mark-holders healthy (r ∷ rs) = ap (λ hs. r.holder ∷ hs) (mark-holders healthy rs)

-- A new replica is only added at the end, and at most once.
pub push_new-appends :
    (new_replicas rs : List Replica)
    → (added : List Replica) × (push_new new_replicas rs ≡ rs ++ added)
      × (length added ≤ length new_replicas)
unfolding push_new
push_new-appends [] rs = ([], sym (append-nil rs), omega arith)
push_new-appends (nr ∷ new_replicas) rs =
    elim (Bool-cases (any (λ r. text_eq r.holder nr.holder) rs)) [
      | inl there ↦
          let (added, e, l) = push_new-appends new_replicas rs in
          rw there (added, e, omega (arith, l))
      | inr new' ↦
          let (added, e, l) = push_new-appends new_replicas (rs ++ nr ∷ []) in
          rw new' (nr ∷ added, e ∙ append_assoc rs (nr ∷ []) added, omega (arith, l))
    ]
