-- ===== src/PinSet/Updates.antt =====
-- `get` after a change through `get_mut` of src/pinset.rs.
use ce_pin.PinSet.{upsert, remove}
use ce_pin.Prelude.Map.Laws.{lookup-insert, lookup-remove}
use ce_pin.Prelude.{none, some}
use ce_pin.Prelude.{◌≡◌, refl, sym, ap, ◌∙◌, some, [], ◌∷◌, if◌then◌else◌, Bool-cases, inl, inr}
use ce_pin.Prelude.Text.{Text, text_eq}
use ce_pin.Prelude.Text.Laws.{text_eq_refl}
use ce_pin.Prelude.Map
use ce_pin.Prelude.Map.{Map}
use ce_pin.Prelude.Map.Laws.{lookup-modify}
use ce_pin.PinSet.{Entry, PinSet, get, update}
use mathlib.Core.Option

pub get-update :
    (set : PinSet) (cid : Text) (f : Entry → Entry) (other : Text)
    → get (update set cid f) other
      ≡ (if text_eq other cid then Option.map f (get set other) else get set other)
unfolding get update
get-update set cid f other = lookup-modify cid other f set.pins

pub get-upsert :
    (s : PinSet) (entry : Entry) (cid : Text)
    → get (upsert s entry) cid ≡ (if text_eq cid entry.job.cid then some entry else get s cid)
unfolding get upsert
get-upsert s entry cid = lookup-insert entry.job.cid cid entry s.pins

pub get-remove :
    (s : PinSet) (cid other : Text)
    → get (remove s cid).1 other ≡ (if text_eq other cid then none else get s other)
unfolding get remove
get-remove s cid other = lookup-remove cid other s.pins

pub get-update_same :
    (set : PinSet) (cid : Text) (f : Entry → Entry) (entry : Entry)
    → get set cid ≡ some entry
    → get (update set cid f) cid ≡ some (f entry)
get-update_same set cid f entry h = get-update set cid f cid ∙ rw (text_eq_refl cid, h) refl

some_inj : {a b : Entry} → some a ≡ some b → a ≡ b
some_inj h = cc

modify-found :
    (k : Text) (f g : Entry → Entry) (m : Map Entry) (e : Entry)
    → Map.lookup k m ≡ some e
    → f e ≡ g e
    → Map.modify k f m ≡ Map.modify k g m
unfolding Map.lookup Map.modify
modify-found k f g [] e h same = refl
modify-found k f g ((j, x) ∷ m) e h same = elim (Bool-cases (text_eq k j)) [
  | inl here ↦
      let x_is : x ≡ e = some_inj (rw here at h) in
      rw here (ap (λ t. (j, t) ∷ m) (ap f x_is ∙ same ∙ ap g (sym x_is)))
  | inr there ↦ rw there (ap (λ t. (j, x) ∷ t) (modify-found k f g m e (rw there at h) same))
]

-- Only what a change makes of the entry that is there matters.
pub update-found :
    (set : PinSet) (cid : Text) (f g : Entry → Entry) (e : Entry)
    → get set cid ≡ some e
    → f e ≡ g e
    → update set cid f ≡ update set cid g
unfolding get update
update-found set cid f g e h same =
    ap (λ m. record set { pins = m }) (modify-found cid f g set.pins e h same)
