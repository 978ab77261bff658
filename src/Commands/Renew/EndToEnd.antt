-- ===== src/Commands/Renew/EndToEnd.antt =====
-- `cmd_renew` of src/main.rs against `do_renew` of src/host.rs: what the request that the command
-- sends makes a host do.
use ce_pin.Prelude.{
  ℕ, suc, ◌≤◌, ◌≡◌, ◌≢◌, refl, ◌∙◌, inl, inr, true, false, none, some, [], ◌∷◌, arith, ℤ, pos,
  negsuc, Option-cases,
}
use ce_pin.Prelude.Text.{Text, trim, is_empty}
use ce_pin.Prelude.Text.Laws.{text_eq_refl}
use ce_pin.Prelude.Text.Decimal.{show_nat, show_nat-ne-nil, trim-show_nat, trim-minus}
use ce_pin.Prelude.Map
use ce_pin.Held.{HeldEntry, is_expired}
use ce_pin.Config.{offered_rent}
use ce_pin.Proto.{RenewReq}
use ce_pin.Client.Requests.{renew_req}
use ce_pin.Commands.{show_int}
use ce_pin.Commands.Rent.{base_units, IsI128, offered_rent-show_int}
use ce_pin.Host.{Host, HostState, Disk}
use ce_pin.Host.Requests.{renew_entry, do_renew}
use ce_pin.Host.Requests.Renewal.{do_renew-lookup}

is_empty-ne : (s : Text) → s ≢ [] → is_empty s ≡ false
is_empty-ne [] h = absurd (h refl)
is_empty-ne (c ∷ s) h = refl

-- What is printed of an amount is no empty text.
show_int-visible : (amount : ℤ) → is_empty (trim (show_int amount)) ≡ false
unfolding show_int
show_int-visible (pos n) = rw (trim-show_nat n) (is_empty-ne (show_nat n) (show_nat-ne-nil n))
show_int-visible (negsuc n) = rw (trim-minus (suc n)) refl

-- The entry of a renewed pin: it pays the new rent, and has not run out below the new height.
pub record Lasts (expiry rent : ℕ) (e : HeldEntry) : Type 0 where
  pub pays : offered_rent e.rent_per_gb_hour ≡ rent
  pub lives : (height : ℕ) → is_expired height e ≡ true → expiry ≤ height

renew_entry-Lasts :
    (caps cid : Text) (expiry : ℕ) (amount : ℤ) (now : ℕ) (e : HeldEntry)
    → IsI128 amount
    → Lasts expiry
        (base_units amount)
        (renew_entry (renew_req caps cid expiry (show_int amount)) now e)
unfolding renew_entry renew_req
renew_entry-Lasts caps cid expiry amount now e h = record {
  pays = rw (show_int-visible amount) (offered_rent-show_int amount h);
  lives = λ height ended. ground (arith, ended);
}

do_renew-unheld :
    (host : Host) (disk : Disk) (now : ℕ) (req : RenewReq) (s : HostState)
    → Map.lookup req.cid s.held.entries ≡ none
    → (do_renew host disk now req s).0.renewed ≡ true
    → ⊥
unfolding do_renew
do_renew-unheld host disk now req s absent renewed = ground (arith, absent, renewed)

-- Right after a host replied to the command's request that it renewed the pin it holds it, under the
-- rent that was parsed, with a lease that has not run out below the height that was asked for.
pub do_renew-Lasts :
    (host : Host) (disk : Disk) (now : ℕ) (caps cid : Text) (expiry : ℕ) (amount : ℤ)
    (s : HostState)
    → IsI128 amount
    → (do_renew host disk now (renew_req caps cid expiry (show_int amount)) s).0.renewed ≡ true
    → (e : HeldEntry) × (Map.lookup cid
          (do_renew host disk now (renew_req caps cid expiry (show_int amount)) s).1.held.entries
        ≡ some e)
      × Lasts expiry (base_units amount) e
unfolding renew_req
do_renew-Lasts host disk now caps cid expiry amount s h renewed =
    let req = renew_req caps cid expiry (show_int amount) in
    elim (Option-cases (Map.lookup cid s.held.entries)) [
      | inl absent ↦ absurd (do_renew-unheld host disk now req s absent renewed)
      | inr (e, held) ↦ (
        renew_entry req now e,
        do_renew-lookup host disk now req s cid ∙ rw (text_eq_refl cid, held) refl,
        renew_entry-Lasts caps cid expiry amount now e h,
      )
    ]
