-- ===== src/Host/Requests/Renewal.antt =====
-- `do_renew` and the release of src/host.rs: what they change.
use ce_pin.Prelude.{
  ℕ, ◌⊎◌, ◌≤◌, ◌≡◌, ◌≢◌, refl, ap, ◌∙◌, Bool, true, false, none, some, arith, Option-cases, inl,
  inr, if◌then◌else◌,
}
use ce_pin.Prelude.Text.{Text, text_eq}
use ce_pin.Prelude.Text.Laws.{text_eq_refl, text_eq_iff}
use ce_pin.Prelude.Map
use ce_pin.Prelude.Map.Laws.{lookup-modify, lookup-remove}
use ce_pin.Held.{HeldEntry, contains, is_expired, remove}
use ce_pin.Held.Storage.{SaveResult, saved, save_failed}
use ce_pin.Proto.{RenewReq, ReleaseReq, not_held_locally}
use ce_pin.Host.{Host, HostState, Disk, persist}
use ce_pin.Host.Requests.{renew_entry, do_renew, released_if, do_release}
use mathlib.Core.Option

-- A renewal changes the entry of its CID alone, by `renew_entry`; if the CID is not held it changes
-- nothing.
pub do_renew-lookup :
    (host : Host) (disk : Disk) (now : ℕ) (req : RenewReq) (s : HostState) (cid : Text)
    → Map.lookup cid (do_renew host disk now req s).1.held.entries ≡ (
        if text_eq cid req.cid
        then Option.map (renew_entry req now) (Map.lookup cid s.held.entries)
        else Map.lookup cid s.held.entries)
unfolding do_renew persist
do_renew-lookup host disk now req s cid = elim (Option-cases (Map.lookup req.cid s.held.entries)) [
  | inl absent ↦ rw absent (ground (arith, text_eq_iff cid req.cid, absent))
  | inr (e, held) ↦ rw held (lookup-modify req.cid cid (renew_entry req now) s.held.entries)
]

-- The reply names the expiry that the entry has now, and a renewal is refused just when the CID is
-- not held.
pub do_renew-reply :
    (host : Host) (disk : Disk) (now : ℕ) (req : RenewReq) (s : HostState)
    → let (reply, t) = do_renew host disk now req s in
      ((Map.lookup req.cid s.held.entries ≡ none)
        × (reply ≡ record { renewed = false; expiry_height = 0; reason = some not_held_locally })
        × (t ≡ s))
      ⊎ ((e : HeldEntry) × (Map.lookup req.cid t.held.entries ≡ some e)
          × (reply ≡ record { renewed = true; expiry_height = e.expiry_height; reason = none }))
unfolding do_renew persist
do_renew-reply host disk now req s = elim (Option-cases (Map.lookup req.cid s.held.entries)) [
  | inl absent ↦ inl (absent, rw absent, rw absent)
  | inr (e, held) ↦ inr (
    renew_entry req now e,
    rw held (
        lookup-modify req.cid req.cid (renew_entry req now) s.held.entries
        ∙ rw (text_eq_refl req.cid, held)),
    rw held,
  )
]

-- A lease that has an end is never shortened: an entry that has run out at some height after the
-- renewal would have run out without it.
pub renew_entry-extends :
    (req : RenewReq) (now height : ℕ) (e : HeldEntry)
    → e.expiry_height ≢ 0
    → is_expired height (renew_entry req now e) ≡ true
    → is_expired height e ≡ true
unfolding renew_entry
renew_entry-extends req now height e ends h = ground arith

-- An open-ended lease, which never runs out, is replaced by any requested end: the entry has then
-- run out at the requested height.
pub renew_entry-open_ended :
    (req : RenewReq) (now height : ℕ) (e : HeldEntry)
    → e.expiry_height ≡ 0
    → req.expiry_height ≢ 0
    → req.expiry_height ≤ height
    → (is_expired height e ≡ false) × (is_expired height (renew_entry req now e) ≡ true)
unfolding renew_entry
renew_entry-open_ended req now height e open_ended wanted past = ground arith

released_if-held :
    (was_held : Bool) (saved_state : SaveResult × HostState)
    → (released_if was_held saved_state).1.held ≡ saved_state.1.held
released_if-held was_held (save_failed, s) = refl
released_if-held true (saved, s) = refl
released_if-held false (saved, s) = refl

released_if-reply :
    (was_held : Bool) (saved_state : SaveResult × HostState)
    → let reply = (released_if was_held saved_state).0 in
      (reply ≡ none) ⊎ (reply ≡ some (record { released = was_held; reason = none }))
released_if-reply was_held (save_failed, s) = inl refl
released_if-reply true (saved, s) = inr refl
released_if-reply false (saved, s) = inr refl

-- A release removes its CID and no other from the held-set, whether or not the removal could be
-- saved; the reply says that it was released just when it was held and the save succeeded.
pub do_release-lookup :
    (host : Host) (disk : Disk) (req : ReleaseReq) (s : HostState) (cid : Text)
    → let (reply, t) = do_release host disk req s in
      (Map.lookup cid t.held.entries
        ≡ (if text_eq cid req.cid then none else Map.lookup cid s.held.entries))
      × ((reply ≡ none)
          ⊎ (reply ≡ some (record { released = contains s.held req.cid; reason = none })))
unfolding do_release remove persist
do_release-lookup host disk req s cid = (
  ap (λ h. Map.lookup cid h.entries) (released_if-held (contains s.held req.cid) _)
      ∙ lookup-remove req.cid cid s.held.entries,
  released_if-reply (contains s.held req.cid) _,
)
