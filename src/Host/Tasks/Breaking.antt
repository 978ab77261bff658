-- ===== src/Host/Tasks/Breaking.antt =====
-- One turn of a task of src/host.rs and one held pin: when the pin stays on its terms.
pub mod Turns
use ce_pin.Prelude.{
  ◌&&◌, ℕ, ◌<◌, ◌≡◌, refl, sym, ap, ◌∙◌, ◌⊎◌, inl, inr, Bool, true, false, not, Option, none, some,
  List, [], ◌∷◌, length, ltb, leb, ltb→lt, if◌then◌else◌, Bool-cases, Option-cases, get_elem?,
  arith, ◌≤◌, leb→le,
}
use ce_pin.Prelude.Text.{Text, text_eq}
use ce_pin.Prelude.Text as Texts
use ce_pin.Prelude.Text.Laws.{text_eq_iff}
use ce_pin.Prelude.Map
use ce_pin.Prelude.Map.{Map}
use ce_pin.Prelude.Map.Laws.{lookup-insert, lookup-remove, lookup-modify}
use ce_pin.Files.{Bytes}
use ce_pin.Audit.{Hashing}
use ce_pin.Config.{Admission, admitted, rejected}
use ce_pin.Held.{
  HeldEntry, HeldSet, contains, touch, insert, remove, expired, evict_to_fit, total_bytes,
}
use ce_pin.Held.Lease.{lapsed, expired-lapsed}
use ce_pin.Proto.{OfferReq, AuditReq, StatusReq, RenewReq, ReleaseReq}
use ce_pin.Host.{Host, HostState, Disk, height_or_zero}
use ce_pin.Host.Offer.{OfferCall, Fetched, object, failed, timed_out, commit, settle, drop_expired}
use ce_pin.Host.Offer.Capacity.{IsHostState}
use ce_pin.Host.Requests.Cases.{answer_manifest-elim}
use ce_pin.Proto.{AuditResp}
use ce_pin.Host.Requests.{
  BlobCall, Manifest, manifest_of, answer_chunk, find_chunk, answer_manifest, answer_status,
  do_release,
}
use ce_pin.Host.Requests.Renewal.{do_renew-lookup}
use ce_pin.Host.Gc.{gc_expired, gc_held, run_gc}
use ce_pin.Host.Gc.Laws.{run_gc-held, lookup-remove_each}
use ce_pin.Host.Steps.Handlers.{release_result-held, released_if-held}
use ce_pin.Host.Steps.Invariant.{refresh_revoked-held}
use ce_pin.Host.Dispatch.{Gate, Call, Action}
use ce_pin.Host.Tasks.{
  Request, Task, arrived, authorized, asking_height, fetching, reading_audit, reading_status,
  finished, refreshing, readvertising, collecting, ended, dispatch, await_object, resume, receive,
}
use ce_pin.Host.Tasks.Invariant.{check-held, await_object-held}

-- What the host promised for a pin: all of its entry but the times.
abbrev pub SameTerms : HeldEntry → HeldEntry → Type 0
SameTerms e e' =
    (e'.bytes ≡ e.bytes)
    × (e'.rent_per_gb_hour ≡ e.rent_per_gb_hour)
    × (e'.expiry_height ≡ e.expiry_height)
    × (e'.publisher ≡ e.publisher)

abbrev pub Keeps : Text → HeldEntry → Map HeldEntry → Type 0
Keeps cid e m = (e' : HeldEntry) × (Map.lookup cid m ≡ some e') × SameTerms e e'

-- The entry that an accepted offer is recorded as.
abbrev pub RecordedAs : OfferCall → OfferReq → Text → Text → HostState → Fetched → Type 0
RecordedAs call req publisher cid s f =
    (bytes : Bytes) × (f ≡ object bytes)
    × (Map.lookup cid s.held.entries
        ≡ some (record {
          bytes = length bytes;
          rent_per_gb_hour = req.rent_per_gb_hour;
          expiry_height = req.expiry_height;
          pinned_at = call.pinned_at;
          last_access = call.last_access;
          publisher = publisher;
        }))

-- Why a turn may take a pin away or change its terms: a release or a renewal of it, an offer of it
-- whose object was fetched, after which it is held with the size of that object and the terms of the
-- offer, a lease that has run out at the height that the node told, and a collection by a
-- host that is over its budget without the expired pins.
abbrev pub Breaks : Host → Gate → Task → HostState → Text → Type 0
Breaks host gate (authorized call Action.release from_hex payload) s cid =
    (req : ReleaseReq) × (gate.release_req payload ≡ some req) × (cid ≡ req.cid)
Breaks host gate (authorized call Action.renew from_hex payload) s cid =
    (req : RenewReq) × (gate.renew_req payload ≡ some req) × (cid ≡ req.cid)
Breaks host gate (fetching call req publisher already_held) s cid =
    (cid ≡ req.cid)
    × RecordedAs call.offer req publisher cid
        (settle host call.offer req publisher already_held s call.offer.fetched).1
        call.offer.fetched
Breaks host gate (asking_height call req publisher) s cid =
    lapsed (height_or_zero call.offer.height) (Map.lookup cid s.held.entries) ≡ true
Breaks host gate (collecting height disk) s cid =
    (lapsed (height_or_zero height) (Map.lookup cid s.held.entries) ≡ true)
    ⊎ (host.cfg.capacity_bytes < total_bytes (gc_expired (height_or_zero height) s.held))
Breaks host gate _ s cid = ⊥

module _ (cid : Text) (e : HeldEntry) where
  pub still : (m : Map HeldEntry) → Map.lookup cid m ≡ some e → Keeps cid e m
  still m there = (e, there, (refl, refl, refl, refl))

  touch-Keeps :
      (h : HeldSet) (other : Text) (now : ℕ)
      → Map.lookup cid h.entries ≡ some e
      → Keeps cid e (touch h other now).entries
  unfolding touch
  touch-Keeps h other now there = elim (Bool-cases (text_eq cid other)) [
    | inl same ↦ (
      record e { last_access = now },
      lookup-modify other cid _ h.entries ∙ rw (same, there) refl,
      (refl, refl, refl, refl),
    )
    | inr apart ↦ still _ (lookup-modify other cid _ h.entries ∙ rw apart there)
  ]

  pub settle-Keeps :
      (host : Host) (call : OfferCall) (req : OfferReq) (publisher : Text) (already : Bool)
      (s : HostState) (f : Fetched)
      → Map.lookup cid s.held.entries ≡ some e
      → Keeps cid e (settle host call req publisher already s f).1.held.entries
        ⊎ ((cid ≡ req.cid)
            × RecordedAs call req publisher cid (settle host call req publisher already s f).1 f)
  unfolding settle commit insert
  settle-Keeps host call req publisher already s failed there = inl (still _ there)
  settle-Keeps host call req publisher already s timed_out there = inl (still _ there)
  settle-Keeps host call req publisher already s (object bytes) there =
      elim (Bool-cases (not already && ltb host.cfg.max_object_bytes (length bytes))) [
        | inl big ↦ rw big (inl (still _ there))
        | inr small ↦ elim (Bool-cases (text_eq cid req.cid)) [
          | inl same ↦ rw small (
              inr (
                (text_eq_iff cid req.cid).0 same,
                (bytes, refl, lookup-insert req.cid cid _ s.held.entries ∙ rw same refl),
              ))
          | inr apart ↦
              rw small (inl (still _ (lookup-insert req.cid cid _ s.held.entries ∙ rw apart there)))
        ]
      ]

  pub answer_manifest-Keeps :
      (hs : Hashing) (call : BlobCall) (req : AuditReq) (s : HostState) (m : Option Manifest)
      → Map.lookup cid s.held.entries ≡ some e
      → Keeps cid e (answer_manifest hs call req s m).1.held.entries
  answer_manifest-Keeps hs call req s m there =
      answer_manifest-elim (λ (p : AuditResp × HostState). Keeps cid e p.1.held.entries) hs call req
        s m (λ reason. still _ there) (λ chunk. touch-Keeps s.held req.cid call.now there)

  pub answer_status-Keeps :
      (call : BlobCall) (req : StatusReq) (s : HostState) (m : Option Manifest)
      → Map.lookup cid s.held.entries ≡ some e
      → Keeps cid e (answer_status call req s m).1.held.entries
  answer_status-Keeps call req s none there = still _ there
  answer_status-Keeps call req s (some m) there = touch-Keeps s.held req.cid call.now there

  pub drop_expired-Keeps :
      (height : ℕ) (s : HostState)
      → IsHostState s
      → Map.lookup cid s.held.entries ≡ some e
      → Keeps cid e (drop_expired height s).held.entries
        ⊎ (lapsed height (Map.lookup cid s.held.entries) ≡ true)
  unfolding drop_expired
  drop_expired-Keeps height s v there =
      elim (Bool-cases (Texts.contains (expired s.held height) cid)) [
        | inl out ↦ inr (sym (expired-lapsed s.held cid height v) ∙ out)
        | inr in' ↦
            inl (still _ (lookup-remove_each (expired s.held height) cid s.held ∙ rw in' there))
      ]

  evicts-over :
      (h : HeldSet) (target height : ℕ)
      → Texts.contains (evict_to_fit h target height) cid ≡ true
      → target < total_bytes h
  unfolding evict_to_fit Texts.contains
  evicts-over h target height out = elim (Bool-cases (leb (total_bytes h) target)) [
    | inl fits ↦ absurd (ground (arith, rw fits at out))
    | inr over ↦ ground (arith, over)
  ]

  pub run_gc-Keeps :
      (host : Host) (answer : Option ℕ) (disk : Disk) (s : HostState)
      → IsHostState s
      → Map.lookup cid s.held.entries ≡ some e
      → Keeps cid e (run_gc host answer disk s).held.entries
        ⊎ ((lapsed (height_or_zero answer) (Map.lookup cid s.held.entries) ≡ true)
            ⊎ (host.cfg.capacity_bytes < total_bytes (gc_expired (height_or_zero answer) s.held)))
  unfolding gc_held gc_expired
  run_gc-Keeps host answer disk s v there =
      let height = height_or_zero answer in
      let live = gc_expired height s.held in
      elim (Bool-cases (Texts.contains (expired s.held height) cid)) [
        | inl out ↦ inr (inl (sym (expired-lapsed s.held cid height v) ∙ out))
        | inr in' ↦
            elim (Bool-cases
              (Texts.contains (evict_to_fit live host.cfg.capacity_bytes height) cid)) [
                | inl victim ↦ inr (inr (evicts-over live host.cfg.capacity_bytes height victim))
                | inr spared ↦ inl (
                    rw (run_gc-held host answer disk s) (
                      still _ (
                        lookup-remove_each (evict_to_fit live host.cfg.capacity_bytes height) cid
                          live
                        ∙ rw spared (
                            lookup-remove_each (expired s.held height) cid s.held ∙ rw in' there))))
              ]
      ]
