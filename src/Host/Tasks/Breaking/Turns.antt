-- ===== src/Host/Tasks/Breaking/Turns.antt =====
-- Every turn of src/host.rs leaves a held pin on its terms, or is one that may break them.
use ce_pin.Prelude.{◌≡◌, sym, ap, ◌∙◌, ◌⊎◌, inl, inr, some, subst, Bool-cases}
use ce_pin.Prelude.Text.{Text, text_eq}
use ce_pin.Prelude.Text.Laws.{text_eq_iff}
use ce_pin.Prelude.Map
use ce_pin.Files.{Bytes}
use ce_pin.Audit.{Hashing}
use ce_pin.Held.{HeldEntry, HeldSet}
use ce_pin.Proto.{RenewReq, ReleaseReq}
use ce_pin.Host.{Host, HostState, height_or_zero}
use ce_pin.Host.Offer.Capacity.{IsHostState}
use ce_pin.Host.Requests.{do_renew, manifest_of, do_release}
use ce_pin.Host.Requests.Renewal.{do_renew-lookup, do_release-lookup}
use ce_pin.Host.Steps.Handlers.{release_result-held}
use ce_pin.Host.Steps.Invariant.{refresh_revoked-held, readvertise-held}
use ce_pin.Host.Dispatch.{Gate, Call, Action}
use ce_pin.Host.Tasks.Cases.{dispatch-elim}
use ce_pin.Host.Tasks.{
  Task, arrived, authorized, asking_height, fetching, reading_audit, reading_status, finished,
  refreshing, readvertising, collecting, ended, dispatch, resume, receive,
}
use ce_pin.Host.Tasks.Invariant.{check-held, await_object-held}
use ce_pin.Host.Tasks.Breaking.{
  Keeps, Breaks, still, settle-Keeps, answer_manifest-Keeps, answer_status-Keeps,
  drop_expired-Keeps, run_gc-Keeps,
}

module _ (host : Host) (hs : Hashing) (gate : Gate) (cid : Text) (e : HeldEntry) where
  -- Where the held-set is left alone.
  alone : (h h' : HeldSet) → h' ≡ h → Map.lookup cid h.entries ≡ some e → Keeps cid e h'.entries
  alone h h' same there =
      still cid e h'.entries (ap (λ (x : HeldSet). Map.lookup cid x.entries) same ∙ there)

  renew-Keeps :
      (call : Call) (req : RenewReq) (s : HostState)
      → Map.lookup cid s.held.entries ≡ some e
      → Keeps cid e (do_renew host call.disk call.now req s).1.held.entries ⊎ (cid ≡ req.cid)
  renew-Keeps call req s there = elim (Bool-cases (text_eq cid req.cid)) [
    | inl same ↦ inr ((text_eq_iff cid req.cid).0 same)
    | inr apart ↦
        inl (still cid e _ (do_renew-lookup host call.disk call.now req s cid ∙ rw apart there))
  ]

  release-Keeps :
      (call : Call) (req : ReleaseReq) (s : HostState)
      → Map.lookup cid s.held.entries ≡ some e
      → Keeps cid e (do_release host call.disk req s).1.held.entries ⊎ (cid ≡ req.cid)
  release-Keeps call req s there = elim (Bool-cases (text_eq cid req.cid)) [
    | inl same ↦ inr ((text_eq_iff cid req.cid).0 same)
    | inr apart ↦
        inl (still cid e _ ((do_release-lookup host call.disk req s cid).0 ∙ rw apart there))
  ]

  dispatch-Keeps :
      (call : Call) (action : Action) (from_hex : Text) (payload : Bytes) (s : HostState)
      → Map.lookup cid s.held.entries ≡ some e
      → Keeps cid e (dispatch host gate call action from_hex payload s).1.held.entries
        ⊎ Breaks host gate (authorized call action from_hex payload) s cid
  dispatch-Keeps call action from_hex payload s there =
      dispatch-elim host gate
        (λ (u : Task × HostState).
          Keeps cid e u.1.held.entries
          ⊎ Breaks host gate (authorized call action from_hex payload) s cid)
        call action from_hex payload s kept (λ req is_offer good held. kept)
        (λ req is_offer good. kept) (λ req is_audit good held. kept) (λ req. kept)
        (λ req is_status good held. kept) (λ req. kept)
        (λ req is_renew good. elim (renew-Keeps call req s there) [
          | inl unchanged ↦ inl unchanged
          | inr same ↦ inr (breaking is_renew (req, good, same))
        ])
        (λ req is_release good. elim (release-Keeps call req s there) [
          | inl unchanged ↦ inl (
              subst (λ (h : HeldSet). Keeps cid e h.entries)
                (sym (
                  release_result-held (do_release host call.disk req s).0
                    (do_release host call.disk req s).1))
                unchanged)
          | inr same ↦ inr (breaking is_release (req, good, same))
        ])
    where
      breaking :
          {a : Action}
          → action ≡ a
          → Breaks host gate (authorized call a from_hex payload) s cid
          → Breaks host gate (authorized call action from_hex payload) s cid
      breaking same b =
          subst (λ (a : Action). Breaks host gate (authorized call a from_hex payload) s cid)
            (sym same) b

      kept :
          Keeps cid e s.held.entries
          ⊎ Breaks host gate (authorized call action from_hex payload) s cid
      kept = inl (still cid e s.held.entries there)

  -- A turn of a task leaves a held pin on its terms, or is one that may break them.
  pub resume-Keeps :
      (t : Task) (s : HostState)
      → IsHostState s
      → Map.lookup cid s.held.entries ≡ some e
      → Keeps cid e (resume host hs gate t s).1.held.entries ⊎ Breaks host gate t s cid
  unfolding resume receive
  resume-Keeps (arrived r) s v there =
      inl (alone s.held _ (check-held host hs gate r.call r.from_hex _ _ _ s) there)
  resume-Keeps (authorized call action from_hex payload) s v there =
      dispatch-Keeps call action from_hex payload s there
  resume-Keeps (asking_height call req publisher) s v there =
      elim (drop_expired-Keeps cid e (height_or_zero call.offer.height) s v there) [
        | inl kept ↦ inl (
            subst (λ (h : HeldSet). Keeps cid e h.entries)
              (sym (await_object-held host hs gate call req publisher _ _)) kept)
        | inr out ↦ inr out
      ]
  resume-Keeps (fetching call req publisher already_held) s v there =
      settle-Keeps cid e host call.offer req publisher already_held s call.offer.fetched there
  resume-Keeps (reading_audit call req) s v there =
      inl (answer_manifest-Keeps cid e hs call.blobs req s (manifest_of call.blobs req.cid) there)
  resume-Keeps (reading_status call req) s v there =
      inl (answer_status-Keeps cid e call.blobs req s (manifest_of call.blobs req.cid) there)
  resume-Keeps (finished reply) s v there = inl (still cid e _ there)
  resume-Keeps (refreshing pairs) s v there =
      inl (alone s.held _ (refresh_revoked-held hs pairs s) there)
  resume-Keeps readvertising s v there = inl (alone s.held _ (readvertise-held s) there)
  resume-Keeps (collecting height disk) s v there = run_gc-Keeps cid e host height disk s v there
  resume-Keeps ended s v there = inl (still cid e _ there)
