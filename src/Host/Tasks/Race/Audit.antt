-- ===== src/Host/Tasks/Race/Audit.antt =====
-- An audit and a release at once in src/host.rs.
use ce_pin.Prelude.{ℕ, ◌≡◌, refl, ap, ◌∙◌, true, false, none, some, [], ◌∷◌, get_elem?}
use ce_pin.Prelude.Text.{Text}
use ce_pin.Prelude.Text.Laws.{text_eq_refl}
use ce_pin.Prelude.Map
use ce_pin.Prelude.Map.Laws.{lookup-modify}
use ce_pin.Files.{Bytes}
use ce_pin.Audit.{Hashing, prove}
use ce_pin.Held.{HeldSet, contains, touch}
use ce_pin.Proto.{AuditReq, ReleaseReq}
use ce_pin.Host.{Host, HostState, Disk}
use ce_pin.Host.Requests.{Manifest, manifest_of, answer_chunk, do_release}
use ce_pin.Host.Requests.Renewal.{do_release-lookup}
use ce_pin.Host.Steps.Handlers.{release_result-held}
use ce_pin.Host.Dispatch.{Gate, Call, Action, audit_reply, release_result}
use ce_pin.Host.Tasks.{authorized, finished, turn, resume, dispatch, begin_audit, play, play_all}

contains-touch_absent :
    (h : HeldSet) (cid : Text) (now : ℕ)
    → Map.lookup cid h.entries ≡ none
    → contains (touch h cid now) cid ≡ false
unfolding contains touch Map.has_key
contains-touch_absent h cid now e = rw (lookup-modify cid cid _ h.entries, text_eq_refl cid, e) refl

absent-contains :
    (h : HeldSet) (cid : Text) → Map.lookup cid h.entries ≡ none → contains h cid ≡ false
unfolding contains Map.has_key
absent-contains h cid e = rw e refl

release-absent :
    (host : Host) (disk : Disk) (req : ReleaseReq) (s : HostState) (cid : Text)
    → req.cid ≡ cid
    → Map.lookup cid (release_result (do_release host disk req s)).1.held.entries ≡ none
release-absent host disk req s cid same =
    ap (λ (h : HeldSet). Map.lookup cid h.entries)
      (release_result-held (do_release host disk req s).0 (do_release host disk req s).1)
    ∙ (do_release-lookup host disk req s cid).0
    ∙ rw (same, text_eq_refl cid) refl

module _ (host : Host) (hs : Hashing) (gate : Gate) where
  -- An audit and a release of the same held CID are past the gate. If the audit has looked at the
  -- held-set when the release has its turn, and the node still gets the blobs, then the audit is
  -- answered with the proof of the challenged chunk after the CID is gone from the held-set.
  pub audit_after_release-proves :
      (call1 call2 : Call) (from1 from2 : Text) (payload1 payload2 : Bytes) (req : AuditReq)
      (released : ReleaseReq) (m : Manifest) (k : Text) (chunk : Bytes) (s : HostState)
      → gate.audit_req payload1 ≡ some req
      → gate.release_req payload2 ≡ some released
      → released.cid ≡ req.cid
      → contains s.held req.cid ≡ true
      → manifest_of call1.blobs req.cid ≡ some m
      → get_elem? m.chunks req.chunk_index ≡ some k
      → call1.blobs.get_blob k ≡ some chunk
      → let waiting =
          authorized call1 Action.audit from1 payload1
          ∷ authorized call2 Action.release from2 payload2
          ∷ [] in
        let released_then =
          play_all host hs gate (turn 0 ∷ turn 1 ∷ []) (record { tasks = waiting; shared = s }) in
        let after = play host hs gate (turn 0) released_then in
        (contains released_then.shared.held req.cid ≡ false)
        × (get_elem? after.tasks 0
            ≡ some (
                finished (
                  audit_reply (record { proof = some (prove hs chunk req.nonce); reason = none }))))
        × (contains after.shared.held req.cid ≡ false)
  unfolding play_all play resume dispatch begin_audit answer_chunk
  audit_after_release-proves call1 call2 from1 from2 payload1 payload2 req released m k chunk s asks
        releases same held has at got =
      let t = (release_result (do_release host call2.disk released s)).1 in
      let gone = release-absent host call2.disk released s req.cid same in
      rw (asks, releases, held, has, at, got, answer_chunk)
        (
          absent-contains t.held req.cid gone,
          refl,
          contains-touch_absent t.held req.cid call1.blobs.now gone,
        )
