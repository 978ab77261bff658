-- ===== src/Host/Requests/Cases.antt =====
-- The two ways in which `do_audit` of src/host.rs ends past the held-set, for proofs of what holds
-- after both.
use ce_pin.Prelude.{Option, none, some, get_elem?, Option-cases, inl, inr}
use ce_pin.Files.{Bytes}
use ce_pin.Audit.{Hashing, prove}
use ce_pin.Held.{touch}
use ce_pin.Metrics.{audit_passed, audit_failed}
use ce_pin.Proto.{AuditReq, AuditResp, Reason}
use ce_pin.Host.{HostState, count}
use ce_pin.Host.Requests.{BlobCall, Manifest, no_proof, answer_chunk, answer_manifest}

-- A proof is counted and its pin touched, and a failure is counted and nothing else.
pub answer_manifest-elim {ℓ} :
    (C : AuditResp × HostState → Type ℓ) (hs : Hashing) (call : BlobCall) (req : AuditReq)
    (s : HostState) (m : Option Manifest)
    → ((reason : Reason) → C (no_proof reason, count audit_failed s))
    → ((chunk : Bytes)
        → C (
          record { proof = some (prove hs chunk req.nonce); reason = none },
          record (count audit_passed s) { held = touch s.held req.cid call.now },
        ))
    → C (answer_manifest hs call req s m)
unfolding answer_chunk
answer_manifest-elim C hs call req s none failed passed = failed _
answer_manifest-elim C hs call req s (some m) failed passed =
    elim (Option-cases (get_elem? m.chunks req.chunk_index)) [
      | inl out ↦ rw out (failed _)
      | inr (c, there) ↦ elim (Option-cases (call.get_blob c)) [
        | inl gone ↦ rw (there, gone) (failed _)
        | inr (chunk, got) ↦ rw (there, got) (passed chunk)
      ]
    ]
