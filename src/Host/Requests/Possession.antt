-- ===== src/Host/Requests/Possession.antt =====
-- `do_audit` and `do_status` of src/host.rs: for which CIDs they answer, and with what.
use ce_pin.Prelude.{
  ◌≡◌, refl, true, false, Option, none, some, Bool-cases, Option-cases, inl, inr, get_elem?,
}
use ce_pin.Prelude.Text.{Text}
use ce_pin.Files.{Bytes}
use ce_pin.Audit.{Hashing, prove, verify}
use ce_pin.Audit.Soundness.{verify-prove}
use ce_pin.Held.{contains}
use ce_pin.Proto.{AuditReq, StatusReq, not_held_locally}
use ce_pin.Host.{HostState}
use ce_pin.Host.Requests.{
  Manifest, BlobCall, manifest_of, answer_chunk, find_chunk, answer_manifest, do_audit, do_status,
}

-- For a CID that is not in the held-set there is no proof and no claim to hold it, whatever blobs
-- the node could fetch, and the held-set stays as it was.
pub unheld-unproved :
    (hs : Hashing) (call : BlobCall) (audit : AuditReq) (status : StatusReq) (s : HostState)
    → contains s.held audit.cid ≡ false
    → contains s.held status.cid ≡ false
    → ((do_audit hs call audit s).0.proof ≡ none)
      × ((do_audit hs call audit s).0.reason ≡ some not_held_locally)
      × ((do_audit hs call audit s).1.held ≡ s.held)
      × (do_status call status s ≡ (record { held = false; bytes = 0 }, s))
unfolding do_audit do_status
unheld-unproved hs call audit status s a b = (rw a, rw a, rw a, rw b)

-- Where a proof comes from: the CID is held, its manifest names the challenged chunk, and the proof
-- is that of the chunk's bytes and the nonce.
pub record Proved (hs : Hashing) (call : BlobCall) (req : AuditReq) (s : HostState) (proof : Text)
    : Type 0 where
  pub is_held : contains s.held req.cid ≡ true
  pub manifest : Manifest
  pub has_manifest : manifest_of call req.cid ≡ some manifest
  pub chunk_cid : Text
  pub in_range : get_elem? manifest.chunks req.chunk_index ≡ some chunk_cid
  pub chunk : Bytes
  pub has_chunk : call.get_blob chunk_cid ≡ some chunk
  pub is_proof : proof ≡ prove hs chunk req.nonce

no_proof_ne : {proof : Text} → none ≡ some proof → ⊥
no_proof_ne h = cc

same_proof : {x proof : Text} → some x ≡ some proof → proof ≡ x
same_proof h = cc

find_chunk-Proved :
    (hs : Hashing) (call : BlobCall) (req : AuditReq) (s t : HostState) (m : Manifest)
    (proof : Text) (c : Option Text)
    → contains s.held req.cid ≡ true
    → manifest_of call req.cid ≡ some m
    → get_elem? m.chunks req.chunk_index ≡ c
    → (find_chunk hs call req t c).0.proof ≡ some proof
    → Proved hs call req s proof
unfolding answer_chunk
find_chunk-Proved hs call req s t m proof none held has at e = cc
find_chunk-Proved hs call req s t m proof (some k) held has at e =
    elim (Option-cases (call.get_blob k)) [
      | inl gone ↦ absurd (no_proof_ne (rw (gone, answer_chunk) at e))
      | inr (chunk, there) ↦ record {
        is_held = held;
        manifest = m;
        has_manifest = has;
        chunk_cid = k;
        in_range = at;
        chunk = chunk;
        has_chunk = there;
        is_proof = same_proof (rw (there, answer_chunk) at e);
      }
    ]

pub answer_manifest-Proved :
    (hs : Hashing) (call : BlobCall) (req : AuditReq) (s t : HostState) (proof : Text)
    → contains s.held req.cid ≡ true
    → (answer_manifest hs call req t (manifest_of call req.cid)).0.proof ≡ some proof
    → Proved hs call req s proof
answer_manifest-Proved hs call req s t proof held e =
    elim (Option-cases (manifest_of call req.cid)) [
      | inl gone ↦ absurd (no_proof_ne (rw gone at e))
      | inr (m, has) ↦
          find_chunk-Proved hs call req s t m proof (get_elem? m.chunks req.chunk_index) held has
            refl (rw has at e)
    ]

-- A proof is only ever that of a held CID's challenged chunk.
do_audit-Proved :
    (hs : Hashing) (call : BlobCall) (req : AuditReq) (s : HostState) (proof : Text)
    → (do_audit hs call req s).0.proof ≡ some proof
    → Proved hs call req s proof
unfolding do_audit
do_audit-Proved hs call req s proof e = elim (Bool-cases (contains s.held req.cid)) [
  | inl held ↦ answer_manifest-Proved hs call req s (call.while_reading s) proof held (rw held at e)
  | inr unheld ↦ absurd (no_proof_ne (rw unheld at e))
]

-- The other way round, a host that holds the CID and has the manifest and the chunk answers with a
-- proof that an auditor who has the same chunk accepts.
pub do_audit-verify :
    (hs : Hashing) (call : BlobCall) (req : AuditReq) (s : HostState) (m : Manifest) (k : Text)
    (chunk : Bytes)
    → contains s.held req.cid ≡ true
    → manifest_of call req.cid ≡ some m
    → get_elem? m.chunks req.chunk_index ≡ some k
    → call.get_blob k ≡ some chunk
    → (proof : Text) × ((do_audit hs call req s).0.proof ≡ some proof)
      × (verify hs chunk req.nonce proof ≡ true)
unfolding do_audit
do_audit-verify hs call req s m k chunk held has at there =
    (prove hs chunk req.nonce, rw (held, has, at, there), verify-prove hs chunk req.nonce)
