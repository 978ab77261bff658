-- ===== src/Client/Probe/EndToEnd.antt =====
-- `audit_replica` of src/client.rs against `do_audit` of src/host.rs.
use ce_pin.Prelude.{
  ℕ, zero, suc, ◌<◌, ◌≡◌, ◌≢◌, refl, ap, true, Option, none, some, Option-cases, Bool-cases, List,
  [], ◌∷◌, length, get_elem?, inl, inr, arith, ◌∙◌,
}
use ce_pin.Prelude.Text.{Text, text_eq}
use ce_pin.Files.{Bytes}
use ce_pin.Audit.{Hashing, challenge_index, verify}
use ce_pin.Audit.Soundness.{challenge_index-lt}
use ce_pin.Held.{contains}
use ce_pin.Proto.{AuditReq, AuditResp}
use ce_pin.Host.{HostState}
use ce_pin.Host.Requests.{Manifest, BlobCall, manifest_of, do_audit}
use ce_pin.Host.Requests.Possession.{do_audit-verify}
use ce_pin.Client.Probe.{
  Auditor, audited, index_panic, audit_nonce, audit_manifest, audit_replica, challenge, with_chunks,
  check_reply,
}

get_elem?-lt {ℓ} :
    {A : Type ℓ} (xs : List A) (i : ℕ) → i < length xs → (x : A) × (get_elem? xs i ≡ some x)
get_elem?-lt [] i h = absurd (omega arith)
get_elem?-lt (x ∷ xs) zero h = (x, refl)
get_elem?-lt (x ∷ xs) (suc i) h = get_elem?-lt xs i (omega arith)

-- The request that the auditor sends.
abbrev pub audit_req : Hashing → Text → Text → Text → ℕ → AuditReq
audit_req hs caps cid beacon index = record {
  caps = caps;
  cid = cid;
  nonce = audit_nonce hs beacon cid index;
  chunk_index = index;
}

-- What an audit finds on the auditor's side before it asks the host: the manifest with a chunk, the
-- beacon, the challenged chunk's name, and its own copy of the chunk, which has that name.
pub record Challenged (hs : Hashing) (a : Auditor) (cid : Text) : Type 0 where
  pub manifest : Manifest
  pub has_manifest : audit_manifest a cid ≡ some manifest
  pub beacon : Text
  pub has_beacon : a.beacon ≡ some beacon
  pub chunk_cid : Text
  pub in_range :
      get_elem? manifest.chunks (challenge_index hs beacon cid (length manifest.chunks))
      ≡ some chunk_cid
  pub chunk : Bytes
  pub has_chunk : a.get_blob chunk_cid ≡ some chunk
  pub is_named : text_eq (a.cid chunk) chunk_cid ≡ true

abbrev pub challenged_index : {hs : Hashing} {a : Auditor} {cid : Text} → Challenged hs a cid → ℕ
challenged_index {hs} {a} {cid} c = challenge_index hs c.beacon cid (length c.manifest.chunks)

no_chunk_ne : (i : ℕ) (k : Text) → get_elem? [] i ≡ some k → ⊥
no_chunk_ne i k h = cc

with_chunks-reply :
    (hs : Hashing) (a : Auditor) (caps cid : Text) (chunks : List Text) (beacon k : Text)
    (chunk : Bytes) (resp : AuditResp) (proof : Text)
    → let index = challenge_index hs beacon cid (length chunks) in
      a.beacon ≡ some beacon
      → get_elem? chunks index ≡ some k
      → a.get_blob k ≡ some chunk
      → text_eq (a.cid chunk) k ≡ true
      → a.request_audit (audit_req hs caps cid beacon index) ≡ some resp
      → resp.proof ≡ some proof
      → with_chunks hs a caps cid chunks
        ≡ audited (verify hs chunk (audit_nonce hs beacon cid index) proof)
with_chunks-reply hs a caps cid [] beacon k chunk resp proof b at there named r p =
    absurd (no_chunk_ne (challenge_index hs beacon cid 0) k at)
with_chunks-reply hs a caps cid (x ∷ chunks) beacon k chunk resp proof b at there named r p =
    rw (b, at, there, named, r, p) refl

-- Once the challenge is prepared, the result is that of checking the host's reply.
audit_replica-reply :
    (hs : Hashing) (a : Auditor) (caps cid : Text) (c : Challenged hs a cid) (resp : AuditResp)
    (proof : Text)
    → a.request_audit (audit_req hs caps cid c.beacon (challenged_index c)) ≡ some resp
    → resp.proof ≡ some proof
    → audit_replica hs a caps cid
      ≡ audited (verify hs c.chunk (audit_nonce hs c.beacon cid (challenged_index c)) proof)
unfolding audit_replica
audit_replica-reply hs a caps cid c resp proof r p = rw (c.has_manifest) (
    with_chunks-reply hs a caps cid c.manifest.chunks c.beacon c.chunk_cid c.chunk resp proof
      c.has_beacon c.in_range c.has_chunk c.is_named r p)

-- Where the auditor has a beacon and gets the manifest, which lists a chunk, and the challenged chunk,
-- whose CID is the one listed, and where each of its requests is answered by the host's `do_audit`, a
-- host that holds the CID and gets the same manifest and chunk passes the audit.
pub audit_replica-do_audit :
    (hs : Hashing) (a : Auditor) (caps cid : Text) (c : Challenged hs a cid) (call : BlobCall)
    (s : HostState)
    → ((req : AuditReq) → a.request_audit req ≡ some (do_audit hs call req s).0)
    → contains s.held cid ≡ true
    → manifest_of call cid ≡ some c.manifest
    → call.get_blob c.chunk_cid ≡ some c.chunk
    → audit_replica hs a caps cid ≡ audited true
audit_replica-do_audit hs a caps cid c call s asks held has there =
    let req = audit_req hs caps cid c.beacon (challenged_index c) in
    let (proof, gives, passes) =
      do_audit-verify hs call req s c.manifest c.chunk_cid c.chunk held has c.in_range there in
    audit_replica-reply hs a caps cid c (do_audit hs call req s).0 proof (asks req) gives
    ∙ ap audited passes

check_reply-no_panic :
    (hs : Hashing) (chunk : Bytes) (nonce : Text) (resp : Option AuditResp)
    → check_reply hs chunk nonce resp ≢ index_panic
check_reply-no_panic hs chunk nonce none = λ e. cc
check_reply-no_panic hs chunk nonce (some resp) = elim (Option-cases resp.proof) [
  | inl gone ↦ rw gone (λ e. cc)
  | inr (proof, gives) ↦ rw gives (λ e. cc)
]

challenge-no_panic :
    (hs : Hashing) (a : Auditor) (caps cid beacon : Text) (index : ℕ) (k : Text)
    (chunk : Option Bytes)
    → challenge hs a caps cid beacon index k chunk ≢ index_panic
challenge-no_panic hs a caps cid beacon index k none = λ e. cc
challenge-no_panic hs a caps cid beacon index k (some chunk) =
    elim (Bool-cases (text_eq (a.cid chunk) k)) [
      | inl named ↦ rw named (check_reply-no_panic hs chunk _ _)
      | inr other ↦ rw other (λ e. cc)
    ]

with_chunks-no_panic :
    (hs : Hashing) (a : Auditor) (caps cid : Text) (chunks : List Text)
    → with_chunks hs a caps cid chunks ≢ index_panic
with_chunks-no_panic hs a caps cid [] = λ e. cc
with_chunks-no_panic hs a caps cid (x ∷ chunks) = elim (Option-cases a.beacon) [
  | inl gone ↦ rw gone (λ e. cc)
  | inr (beacon, b) ↦
      let index = challenge_index hs beacon cid (length (x ∷ chunks)) in
      let (k, at) =
        get_elem?-lt (x ∷ chunks) index
          (challenge_index-lt hs beacon cid (length (x ∷ chunks)) (omega arith)) in
      rw (b, at) (challenge-no_panic hs a caps cid beacon index k (a.get_blob k))
]

-- The index that is challenged never falls outside the manifest.
pub audit_replica-no_panic :
    (hs : Hashing) (a : Auditor) (caps cid : Text) → audit_replica hs a caps cid ≢ index_panic
unfolding audit_replica
audit_replica-no_panic hs a caps cid = elim (Option-cases (audit_manifest a cid)) [
  | inl gone ↦ rw gone (λ e. cc)
  | inr (m, has) ↦ rw has (with_chunks-no_panic hs a caps cid m.chunks)
]
