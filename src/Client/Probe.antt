-- ===== src/Client/Probe.antt =====
-- `audit_replica` of src/client.rs: challenge one host with the chunk and the nonce that the beacon
-- chooses, and check its proof against the auditor's own copy of the chunk.
pub mod EndToEnd
use ce_pin.Prelude.{
  ℕ, zero, suc, ◌+◌, ◌/◌, ◌%◌, ◌≡◌, Bool, false, Option, none, some, List, [], ◌∷◌, ◌++◌, length,
  get_elem?, ltb, if◌then◌else◌,
}
use ce_pin.Prelude.Text.{Text, lit, text_eq, utf8}
use ce_pin.Prelude.Text.Decimal.{show_nat}
use ce_pin.Files.{Bytes}
use ce_pin.Audit.{Hashing, challenge_index, nonce_from_seed, verify}
use ce_pin.Proto.{AuditReq, AuditResp}
use ce_pin.Host.Requests.{Manifest}

-- The answers of the auditor's node and of the audited host; `none` is an error. `cid` is
-- `ce_rs::cid`, the identifier of a blob's bytes.
pub record Auditor : Type 0 where
  pub get_blob : Text → Option Bytes
  pub parse_manifest : Bytes → Option Manifest
  pub beacon : Option Text
  pub cid : Bytes → Text
  pub request_audit : AuditReq → Option AuditResp

-- `format!("{}:{}:{}", beacon.hash, cid, index)`
unfoldable pub seed_text : Text → Text → ℕ → Text
unfolding show_nat
seed_text beacon cid index = beacon ++ (lit ":" ++ cid ++ (lit ":" ++ show_nat index))

pub data AuditResult : Type 0 where
  audited : Bool → AuditResult
  audit_error index_panic : AuditResult

abbrev check_proof : Hashing → Bytes → Text → Option Text → AuditResult
check_proof hs chunk nonce none = audited false
check_proof hs chunk nonce (some proof) = audited (verify hs chunk nonce proof)

abbrev pub check_reply : Hashing → Bytes → Text → Option AuditResp → AuditResult
check_reply hs chunk nonce none = audit_error
check_reply hs chunk nonce (some resp) = check_proof hs chunk nonce resp.proof

-- The nonce that the auditor derives for a challenge.
unfoldable pub audit_nonce : Hashing → Text → Text → ℕ → Text
unfolding seed_text
audit_nonce hs beacon cid index = nonce_from_seed hs (utf8 (seed_text beacon cid index))

abbrev pub challenge :
    Hashing → Auditor → Text → Text → Text → ℕ → Text → Option Bytes → AuditResult
challenge hs a caps cid beacon index chunk_cid none = audit_error
challenge hs a caps cid beacon index chunk_cid (some expected_chunk) =
    let nonce = audit_nonce hs beacon cid index in
    if text_eq (a.cid expected_chunk) chunk_cid
    then check_reply hs expected_chunk nonce
        (a.request_audit (record { caps = caps; cid = cid; nonce = nonce; chunk_index = index }))
    else audit_error

abbrev pub challenge_chunk : Hashing → Auditor → Text → Text → Text → ℕ → Option Text → AuditResult
challenge_chunk hs a caps cid beacon index none = index_panic
challenge_chunk hs a caps cid beacon index (some chunk_cid) =
    challenge hs a caps cid beacon index chunk_cid (a.get_blob chunk_cid)

abbrev with_beacon : Hashing → Auditor → Text → Text → List Text → Option Text → AuditResult
with_beacon hs a caps cid chunks none = audit_error
with_beacon hs a caps cid chunks (some beacon) =
    let index = challenge_index hs beacon cid (length chunks) in
    challenge_chunk hs a caps cid beacon index (get_elem? chunks index)

abbrev pub with_chunks : Hashing → Auditor → Text → Text → List Text → AuditResult
with_chunks hs a caps cid [] = audited false
with_chunks hs a caps cid (k ∷ chunks) = with_beacon hs a caps cid (k ∷ chunks) a.beacon

abbrev pub with_manifest : Hashing → Auditor → Text → Text → Option Manifest → AuditResult
with_manifest hs a caps cid none = audit_error
with_manifest hs a caps cid (some m) = with_chunks hs a caps cid m.chunks

-- `client.get_blob(cid)`, then `serde_json::from_slice::<Manifest>`
unfoldable pub audit_manifest : Auditor → Text → Option Manifest
audit_manifest a cid = elim (a.get_blob cid) [ none ↦ none | some bytes ↦ a.parse_manifest bytes ]

-- `chunks[index]` panics out of range.
unfoldable pub audit_replica : Hashing → Auditor → Text → Text → AuditResult
unfolding audit_manifest audit_nonce
audit_replica hs a caps cid = with_manifest hs a caps cid (audit_manifest a cid)
