-- ===== src/Audit.antt =====
-- src/audit.rs: the challenge and the proof of retrievability. SHA-256 and the hexadecimal coding
-- are parameters.
pub mod Soundness
use ce_pin.Prelude.{
  ℕ, ◌+◌, ◌*◌, ◌%◌, ◌≡◌, Bool, Option, none, some, List, [], ◌∷◌, ◌++◌, take, ◌==◌, if◌then◌else◌,
}
use ce_pin.Prelude.Text.{Text, lit, text_eq, utf8}
use ce_pin.Files.{Bytes}

-- The crates `sha2` and `hex`.
pub record Hashing : Type 0 where
  pub sha256 : Bytes → Bytes
  pub encode : Bytes → Text
  pub decode : Text → Option Bytes

-- `u64::from_be_bytes`
from_be : ℕ → Bytes → ℕ
from_be acc [] = acc
from_be acc (b ∷ bytes) = from_be (acc * 256 + b) bytes

unfoldable pub challenge_index : Hashing → Text → Text → ℕ → ℕ
unfolding from_be
challenge_index hs beacon_hash cid chunk_count =
    if chunk_count == 0
    then 0
    else let digest = hs.sha256 (utf8 beacon_hash ++ (lit "|" ++ utf8 cid)) in
      from_be 0 (take 8 digest) % chunk_count

abbrev or_raw : Text → Option Bytes → Bytes
or_raw nonce_hex none = utf8 nonce_hex
or_raw nonce_hex (some nonce) = nonce

-- The nonce as it enters the hash: its raw bytes where it is not hexadecimal.
unfoldable pub nonce_bytes : Hashing → Text → Bytes
nonce_bytes hs nonce_hex = or_raw nonce_hex (hs.decode nonce_hex)

unfoldable pub prove : Hashing → Bytes → Text → Text
unfolding nonce_bytes
prove hs chunk_bytes nonce_hex = hs.encode (hs.sha256 (chunk_bytes ++ nonce_bytes hs nonce_hex))

unfoldable pub verify : Hashing → Bytes → Text → Text → Bool
verify hs expected_chunk nonce_hex proof = text_eq (prove hs expected_chunk nonce_hex) proof

unfoldable pub nonce_from_seed : Hashing → Bytes → Text
nonce_from_seed hs seed = hs.encode (hs.sha256 seed)
