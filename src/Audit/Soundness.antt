-- ===== src/Audit/Soundness.antt =====
-- `challenge_index`, `prove` and `verify` of src/audit.rs: the range of the challenge and what a
-- passing proof tells of its maker.
use ce_pin.Prelude.{
  ℕ, ◌<◌, ◌≡◌, ◌≢◌, refl, sym, ap, ◌∙◌, true, some, [], ◌∷◌, ◌++◌, length, ◌⊎◌, inl, inr, arith,
  Bool-cases, length-append, take,
}
use native.Mathlib.Nat.{mod-lt}
use mathlib.Core.Bool.{false≢true}
use ce_pin.Prelude.Text.{Text, text_eq, utf8, lit}
use ce_pin.Prelude.Text.Laws.{text_eq_iff, text_eq_refl}
use ce_pin.Files.{Bytes}
use ce_pin.Audit.{Hashing, from_be, challenge_index, nonce_bytes, prove, verify}

-- The challenged index names a chunk of any object that has one, whatever the beacon and the hash.
pub challenge_index-lt :
    (hs : Hashing) (beacon cid : Text) (chunk_count : ℕ)
    → 0 < chunk_count
    → challenge_index hs beacon cid chunk_count < chunk_count
unfolding challenge_index
challenge_index-lt hs beacon cid chunk_count h =
    ground (arith, mod-lt (from_be 0 (take 8 (hs.sha256 (utf8 beacon ++ (lit "|" ++ utf8 cid))))) h)

-- Two texts with one digest.
pub record Collision (hs : Hashing) : Type 0 where
  pub one : Bytes
  pub other : Bytes
  pub differ : one ≢ other
  pub same_digest : hs.sha256 one ≡ hs.sha256 other

-- Hexadecimal text stands for its bytes.
abbrev pub Decodes : Hashing → Type 0
Decodes hs = (bytes : Bytes) → hs.decode (hs.encode bytes) ≡ some bytes

append_cancel :
    (as' bs xs ys : Bytes) → length xs ≡ length ys → as' ++ xs ≡ bs ++ ys → (as' ≡ bs) × (xs ≡ ys)
append_cancel [] [] xs ys l e = (refl, e)
append_cancel [] (b ∷ bs) xs ys l e = absurd (omega (arith, ap length e, length-append bs ys))
append_cancel (a ∷ as') [] xs ys l e = absurd (omega (arith, ap length e, length-append as' xs))
append_cancel (a ∷ as') (b ∷ bs) xs ys l e = ground (arith, append_cancel as' bs xs ys l)

some_inj : {x y : Bytes} → some x ≡ some y → x ≡ y
some_inj e = cc

-- The host that has the chunk answers to the auditor's satisfaction.
pub verify-prove :
    (hs : Hashing) (chunk : Bytes) (nonce : Text)
    → verify hs chunk nonce (prove hs chunk nonce) ≡ true
unfolding verify
verify-prove hs chunk nonce = text_eq_refl (prove hs chunk nonce)

-- A proof that was made from some bytes and some nonce and passes for the expected chunk and the
-- auditor's nonce, of the same length, was made from just these, or the hash has a collision.
pub verify-binds :
    (hs : Hashing) (expected chunk : Bytes) (nonce old : Text)
    → Decodes hs
    → length (nonce_bytes hs nonce) ≡ length (nonce_bytes hs old)
    → verify hs expected nonce (prove hs chunk old) ≡ true
    → ((expected ≡ chunk) × (nonce_bytes hs nonce ≡ nonce_bytes hs old)) ⊎ Collision hs
unfolding verify prove
verify-binds hs expected chunk nonce old decodes l h =
    let asked = expected ++ nonce_bytes hs nonce in
    let given = chunk ++ nonce_bytes hs old in
    let same_text = (text_eq_iff (hs.encode (hs.sha256 asked)) (hs.encode (hs.sha256 given))).0 h in
    let digests =
      some_inj
        (sym (decodes (hs.sha256 asked)) ∙ ap hs.decode same_text ∙ decodes (hs.sha256 given)) in
    elim (Bool-cases (text_eq asked given)) [
      | inl same ↦ inl (append_cancel expected chunk _ _ l ((text_eq_iff asked given).0 same))
      | inr differ ↦ inr (record {
        one = asked;
        other = given;
        differ = λ e. false≢true (sym differ ∙ (text_eq_iff asked given).1 e);
        same_digest = digests;
      })
    ]
