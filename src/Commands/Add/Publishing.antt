-- ===== src/Commands/Add/Publishing.antt =====
-- `cmd_add` of src/main.rs: what stands before the record of a pin, the file, its rent and the upload.
use ce_pin.Prelude.{
  ℕ, ◌≤◌, ◌≢◌, ltb, ◌&&◌, ◌≡◌, refl, sym, ap, ◌∙◌, false, Option, none, some, inl, inr, arith,
  Bool-cases, Option-cases, ℤ, length,
}
use ce_pin.Commands.{
  Error, World, bad_rent, input_unreadable, publish_failed, show_int, stat_failed, too_large,
}
use ce_pin.Client.Requests.{add_bytes}
use ce_pin.Commands.Add.{AddArgs, Published, published, refused, publish, prepare}
use ce_pin.Files.{Bytes}

published_inj : (p q : Published) → published p ≡ published q → p ≡ q
published_inj p q h = cc

-- What went into a published object: the file's bytes, all of them, within the limit for its size,
-- and the amount that the rent was parsed as.
pub record IsPublished (w : World) (a : AddArgs) (p : Published) : Type 0 where
  pub size : ℕ
  pub has_size : w.file_size a.file ≡ some size
  pub in_limit : a.max_size ≢ 0 → size ≤ a.max_size
  pub bytes : Bytes
  pub is_file : w.file_bytes a.file ≡ some bytes
  pub uploaded : w.node.put_object bytes ≡ some p.cid
  pub real_size : p.bytes_len ≡ length bytes
  pub amount : ℤ
  pub is_rent : w.parse_credits a.rent ≡ some amount
  pub is_shown : p.rent_base ≡ show_int amount

no_error : (e : Error) (p : Published) → refused e ≡ published p → ⊥
no_error e p h = cc

Parts : World → AddArgs → Bytes → Published → Type 0
Parts w a bytes p =
    (amount : ℤ) × (w.parse_credits a.rent ≡ some amount)
    × (w.node.put_object bytes ≡ some p.cid)
    × (p.bytes_len ≡ length bytes)
    × (p.rent_base ≡ show_int amount)

publish-Parts :
    (w : World) (a : AddArgs) (bytes : Bytes) (rent : Option ℤ) (p : Published)
    → w.parse_credits a.rent ≡ rent
    → publish w bytes rent ≡ published p
    → Parts w a bytes p
unfolding add_bytes Parts
publish-Parts w a bytes none p e h = absurd (no_error bad_rent p h)
publish-Parts w a bytes (some amount) p e h = elim (Option-cases (w.node.put_object bytes)) [
  | inl none_up ↦ absurd (no_error publish_failed p (rw (none_up, publish) at h))
  | inr (cid, up) ↦
      let q : Published = record {
        cid = cid;
        bytes_len = length bytes;
        rent_base = show_int amount;
      } in
      let same : q ≡ p = published_inj q p (rw (up, publish) at h) in
      (
        amount,
        e,
        up ∙ ap (λ (x : Published). some x.cid) same,
        ap (λ (x : Published). x.bytes_len) (sym same),
        ap (λ (x : Published). x.rent_base) (sym same),
      )
]

limit_lem :
    (max_size size : ℕ)
    → (ltb 0 max_size && ltb max_size size) ≡ false
    → max_size ≢ 0
    → size ≤ max_size
limit_lem max_size size h n = ground arith

pub prepare-IsPublished :
    (w : World) (a : AddArgs) (p : Published) → prepare w a ≡ published p → IsPublished w a p
unfolding prepare Parts
prepare-IsPublished w a p h = elim (Option-cases (w.file_size a.file)) [
  | inl unsized ↦ absurd (no_error stat_failed p (rw (unsized, prepare) at h))
  | inr (size, sized) ↦ elim (Bool-cases (ltb 0 a.max_size && ltb a.max_size size)) [
    | inl big ↦ absurd (no_error too_large p (rw (sized, big, prepare) at h))
    | inr fits ↦ elim (Option-cases (w.file_bytes a.file)) [
      | inl unread ↦ absurd (no_error input_unreadable p (rw (sized, fits, unread, prepare) at h))
      | inr (bytes, is_read) ↦
          let (amount, is_rent, uploaded, real_size, is_shown) =
            publish-Parts w a bytes (w.parse_credits a.rent) p refl
              (rw (sized, fits, is_read, prepare) at h) in
          record {
            size = size;
            has_size = sized;
            in_limit = limit_lem a.max_size size fits;
            bytes = bytes;
            is_file = is_read;
            uploaded = uploaded;
            real_size = real_size;
            amount = amount;
            is_rent = is_rent;
            is_shown = is_shown;
          }
    ]
  ]
]
