-- ===== src/Host/Requests.antt =====
-- The other handlers of src/host.rs: `do_audit`, `do_status`, `do_renew`, and the release that
-- `handle_inner` makes itself.
pub mod Cases
pub mod Possession
pub mod Renewal
use ce_pin.Prelude.{
  ℕ, ◌≡◌, Bool, true, false, not, ◌&&◌, ◌||◌, Option, none, some, List, get_elem?, ltb, ◌==◌,
  if◌then◌else◌,
}
use ce_pin.Prelude.Text.{Text, trim, is_empty}
use ce_pin.Prelude.Map
use ce_pin.Files.{Bytes}
use ce_pin.Audit.{Hashing, prove}
use ce_pin.Held.{HeldEntry, HeldSet, contains, touch, remove}
use ce_pin.Held.Storage.{SaveResult, saved, save_failed}
use ce_pin.Metrics.{audit_passed, audit_failed, count_release}
use ce_pin.Proto.{
  AuditReq, AuditResp, StatusReq, StatusResp, RenewReq, RenewResp, ReleaseReq, ReleaseResp, Reason,
  not_held_locally, manifest_unavailable, chunk_index_out_of_range, chunk_unavailable,
}
use ce_pin.Host.{Host, HostState, Interference, Disk, persist, count}

-- `ce_rs::Manifest`
pub record Manifest : Type 0 where
  pub total_size : ℕ
  pub chunks : List Text

-- The blobs of the node, the parser of manifests, and what happens while the handler waits for them.
pub record BlobCall : Type 0 where
  pub get_blob : Text → Option Bytes
  pub parse_manifest : Bytes → Option Manifest
  pub while_reading : Interference
  pub now : ℕ

-- `client.get_blob(cid)`, then `serde_json::from_slice::<Manifest>`
unfoldable pub manifest_of : BlobCall → Text → Option Manifest
manifest_of call cid = elim (call.get_blob cid) [
  | none ↦ none
  | some bytes ↦ call.parse_manifest bytes
]

abbrev pub no_proof : Reason → AuditResp
no_proof r = record { proof = none; reason = some r }

-- The gate: only a CID of the held-set is answered for.
unfoldable pub audit_held_locally : HeldSet → Text → Bool
audit_held_locally held cid = contains held cid

abbrev touch_held : Text → ℕ → HostState → HostState
touch_held cid now s = record s { held = touch s.held cid now }

unfoldable pub answer_chunk :
    Hashing → BlobCall → AuditReq → HostState → Option Bytes → AuditResp × HostState
unfolding touch
answer_chunk hs call req s none = (no_proof chunk_unavailable, count audit_failed s)
answer_chunk hs call req s (some chunk) = (
  record { proof = some (prove hs chunk req.nonce); reason = none },
  touch_held req.cid call.now (count audit_passed s),
)

abbrev pub find_chunk :
    Hashing → BlobCall → AuditReq → HostState → Option Text → AuditResp × HostState
find_chunk hs call req s none = (no_proof chunk_index_out_of_range, count audit_failed s)
find_chunk hs call req s (some chunk_cid) = answer_chunk hs call req s (call.get_blob chunk_cid)

abbrev pub answer_manifest :
    Hashing → BlobCall → AuditReq → HostState → Option Manifest → AuditResp × HostState
answer_manifest hs call req s none = (no_proof manifest_unavailable, count audit_failed s)
answer_manifest hs call req s (some m) =
    find_chunk hs call req s (get_elem? m.chunks req.chunk_index)

unfoldable pub do_audit : Hashing → BlobCall → AuditReq → HostState → AuditResp × HostState
unfolding audit_held_locally answer_chunk manifest_of
do_audit hs call req s =
    if audit_held_locally s.held req.cid
    then answer_manifest hs call req (call.while_reading s) (manifest_of call req.cid)
    else (no_proof not_held_locally, count audit_failed s)

abbrev pub answer_status :
    BlobCall → StatusReq → HostState → Option Manifest → StatusResp × HostState
answer_status call req s none = (record { held = false; bytes = 0 }, s)
answer_status call req s (some m) =
    (record { held = true; bytes = m.total_size }, touch_held req.cid call.now s)

unfoldable pub do_status : BlobCall → StatusReq → HostState → StatusResp × HostState
unfolding manifest_of touch
do_status call req s =
    if contains s.held req.cid
    then answer_status call req (call.while_reading s) (manifest_of call req.cid)
    else (record { held = false; bytes = 0 }, s)

-- What a renewal does to the entry: a later expiry, or any on an open-ended lease, replaces the old
-- one, and a rent that is not blank replaces the old rent.
unfoldable pub renew_entry : RenewReq → ℕ → HeldEntry → HeldEntry
renew_entry req now e = record e {
  expiry_height =
      if ltb e.expiry_height req.expiry_height || e.expiry_height == 0
      then req.expiry_height
      else e.expiry_height;
  rent_per_gb_hour =
      if is_empty (trim req.rent_per_gb_hour) then e.rent_per_gb_hour else req.rent_per_gb_hour;
  last_access = now;
}

abbrev pub renew_found :
    Host → Disk → ℕ → RenewReq → HostState → Option HeldEntry → RenewResp × HostState
renew_found host disk now req s none =
    (record { renewed = false; expiry_height = 0; reason = some not_held_locally }, s)
renew_found host disk now req s (some e) =
    let entries' = Map.modify req.cid (renew_entry req now) s.held.entries in
    let extended = record s { held = record (s.held) { entries = entries' } } in
    let (_, kept) = persist host disk extended in
    (
      record {
        renewed = true;
        expiry_height = (renew_entry req now e).expiry_height;
        reason = none;
      },
      kept,
    )

unfoldable pub do_renew : Host → Disk → ℕ → RenewReq → HostState → RenewResp × HostState
unfolding persist renew_entry
do_renew host disk now req s = renew_found host disk now req s (Map.lookup req.cid s.held.entries)

abbrev pub released_if : Bool → SaveResult × HostState → Option ReleaseResp × HostState
released_if was_held (save_failed, s) = (none, s)
released_if true (saved, s) =
    (some (record { released = true; reason = none }), count count_release s)
released_if false (saved, s) = (some (record { released = false; reason = none }), s)

-- `none` is the error of a save that failed: the pin is gone from memory all the same.
unfoldable pub do_release : Host → Disk → ReleaseReq → HostState → Option ReleaseResp × HostState
unfolding persist
do_release host disk req s =
    released_if (contains s.held req.cid)
      (persist host disk (record s { held = (remove s.held req.cid).0 }))
