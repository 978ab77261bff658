-- ===== src/Client/Requests.antt =====
-- The single requests of src/client.rs: publish, fetch, announce, discover, renew, release, probe.
use ce_pin.Prelude.{List, ℕ, Bool, Option, none, some, length}
use ce_pin.Prelude.Text.{Text}
use ce_pin.Files.{Bytes}
use ce_pin.Proto.{service_for, RenewReq, RenewResp, ReleaseReq, ReleaseResp, StatusReq, StatusResp}
use ce_pin.PinSet.{Replica}

-- The answers of the node, and through it of the hosts; `none` is an error. A request that was not
-- delivered and a reply that cannot be decoded are both errors.
pub record Node : Type 0 where
  pub put_object : Bytes → Option Text
  pub get_object : Text → Option Bytes
  pub advertise_service : Text → Bool
  pub find_service : Text → Option (List Text)
  pub height : Option ℕ
  pub request_renew : Text → RenewReq → Option RenewResp
  pub request_release : Text → ReleaseReq → Option ReleaseResp
  pub request_status : Text → StatusReq → Option StatusResp

-- The CID and the number of bytes.
unfoldable pub add_bytes : Node → Bytes → Option (Text × ℕ)
add_bytes node bytes = elim (node.put_object bytes) [
  | none ↦ none
  | some cid ↦ some (cid, length bytes)
]

unfoldable pub fetch : Node → Text → Option Bytes
fetch node cid = node.get_object cid

unfoldable pub announce : Node → Text → Bool
announce node cid = node.advertise_service (service_for cid)

unfoldable pub find_replicas : Node → Text → Option (List Text)
find_replicas node cid = node.find_service (service_for cid)

unfoldable pub renew_req : Text → Text → ℕ → Text → RenewReq
renew_req caps cid new_expiry_height rent_per_gb_hour = record {
  caps = caps;
  cid = cid;
  expiry_height = new_expiry_height;
  rent_per_gb_hour = rent_per_gb_hour;
}

unfoldable pub renew : Node → Text → Text → Text → ℕ → Text → Option RenewResp
unfolding renew_req
renew node host caps cid new_expiry_height rent_per_gb_hour =
    node.request_renew host (renew_req caps cid new_expiry_height rent_per_gb_hour)

unfoldable pub release_req : Text → Text → ReleaseReq
release_req caps cid = record { caps = caps; cid = cid }

unfoldable pub release : Node → Replica → Text → Text → Option ReleaseResp
unfolding release_req
release node replica caps cid = node.request_release replica.holder (release_req caps cid)

unfoldable pub probe_status : Node → Text → Text → Text → Option StatusResp
probe_status node host caps cid = node.request_status host (record { caps = caps; cid = cid })
