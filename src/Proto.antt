-- ===== src/Proto.antt =====
-- src/proto.rs: the messages of the `pin/*` protocol, the abilities that gate them, and the service
-- strings of the DHT. A reply's `reason` is the data that its text is formatted from.
use ce_pin.Prelude.{ℕ, Bool, Option, ◌++◌}
use ce_pin.Prelude.Text.{Text, lit}
use ce_pin.Config.{Rejection}

abbrev pub topic_prefix : Text
topic_prefix = lit "pin/"

abbrev pub ability_store : Text
ability_store = lit "pin:store"

abbrev pub ability_read : Text
ability_read = lit "pin:read"

abbrev pub ability_audit : Text
ability_audit = lit "pin:audit"

abbrev pub ability_release : Text
ability_release = lit "pin:release"

abbrev pub ability_renew : Text
ability_renew = lit "pin:store"

unfoldable pub service_for : Text → Text
service_for cid = lit "pin:" ++ cid

abbrev pub service_host : Text
service_host = lit "pin:host"

pub data Reason : Type 0 where
  declined : Rejection → Reason
  fetch_failed : Reason
  fetch_timed_out : ℕ → Reason
  fetched_too_large : ℕ → ℕ → Reason
  not_held_locally manifest_unavailable chunk_index_out_of_range chunk_unavailable : Reason

pub record OfferReq : Type 0 where
  pub caps : Text
  pub cid : Text
  pub bytes_len : ℕ
  pub rent_per_gb_hour : Text
  pub expiry_height : ℕ

pub record OfferResp : Type 0 where
  pub accepted : Bool
  pub stored_bytes : ℕ
  pub reason : Option Reason

pub record RenewReq : Type 0 where
  pub caps : Text
  pub cid : Text
  pub expiry_height : ℕ
  pub rent_per_gb_hour : Text

pub record RenewResp : Type 0 where
  pub renewed : Bool
  pub expiry_height : ℕ
  pub reason : Option Reason

pub record AuditReq : Type 0 where
  pub caps : Text
  pub cid : Text
  pub nonce : Text
  pub chunk_index : ℕ

pub record AuditResp : Type 0 where
  pub proof : Option Text
  pub reason : Option Reason

pub record ReleaseReq : Type 0 where
  pub caps : Text
  pub cid : Text

pub record ReleaseResp : Type 0 where
  pub released : Bool
  pub reason : Option Reason

pub record StatusReq : Type 0 where
  pub caps : Text
  pub cid : Text

pub record StatusResp : Type 0 where
  pub held : Bool
  pub bytes : ℕ
