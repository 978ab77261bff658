-- ===== src/Host/Offer.antt =====
-- `do_offer` of src/host.rs: admission, the fetch, the second size check, and the commitment.
pub mod Capacity
pub mod Replies
use ce_pin.Prelude.{
  ℕ, ◌≡◌, Bool, true, false, not, ◌&&◌, Option, none, some, List, length, ltb, if◌then◌else◌,
}
use ce_pin.Prelude.Text.{Text}
use ce_pin.Files.{Bytes}
use ce_pin.Held.{HeldEntry, HeldSet, contains, expired, remove_each, total_bytes, insert}
use ce_pin.Config.{HostConfig, Admission, admitted, rejected, admit}
use ce_pin.Metrics.{offer_accepted, offer_declined, offer_failed}
use ce_pin.Proto.{
  OfferReq, OfferResp, Reason, declined, fetch_failed, fetch_timed_out, fetched_too_large,
  service_for,
}
use ce_pin.Host.{Host, HostState, Interference, Disk, persist, count, advertise, height_or_zero}

-- `tokio::time::timeout(.., client.get_object(..))`
pub data Fetched : Type 0 where
  object : Bytes → Fetched
  failed timed_out : Fetched

-- One call of `do_offer` as the world answers it.
pub record OfferCall : Type 0 where
  pub height : Option ℕ
  pub while_status : Interference
  pub while_fetching : Interference
  pub fetched : Fetched
  pub pinned_at : ℕ
  pub last_access : ℕ
  pub disk : Disk

abbrev pub refuse : Reason → OfferResp
refuse r = record { accepted = false; stored_bytes = 0; reason = some r }

-- The expired pins go before the held bytes are counted.
unfoldable pub drop_expired : ℕ → HostState → HostState
drop_expired height s = record s { held = remove_each (expired s.held height) s.held }

-- The admission of an object that is not yet held, in the state once the node has told the height.
abbrev pub admission_at : Host → Option ℕ → OfferReq → HostState → Admission × HostState
admission_at host height req s =
    let swept = drop_expired (height_or_zero height) s in
    (admit host.cfg req.bytes_len req.rent_per_gb_hour (total_bytes swept.held), swept)

-- The same after the wait for the node.
unfoldable pub admission : Host → OfferCall → OfferReq → HostState → Admission × HostState
unfolding drop_expired
admission host call req s = admission_at host call.height req (call.while_status s)

-- The entry that is recorded for an object of the given size.
abbrev pub new_entry : OfferCall → OfferReq → Text → ℕ → HeldEntry
new_entry call req publisher actual = record {
  bytes = actual;
  rent_per_gb_hour = req.rent_per_gb_hour;
  expiry_height = req.expiry_height;
  pinned_at = call.pinned_at;
  last_access = call.last_access;
  publisher = publisher;
}

-- Record the commitment, save it as far as the disk allows, and advertise it.
unfoldable pub commit : Host → OfferCall → OfferReq → Text → ℕ → HostState → OfferResp × HostState
unfolding persist
commit host call req publisher actual s =
    let holding = record s { held = insert s.held req.cid (new_entry call req publisher actual) } in
    let (_, kept) = persist host call.disk holding in
    (
      record { accepted = true; stored_bytes = actual; reason = none },
      count offer_accepted (advertise (service_for req.cid) kept),
    )

-- What the fetch brought, in the state after it: a new object is held against the limit again.
unfoldable pub settle :
    Host → OfferCall → OfferReq → Text → Bool → HostState → Fetched → OfferResp × HostState
unfolding commit
settle host call req publisher already_held t failed = (refuse fetch_failed, count offer_failed t)
settle host call req publisher already_held t timed_out =
    (refuse (fetch_timed_out host.cfg.fetch_timeout), count offer_failed t)
settle host call req publisher already_held t (object bytes) =
    let actual = length bytes in
    if not already_held && ltb host.cfg.max_object_bytes actual
    then (refuse (fetched_too_large actual host.cfg.max_object_bytes), count offer_declined t)
    else commit host call req publisher actual t

-- From the fetch on; `s` is the state before it.
unfoldable pub fetch_and_commit :
    Host → OfferCall → OfferReq → Text → Bool → HostState → OfferResp × HostState
unfolding settle
fetch_and_commit host call req publisher already_held s =
    settle host call req publisher already_held (call.while_fetching s) call.fetched

abbrev pub admit_then :
    Host → OfferCall → OfferReq → Text → Admission × HostState → OfferResp × HostState
admit_then host call req publisher (rejected r, t) = (refuse (declined r), count offer_declined t)
admit_then host call req publisher (admitted, t) = fetch_and_commit host call req publisher false t

-- Re-offering a held CID skips admission.
unfoldable pub do_offer : Host → OfferCall → OfferReq → Text → HostState → OfferResp × HostState
unfolding admission fetch_and_commit
do_offer host call req publisher s =
    if contains s.held req.cid
    then fetch_and_commit host call req publisher true s
    else admit_then host call req publisher (admission host call req s)
