-- ===== src/Client.antt =====
-- src/client.rs: the publisher's side: which hosts are candidates, the offers of `replicate` and
-- their payment channels, and the rent. The node's API is a parameter.
pub mod Rent
pub mod Replicas
pub mod Probe
pub mod Requests
pub mod Placing
use ce_pin.Prelude.{
  ℕ, suc, ◌+◌, ◌-◌, ◌*◌, ◌/◌, max, ◌≡◌, Bool, true, false, ◌&&◌, ◌||◌, Option, none, some, List, [],
  ◌∷◌, ◌++◌, not, ltb, if◌then◌else◌, unwrap_or, sat_mul_128, ℤ, pos, negsuc, as_i128,
}
use ce_pin.Prelude.Text.{Text, text_eq, is_empty, contains}
use ce_pin.Config.{offered_rent}
use ce_pin.Placement.{Candidate, select, fault_domain_from_tags}
use ce_pin.PinSet.{Replica}
use ce_pin.Proto.{OfferReq, OfferResp}

-- One host of the capacity atlas.
pub record AtlasEntry : Type 0 where
  pub node_id : Text
  pub last_seen_secs : ℕ
  pub mem_mb : ℕ
  pub tags : List Text

-- What the node answers to `candidate_hosts`; `none` is an error.
pub record Network : Type 0 where
  pub advertised : Option (List Text)
  pub atlas : Option (List AtlasEntry)
  pub self_id : Option Text
  pub delivered_work : Text → Option ℕ

abbrev is_self : Option Text → Text → Bool
is_self none id = false
is_self (some self_id) id = text_eq self_id id

abbrev candidate : Network → AtlasEntry → Candidate
candidate net e = record {
  node_id = e.node_id;
  delivered_work = unwrap_or (net.delivered_work e.node_id) 0;
  last_seen_secs = e.last_seen_secs;
  mem_mb = e.mem_mb;
  fault_domain = fault_domain_from_tags e.tags;
}

-- The loop over the atlas.
unfoldable pub collect_hosts : Network → List Text → List AtlasEntry → List Candidate
collect_hosts net advertised [] = []
collect_hosts net advertised (e ∷ atlas) =
    let rest = collect_hosts net advertised atlas in
    if contains advertised e.node_id && not (is_self net.self_id e.node_id)
    then candidate net e ∷ rest
    else rest

unfoldable pub candidate_hosts : Network → List Candidate
unfolding collect_hosts
candidate_hosts net = collect_hosts net (unwrap_or net.advertised []) (unwrap_or net.atlas [])

abbrev pub gib : ℕ
gib = 1024 * 1024 * 1024

-- `credit` is `ce_rs::CREDIT`. The milli-GB are rounded up, and at least one.
unfoldable pub channel_capacity_for : ℕ → ℕ → ℕ → ℕ → ℤ
channel_capacity_for credit bytes_len rent_per_gb_hour_base lease_hours =
    let milli_gb = max ((sat_mul_128 bytes_len 1000 + gib - 1) / gib) 1 in
    let est = sat_mul_128 (sat_mul_128 rent_per_gb_hour_base milli_gb) lease_hours / 1000 in
    as_i128 (max est credit)

-- The height of the chain is 0 where the node does not answer.
unfoldable pub lease_hours : Option ℕ → ℕ → ℕ
lease_hours height expiry_height = max ((expiry_height - unwrap_or height 0) / 360) 1

unfoldable pub rent_owed_base : ℕ → ℕ → ℕ → ℕ
rent_owed_base bytes hours rent_per_gb_hour_base =
    let milli_gb = sat_mul_128 bytes 1000 / gib in
    sat_mul_128 (sat_mul_128 rent_per_gb_hour_base milli_gb) hours / 1000

-- What a host and the node answer while `replicate` deals with that host; `none` is an error.
-- `credit` is `ce_rs::CREDIT`.
pub record Market : Type 0 where
  pub credit : ℕ
  pub offer_reply : Text → OfferReq → Option OfferResp
  pub height : Text → Option ℕ
  pub channel_open : Text → ℤ → ℕ → Option Text

-- What `replicate` asks of each host.
pub record Terms : Type 0 where
  pub cid : Text
  pub bytes_len : ℕ
  pub rent_per_gb_hour : Text
  pub expiry_height : ℕ
  pub caps : Text

unfoldable pub offer_req : Terms → OfferReq
offer_req t = record {
  caps = t.caps;
  cid = t.cid;
  bytes_len = t.bytes_len;
  rent_per_gb_hour = t.rent_per_gb_hour;
  expiry_height = t.expiry_height;
}

-- One host is asked to pin; `none` is a request that failed or a reply that cannot be decoded.
abbrev pub offer : Market → Text → Terms → Option OfferResp
offer market host t = market.offer_reply host (offer_req t)

-- The rent channel of a paid pin; a failure to open it leaves the pin without one.
unfoldable pub open_channel : Market → Terms → Text → Text
unfolding channel_capacity_for lease_hours
open_channel market t host =
    let rent_base = offered_rent t.rent_per_gb_hour in
    if ltb 0 rent_base && ltb 0 t.expiry_height
    then unwrap_or
        (market.channel_open host
          (channel_capacity_for market.credit t.bytes_len rent_base
            (lease_hours (market.height host) t.expiry_height))
          t.expiry_height)
        []
    else []

abbrev pub accepted : Option OfferResp → Bool
accepted none = false
accepted (some r) = r.accepted

-- The loop over the targets.
unfoldable pub place : Market → Terms → List Text → List Replica
unfolding open_channel offer_req
place market t [] = []
place market t (host ∷ hosts) =
    let rest = place market t hosts in
    if accepted (offer market host t)
    then record { holder = host; channel_id = open_channel market t host; last_proof_ok = true }
      ∷ rest
    else rest

abbrev pub place_any : Market → Terms → List Text → Option (List Replica)
place_any market t [] = none
place_any market t (host ∷ hosts) = some (place market t (host ∷ hosts))

-- An error where no host is eligible.
unfoldable pub replicate : Market → Terms → ℕ → List Candidate → List Text → Option (List Replica)
unfolding select place
replicate market t replication candidates exclude =
    place_any market t (select candidates replication exclude)

-- A receipt that the node is asked to sign.
pub record Receipt : Type 0 where
  pub channel_id : Text
  pub holder : Text
  pub cumulative : ℤ

-- The receipt of `pay_rent`, and none for a replica without a channel.
unfoldable pub pay_rent : Replica → ℕ → Option Receipt
pay_rent r cumulative_base =
    if is_empty r.channel_id
    then none
    else some (record {
      channel_id = r.channel_id;
      holder = r.holder;
      cumulative = as_i128 cumulative_base;
    })
