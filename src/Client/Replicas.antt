-- ===== src/Client/Replicas.antt =====
-- `candidate_hosts` and `replicate` of src/client.rs: which hosts a pin is placed on.
use ce_pin.Prelude.{
  ℕ, ◌≤◌, ◌≡◌, refl, ap, true, false, Option, none, some, List, [], ◌∷◌, length, map, All, inl, inr,
  arith, Bool-cases,
}
use ce_pin.Prelude.Order.Sort.{Pairs}
use ce_pin.Prelude.Text.{Text, text_eq, contains}
use ce_pin.Prelude.Map.Removal.{IsNodup}
use ce_pin.Placement.{Candidate, select}
use ce_pin.Placement.Selection.{Distinct, select-fresh, select-length_le}
use ce_pin.PinSet.{Replica}
use ce_pin.Prelude.{◌<◌, ◌⊎◌, ltb, lt→ltb, unwrap_or}
use ce_pin.Client.{offered_rent, lease_hours}
use ce_pin.Client.{channel_capacity_for}
use ce_pin.Client.{
  AtlasEntry, Network, is_self, candidate, collect_hosts, candidate_hosts, Market, Terms, offer_req,
  open_channel, accepted, place, place_any, replicate,
}

-- A candidate that is advertised and is not the publisher itself.
abbrev pub Listed : Option Text → List Text → Candidate → Type 0
Listed self_id advertised c =
    (contains advertised c.node_id ≡ true) × (is_self self_id c.node_id ≡ false)

abbrev pub DistinctEntries : AtlasEntry → AtlasEntry → Type 0
DistinctEntries a b = text_eq a.node_id b.node_id ≡ false

collect_hosts-Listed :
    (net : Network) (advertised : List Text) (atlas : List AtlasEntry)
    → All (Listed net.self_id advertised) (collect_hosts net advertised atlas)
unfolding collect_hosts
collect_hosts-Listed net advertised [] = tt
collect_hosts-Listed net advertised (e ∷ atlas) =
    ground (arith, collect_hosts-Listed net advertised atlas)

collect_hosts-far :
    (net : Network) (advertised : List Text) (e : AtlasEntry) (atlas : List AtlasEntry)
    → All (DistinctEntries e) atlas
    → All (Distinct (candidate net e)) (collect_hosts net advertised atlas)
unfolding collect_hosts
collect_hosts-far net advertised e [] h = tt
collect_hosts-far net advertised e (f ∷ atlas) h =
    ground (arith, collect_hosts-far net advertised e atlas h.1)

collect_hosts-Distinct :
    (net : Network) (advertised : List Text) (atlas : List AtlasEntry)
    → Pairs DistinctEntries atlas
    → Pairs Distinct (collect_hosts net advertised atlas)
unfolding collect_hosts
collect_hosts-Distinct net advertised [] h = tt
collect_hosts-Distinct net advertised (e ∷ atlas) h = ground (
  arith,
  collect_hosts-far net advertised e atlas h.0,
  collect_hosts-Distinct net advertised atlas h.1,
)

abbrev pub holders : List Replica → List Text
holders = map (λ r. r.holder)

-- A replica that was placed on a host which accepted the offer. If it is rented for a lease with an end,
-- its channel is the one that the node opened with the host, with the capacity for the rent of the whole
-- lease and until that end, or none if the node opened none; else it has no channel.
pub record Placed (market : Market) (t : Terms) (r : Replica) : Type 0 where
  pub did_accept : accepted (market.offer_reply r.holder (offer_req t)) ≡ true
  pub paid :
      0 < offered_rent t.rent_per_gb_hour
      → 0 < t.expiry_height
      → r.channel_id
        ≡ unwrap_or
            (market.channel_open r.holder
              (channel_capacity_for market.credit t.bytes_len
                (offered_rent t.rent_per_gb_hour)
                (lease_hours (market.height r.holder) t.expiry_height))
              t.expiry_height)
            []
  pub unpaid : (offered_rent t.rent_per_gb_hour ≡ 0) ⊎ (t.expiry_height ≡ 0) → r.channel_id ≡ []

open_channel-paid :
    (market : Market) (t : Terms) (host : Text)
    → 0 < offered_rent t.rent_per_gb_hour
    → 0 < t.expiry_height
    → open_channel market t host
      ≡ unwrap_or
          (market.channel_open host
            (channel_capacity_for market.credit t.bytes_len
              (offered_rent t.rent_per_gb_hour)
              (lease_hours (market.height host) t.expiry_height))
            t.expiry_height)
          []
unfolding open_channel
open_channel-paid market t host rented ends =
    rw (lt→ltb 0 (offered_rent t.rent_per_gb_hour) rented, lt→ltb 0 t.expiry_height ends) refl

open_channel-unpaid :
    (market : Market) (t : Terms) (host : Text)
    → (offered_rent t.rent_per_gb_hour ≡ 0) ⊎ (t.expiry_height ≡ 0)
    → open_channel market t host ≡ []
unfolding open_channel
open_channel-unpaid market t host (inl free) = rw free refl
open_channel-unpaid market t host (inr endless) =
    elim (Bool-cases (ltb 0 (offered_rent t.rent_per_gb_hour))) [
      | inl rented ↦ rw (rented, endless) refl
      | inr free ↦ rw free refl
    ]

place-Placed :
    (market : Market) (t : Terms) (hosts : List Text) → All (Placed market t) (place market t hosts)
unfolding place
place-Placed market t [] = tt
place-Placed market t (host ∷ hosts) =
    elim (Bool-cases (accepted (market.offer_reply host (offer_req t)))) [
      | inl yes' ↦ rw yes' (
        record {
          did_accept = yes';
          paid = open_channel-paid market t host;
          unpaid = open_channel-unpaid market t host;
        },
        place-Placed market t hosts,
      )
      | inr no' ↦ rw no' (place-Placed market t hosts)
    ]

place-All {ℓ} :
    (P : Text → Type ℓ) (market : Market) (t : Terms) (hosts : List Text)
    → All P hosts
    → All (λ r. P r.holder) (place market t hosts)
unfolding place
place-All P market t [] h = tt
place-All P market t (host ∷ hosts) h = ground (arith, place-All P market t hosts h.1)

place-length_le :
    (market : Market) (t : Terms) (hosts : List Text) → length (place market t hosts) ≤ length hosts
unfolding place
place-length_le market t [] = omega arith
place-length_le market t (host ∷ hosts) = ground (arith, place-length_le market t hosts)

place-contains :
    (market : Market) (t : Terms) (hosts : List Text) (x : Text)
    → contains hosts x ≡ false
    → contains (holders (place market t hosts)) x ≡ false
unfolding place contains
place-contains market t [] x h = refl
place-contains market t (host ∷ hosts) x h = ground (arith, place-contains market t hosts x)

place-IsNodup :
    (market : Market) (t : Terms) (hosts : List Text)
    → IsNodup hosts
    → IsNodup (holders (place market t hosts))
unfolding place
place-IsNodup market t [] h = tt
place-IsNodup market t (host ∷ hosts) h =
    ground (arith, place-contains market t hosts host h.0, place-IsNodup market t hosts h.1)

-- Where the atlas lists no node twice, the candidates are different nodes, each advertised as a
-- pinning host, and the publisher itself is none of them.
pub candidate_hosts-Listed :
    (net : Network) (atlas : List AtlasEntry)
    → net.atlas ≡ some atlas
    → Pairs DistinctEntries atlas
    → (advertised : List Text) → net.advertised ≡ some advertised
    → Pairs Distinct (candidate_hosts net)
      × All (Listed net.self_id advertised) (candidate_hosts net)
unfolding candidate_hosts
candidate_hosts-Listed net atlas a d advertised b =
    rw (a, b)
      (collect_hosts-Distinct net advertised atlas d, collect_hosts-Listed net advertised atlas)

no_hosts_ne : {rs : List Replica} → none ≡ some rs → ⊥
no_hosts_ne h = cc

place_any-some :
    (market : Market) (t : Terms) (hosts : List Text) (rs : List Replica)
    → place_any market t hosts ≡ some rs
    → rs ≡ place market t hosts
place_any-some market t [] rs e = absurd (no_hosts_ne e)
place_any-some market t (host ∷ hosts) rs e = cc

replicate-place :
    (market : Market) (t : Terms) (n : ℕ) (cs : List Candidate) (exclude : List Text)
    (rs : List Replica)
    → replicate market t n cs exclude ≡ some rs
    → rs ≡ place market t (select cs n exclude)
unfolding replicate
replicate-place market t n cs exclude rs e = place_any-some market t (select cs n exclude) rs e

pub replicate-length_le :
    (market : Market) (t : Terms) (n : ℕ) (cs : List Candidate) (exclude : List Text)
    (rs : List Replica)
    → replicate market t n cs exclude ≡ some rs
    → length rs ≤ n
replicate-length_le market t n cs exclude rs e =
    let hosts = select cs n exclude in
    omega (
      arith,
      ap length (replicate-place market t n cs exclude rs e),
      place-length_le market t hosts,
      select-length_le cs n exclude,
    )

pub replicate-Placed :
    (market : Market) (t : Terms) (n : ℕ) (cs : List Candidate) (exclude : List Text)
    (rs : List Replica)
    → Pairs Distinct cs
    → replicate market t n cs exclude ≡ some rs
    → (length rs ≤ n)
      × IsNodup (holders rs)
      × All (λ r. contains exclude r.holder ≡ false) rs
      × All (Placed market t) rs
replicate-Placed market t n cs exclude rs d e =
    let hosts = select cs n exclude in
    let (short, kept_off, once) = select-fresh cs n exclude d in
    let fewer = place-length_le market t hosts in
    rw (replicate-place market t n cs exclude rs e) (
      omega (arith, short, fewer),
      place-IsNodup market t hosts once,
      place-All (λ x. contains exclude x ≡ false) market t hosts kept_off,
      place-Placed market t hosts,
    )
