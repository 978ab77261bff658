-- ===== src/Client/Placing.antt =====
-- `replicate` of src/client.rs against `do_offer` of src/host.rs: what the hosts hold afterwards.
pub mod Audited
use ce_pin.Prelude.{ℕ, ◌≡◌, refl, sym, ap, ◌∙◌, some, List, All, All-imp, length}
use ce_pin.Prelude.Text.{Text}
use ce_pin.Prelude.Map
use ce_pin.Prelude.Order.Sort.{Pairs}
use ce_pin.Files.{Bytes}
use ce_pin.Held.{HeldEntry}
use ce_pin.Placement.{Candidate}
use ce_pin.Placement.Selection.{Distinct}
use ce_pin.PinSet.{Replica}
use ce_pin.Proto.{OfferReq}
use ce_pin.Client.{Market, Terms, accepted, offer_req, replicate}
use ce_pin.Client.Replicas.{Placed, replicate-Placed}
use ce_pin.Host.{Host, HostState}
use ce_pin.Host.Offer.{OfferCall, object, do_offer}
use ce_pin.Host.Offer.Replies.{do_offer-Accepted}

-- The hosts of a network, each in its state and with what the world answers to its handler.
pub record Hosts : Type 0 where
  pub host : Text → Host
  pub call : Text → OfferCall
  pub state : Text → HostState
  pub publisher : Text

-- A market whose offers reach these hosts.
abbrev pub Reaches : Hosts → Market → Type 0
Reaches hosts market =
    (id : Text) (req : OfferReq)
    → market.offer_reply id req
      ≡ some (do_offer (hosts.host id) (hosts.call id) req hosts.publisher (hosts.state id)).0

-- The holder of a replica after the offer: it holds the bytes that it fetched under the CID, on the
-- terms of the publisher.
pub record HeldBy (hosts : Hosts) (t : Terms) (r : Replica) : Type 0 where
  pub bytes : Bytes
  pub was_fetched : (hosts.call r.holder).fetched ≡ object bytes
  pub entry : HeldEntry
  pub is_held :
      Map.lookup t.cid
        (do_offer
          (hosts.host r.holder)
          (hosts.call r.holder)
          (offer_req t)
          hosts.publisher
          (hosts.state r.holder)).1.held.entries
      ≡ some entry
  pub real_size : entry.bytes ≡ length bytes
  pub same_rent : entry.rent_per_gb_hour ≡ t.rent_per_gb_hour
  pub same_expiry : entry.expiry_height ≡ t.expiry_height
  pub same_publisher : entry.publisher ≡ hosts.publisher

Placed-HeldBy :
    (hosts : Hosts) (market : Market) (t : Terms)
    → Reaches hosts market
    → (r : Replica) → Placed market t r
    → HeldBy hosts t r
unfolding offer_req
Placed-HeldBy hosts market t reaches r placed =
    let yes_reply = sym (ap accepted (reaches r.holder (offer_req t))) ∙ placed.did_accept in
    let held =
      do_offer-Accepted (hosts.host r.holder) (hosts.call r.holder) (offer_req t) hosts.publisher
        (hosts.state r.holder) yes_reply in
    record {
      bytes = held.bytes;
      was_fetched = held.was_fetched;
      entry = _;
      is_held = held.recorded;
      real_size = refl;
      same_rent = refl;
      same_expiry = refl;
      same_publisher = refl;
    }

-- Each replica that `replicate` returns is held by its holder under the CID and the terms of the
-- publisher, with the size of the bytes that the host fetched.
pub replicate-HeldBy :
    (hosts : Hosts) (market : Market) (t : Terms) (n : ℕ) (cs : List Candidate)
    (exclude : List Text) (rs : List Replica)
    → Reaches hosts market
    → Pairs Distinct cs
    → replicate market t n cs exclude ≡ some rs
    → All (HeldBy hosts t) rs
replicate-HeldBy hosts market t n cs exclude rs reaches d e =
    let (_, _, _, placed) = replicate-Placed market t n cs exclude rs d e in
    All-imp (Placed market t) (HeldBy hosts t) (Placed-HeldBy hosts market t reaches) rs placed
