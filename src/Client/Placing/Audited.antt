-- ===== src/Client/Placing/Audited.antt =====
-- `replicate` of src/client.rs, then `audit_replica` of each replica that it returned.
use ce_pin.Prelude.{ℕ, ◌≡◌, ap, true, some, List, All, All-imp, is_some}
use ce_pin.Prelude.Text.{Text}
use ce_pin.Prelude.Map
use ce_pin.Prelude.Order.Sort.{Pairs}
use ce_pin.Audit.{Hashing}
use ce_pin.Held.{HeldEntry, HeldSet, contains}
use ce_pin.Placement.{Candidate}
use ce_pin.Placement.Selection.{Distinct}
use ce_pin.PinSet.{Replica}
use ce_pin.Proto.{AuditReq}
use ce_pin.Client.{Market, Terms, offer_req, replicate}
use ce_pin.Client.Probe.{Auditor, audited, audit_replica}
use ce_pin.Client.Probe.EndToEnd.{Challenged, audit_replica-do_audit}
use ce_pin.Client.Placing.{Hosts, Reaches, HeldBy, replicate-HeldBy}
use ce_pin.Host.{HostState}
use ce_pin.Host.Offer.{do_offer}
use ce_pin.Host.Requests.{BlobCall, do_audit, manifest_of}

-- A host once it has dealt with the offer.
abbrev pub after_offer : Hosts → Terms → Text → HostState
after_offer hosts t id =
    (do_offer (hosts.host id) (hosts.call id) (offer_req t) hosts.publisher (hosts.state id)).1

-- An audit that reaches a host after the offer: there is a challenge, and the host's node has the
-- manifest and the challenged chunk.
pub record Audits (hs : Hashing) (hosts : Hosts) (t : Terms) (id : Text) (a : Auditor)
    : Type 0 where
  pub challenged : Challenged hs a t.cid
  pub blobs : BlobCall
  pub asks :
      (req : AuditReq)
      → a.request_audit req ≡ some (do_audit hs blobs req (after_offer hosts t id)).0
  pub has_manifest : manifest_of blobs t.cid ≡ some challenged.manifest
  pub has_chunk : blobs.get_blob challenged.chunk_cid ≡ some challenged.chunk

lookup-contains :
    (h : HeldSet) (cid : Text) (e : HeldEntry)
    → Map.lookup cid h.entries ≡ some e
    → contains h cid ≡ true
unfolding contains Map.has_key
lookup-contains h cid e found = ap is_some found

HeldBy-audited :
    (hs : Hashing) (hosts : Hosts) (t : Terms) (caps : Text) (r : Replica) (a : Auditor)
    → HeldBy hosts t r
    → Audits hs hosts t r.holder a
    → audit_replica hs a caps t.cid ≡ audited true
HeldBy-audited hs hosts t caps r a h x =
    audit_replica-do_audit hs a caps t.cid x.challenged x.blobs (after_offer hosts t r.holder)
      x.asks (lookup-contains (after_offer hosts t r.holder).held t.cid h.entry h.is_held)
      x.has_manifest x.has_chunk

-- Every replica that `replicate` returned passes an audit that reaches its holder, if the holder's
-- node has the manifest and the chunk that is challenged.
pub replicate-audited :
    (hs : Hashing) (hosts : Hosts) (market : Market) (t : Terms) (n : ℕ) (cs : List Candidate)
    (exclude : List Text) (rs : List Replica) (caps : Text) (auditors : Text → Auditor)
    → Reaches hosts market
    → Pairs Distinct cs
    → replicate market t n cs exclude ≡ some rs
    → ((id : Text) → Audits hs hosts t id (auditors id))
    → All (λ r. audit_replica hs (auditors r.holder) caps t.cid ≡ audited true) rs
replicate-audited hs hosts market t n cs exclude rs caps auditors reaches d e audits =
    All-imp (HeldBy hosts t) (λ r. audit_replica hs (auditors r.holder) caps t.cid ≡ audited true)
      (λ r h. HeldBy-audited hs hosts t caps r (auditors r.holder) h (audits r.holder)) rs
      (replicate-HeldBy hosts market t n cs exclude rs reaches d e)
