-- ===== src/Examples/Placing.antt =====
-- The theorem on a publisher and the hosts that it reaches at a concrete input.
use ce_pin.Prelude.Text as Texts
use ce_pin.Client.Probe.{Auditor, audited, audit_replica}
use ce_pin.Client.Placing.Audited.{after_offer, Audits, replicate-audited}
use ce_pin.Host.Requests.{do_audit}
use ce_pin.Examples.{toy_hashing, toy_blobs, one_chunk}
use ce_pin.Prelude.{◌≡◌, refl, true, some, [], ◌∷◌, All}
use ce_pin.Prelude.Text.{Text, lit}
use ce_pin.PinSet.{Replica}
use ce_pin.Client.{Market, Terms, replicate}
use ce_pin.Client.Placing.{Hosts, HeldBy, replicate-HeldBy}
use ce_pin.Host.Offer.{do_offer}
use ce_pin.Examples.Roots.{open_host, empty_state, lone_call}
use ce_pin.Examples.Clients.{toy_auditor, toy_market, host_x}

-- Every host asks no rent and holds nothing.
abbrev open_hosts : Hosts
open_hosts = record {
  host = λ id. open_host;
  call = λ id. lone_call;
  state = λ id. empty_state;
  publisher = lit "p";
}

abbrev open_market : Market
open_market = record toy_market {
  offer_reply = λ id req. some (do_offer open_host lone_call req (lit "p") empty_state).0;
}

abbrev free_terms : Terms
free_terms = record {
  cid = lit "n";
  bytes_len = 2;
  rent_per_gb_hour = [];
  expiry_height = 500;
  caps = [];
}

abbrev free_on_x : Replica
free_on_x = record { holder = lit "x"; channel_id = []; last_proof_ok = true }

free_on_x-placed : replicate open_market free_terms 2 (host_x ∷ []) [] ≡ some (free_on_x ∷ [])
unfolding replicate ce_pin.Prelude.Order.Sort.sort_by ce_pin.Prelude.Text.contains
    ce_pin.Prelude.Text.text_cmp do_offer ce_pin.Held.contains ce_pin.Prelude.Map.has_key
    ce_pin.Config.admit ce_pin.Config.offered_rent ce_pin.Prelude.Text.parse_uint
    ce_pin.Prelude.Text.trim ce_pin.Held.total_bytes ce_pin.Held.remove_each ce_pin.Held.expired
    ce_pin.Prelude.Map.keys
free_on_x-placed = refl

replicate-HeldBy_example : All (HeldBy open_hosts free_terms) (free_on_x ∷ [])
replicate-HeldBy_example =
    replicate-HeldBy open_hosts open_market free_terms 2 (host_x ∷ []) [] (free_on_x ∷ [])
      (λ id req. refl) (tt, tt) free_on_x-placed

-- An auditor of the host after the offer; its node has the one manifest with the one chunk.
abbrev open_auditor : Auditor
open_auditor = record toy_auditor {
  request_audit = λ req.
      some (do_audit toy_hashing toy_blobs req (after_offer open_hosts free_terms (lit "x"))).0;
}

open-Audits : (id : Text) → Audits toy_hashing open_hosts free_terms id open_auditor
unfolding ce_pin.Client.Probe.audit_manifest ce_pin.Audit.challenge_index Texts.utf8 Texts.text_cmp
    ce_pin.Host.Requests.manifest_of
open-Audits id = record {
  challenged = record {
    manifest = one_chunk;
    has_manifest = refl;
    beacon = lit "beacon";
    has_beacon = refl;
    chunk_cid = lit "k";
    in_range = refl;
    chunk = 7 ∷ 8 ∷ 9 ∷ [];
    has_chunk = refl;
    is_named = refl;
  };
  blobs = toy_blobs;
  asks = λ req. refl;
  has_manifest = refl;
  has_chunk = refl;
}

replicate-audited_example :
    All
      (λ (r : Replica). audit_replica toy_hashing open_auditor [] (lit "n") ≡ audited true)
      (free_on_x ∷ [])
replicate-audited_example =
    replicate-audited toy_hashing open_hosts open_market free_terms 2 (host_x ∷ []) []
      (free_on_x ∷ []) [] (λ id. open_auditor) (λ id req. refl) (tt, tt) free_on_x-placed
      open-Audits
