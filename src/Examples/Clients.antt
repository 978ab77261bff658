-- ===== src/Examples/Clients.antt =====
-- The theorems on the publisher's side at concrete inputs.
use ce_pin.Files.Crash.{no_faults}
use ce_pin.Prelude.{
  sym, ℕ, ◌*◌, ◌≤◌, ◌<◌, ◌^◌, ◌≡◌, ◌≢◌, refl, true, false, Option, none, some, List, [], ◌∷◌, ◌⊎◌,
  arith, length, pos,
}
use ce_pin.Prelude.Text.{Text, lit}
use ce_pin.Prelude.Text as Texts
use ce_pin.Prelude.Map
use ce_pin.Files.{Bytes, Directory}
use ce_pin.Held.{contains}
use ce_pin.Held.Storage.{saved}
use ce_pin.Placement.{Candidate}
use ce_pin.PinSet.{Replica, Entry, PinSet, get, save}
use ce_pin.Client.{Network, Market, Terms, gib, channel_capacity_for, rent_owed_base}
use ce_pin.Client.Rent.{channel_capacity_for-covers}
use ce_pin.Client.Probe.{Auditor, audited, index_panic, audit_replica}
use ce_pin.Client.Probe.EndToEnd.{Challenged, audit_replica-do_audit}
use ce_pin.Host.Requests.{manifest_of, do_audit}
use ce_pin.Repair.{Pass, PassState, empty_report}
use ce_pin.Repair.Passes.{Repaired, repair_entry-Repaired}
use ce_pin.Examples.PinJson.{toy_pin_json, pins_json, plain_pins, pins_saved}
use ce_pin.Examples.{toy_hashing, toy_state, toy_blobs, one_chunk}

credit_fits : 10 ^ 18 < 2 ^ 127
credit_fits = omega arith

channel_capacity_for-covers_example :
    (c : ℕ) × (channel_capacity_for (10 ^ 18) (3 * gib) 7 24 ≡ pos c)
    × (10 ^ 18 ≤ c)
    × (rent_owed_base (3 * gib) 24 7 ≤ c)
channel_capacity_for-covers_example =
    channel_capacity_for-covers (10 ^ 18) (3 * gib) 7 24 24 credit_fits (omega arith)

-- A host that is audited over a direct line.
abbrev pub toy_auditor : Auditor
toy_auditor = record {
  get_blob = λ cid. some (7 ∷ 8 ∷ 9 ∷ []);
  parse_manifest = λ bytes. some one_chunk;
  beacon = some (lit "beacon");
  cid = λ bytes. lit "k";
  request_audit = λ req. some (do_audit toy_hashing toy_blobs req toy_state).0;
}

b_challenged : Challenged toy_hashing toy_auditor (lit "b")
unfolding ce_pin.Client.Probe.audit_manifest ce_pin.Audit.challenge_index Texts.utf8 Texts.text_cmp
b_challenged = record {
  manifest = one_chunk;
  has_manifest = refl;
  beacon = lit "beacon";
  has_beacon = refl;
  chunk_cid = lit "k";
  in_range = refl;
  chunk = 7 ∷ 8 ∷ 9 ∷ [];
  has_chunk = refl;
  is_named = refl;
}

b_held : contains toy_state.held (lit "b") ≡ true
unfolding contains Map.has_key Texts.text_cmp
b_held = refl

b_manifest : manifest_of toy_blobs (lit "b") ≡ some one_chunk
unfolding manifest_of
b_manifest = refl

audit_replica-do_audit_example : audit_replica toy_hashing toy_auditor [] (lit "b") ≡ audited true
unfolding b_challenged
audit_replica-do_audit_example =
    audit_replica-do_audit toy_hashing toy_auditor [] (lit "b") b_challenged toy_blobs toy_state
      (λ req. refl) b_held b_manifest refl

-- Every host accepts, and every channel opens.
abbrev pub toy_market : Market
toy_market = record {
  credit = 10 ^ 18;
  offer_reply = λ host req. some (record { accepted = true; stored_bytes = 3; reason = none });
  height = λ host. some 0;
  channel_open = λ host capacity expiry. some (lit "channel");
}

abbrev toy_terms : Terms
toy_terms = record {
  cid = lit "b";
  bytes_len = 3;
  rent_per_gb_hour = lit "1";
  expiry_height = 400;
  caps = [];
}

abbrev pub host_x : Candidate
host_x = record {
  node_id = lit "x";
  delivered_work = 0;
  last_seen_secs = 0;
  mem_mb = 0;
  fault_domain = [];
}

abbrev on_x : Replica
on_x = record { holder = lit "x"; channel_id = lit "channel"; last_proof_ok = true }

abbrev pub toy_entry : Entry
toy_entry = record {
  job = record {
    cid = lit "b";
    bytes_len = 3;
    replication = 2;
    rent_per_gb_hour = lit "1";
    expiry_height = 400;
    label = none;
  };
  replicas = record { holder = lit "h"; channel_id = []; last_proof_ok = false } ∷ [];
}

abbrev toy_pins : PinSet
toy_pins = record { pins = (lit "b", toy_entry) ∷ [] }

abbrev pub toy_pass : Pass
toy_pass = record {
  hs = toy_hashing;
  caps = [];
  auditor = λ cid holder. toy_auditor;
  network = λ cid. record {
    advertised = some (lit "x" ∷ []);
    atlas = some (record { node_id = lit "x"; last_seen_secs = 0; mem_mb = 0; tags = [] } ∷ []);
    self_id = none;
    delivered_work = λ id. none;
  };
  market = λ cid. toy_market;
  meanwhile = λ d. d;
}

abbrev pub toy_start : PassState
toy_start = record { set = toy_pins; report = empty_report; dirty = false; receipts = [] }

pub finds_b : get toy_pins (lit "b") ≡ some toy_entry
unfolding get Map.lookup Texts.text_cmp
finds_b = refl

repair_entry-Repaired_example : Repaired toy_pass (lit "b") toy_entry toy_start
repair_entry-Repaired_example = repair_entry-Repaired toy_pass (lit "b") toy_entry toy_start finds_b

plain-saved :
    save toy_pin_json true no_faults (lit "1") pins_json plain_pins [] ≡ (saved, pins_saved)
unfolding save ce_pin.Files.atomic_write ce_pin.Files.perform_all Map.lookup Map.modify Map.insert
    Texts.text_cmp ce_pin.Files.temp_name Map.remove
plain-saved = refl
