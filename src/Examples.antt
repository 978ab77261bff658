-- ===== src/Examples.antt =====
-- Small concrete inputs for the theorems of the other modules: a held-set, a toy JSON, a hash, a
-- host with its state, and an auditor's view of it. The applications are in the children.
pub mod Tasks
pub mod Budgets
pub mod Replies
pub mod HeldSets
pub mod Hosts
pub mod PinJson
pub mod Clients
pub mod Roots
pub mod Commands
pub mod Durability
pub mod Placing
use ce_pin.Prelude.{sym, ℕ, ◌≡◌, refl, true, false, Option, none, some, List, [], ◌∷◌}
use ce_pin.Prelude.Text.{Text, lit, text_eq}
use ce_pin.Prelude.Map.{Map}
use ce_pin.Files.{Bytes}
use ce_pin.Files.Crash.{no_faults}
use ce_pin.Held.{HeldEntry, HeldSet}
use ce_pin.Held.Storage.{HeldJson, legacy_cids}
use ce_pin.Held.Storage.Recovery.{RoundTrips}
use ce_pin.Config.{HostConfig}
use ce_pin.Audit.{Hashing}
use ce_pin.Metrics.{new_metrics}
use ce_pin.Host.{Host, HostState, Disk}
use ce_pin.Host.Requests.{Manifest, BlobCall}

abbrev pub open_ended : HeldEntry
open_ended = record {
  bytes = 10;
  rent_per_gb_hour = lit "5";
  expiry_height = 0;
  pinned_at = 1;
  last_access = 3;
  publisher = lit "p";
}

abbrev pub leased : HeldEntry
leased = record {
  bytes = 20;
  rent_per_gb_hour = lit "1";
  expiry_height = 100;
  pinned_at = 1;
  last_access = 7;
  publisher = lit "p";
}

abbrev pub two_held : HeldSet
two_held = record { version = 1; entries = (lit "a", open_ended) ∷ (lit "b", leased) ∷ [] }

-- An encoding of the sets with at most one pin, whose CID is one letter and whose texts are empty.
abbrev pub encode_entry : ℕ → ℕ → HeldEntry → Text → Text → Option Bytes
encode_entry version c e [] [] =
    some (version ∷ c ∷ e.bytes ∷ e.expiry_height ∷ e.pinned_at ∷ e.last_access ∷ [])
encode_entry version c e _ _ = none

abbrev pub encode_entries : ℕ → Map HeldEntry → Option Bytes
encode_entries version [] = some (version ∷ [])
encode_entries version ((c ∷ [], e) ∷ []) = encode_entry version c e e.rent_per_gb_hour e.publisher
encode_entries version _ = none

abbrev pub decode_set : Bytes → Option HeldSet
decode_set (version ∷ []) = some (record { version = version; entries = [] })
decode_set (version ∷ c ∷ bytes ∷ expiry_height ∷ pinned_at ∷ last_access ∷ []) = some (record {
  version = version;
  entries =
      (
        c ∷ [],
        record {
          bytes = bytes;
          rent_per_gb_hour = [];
          expiry_height = expiry_height;
          pinned_at = pinned_at;
          last_access = last_access;
          publisher = [];
        },
      )
      ∷ [];
})
decode_set _ = none

abbrev pub toy_json : HeldJson
toy_json = record {
  to_vec = λ h. encode_entries h.version h.entries;
  from_slice = decode_set;
  legacy = λ bytes. none;
}

-- The identity in place of the hash and of the hexadecimal coding.
abbrev pub toy_hashing : Hashing
toy_hashing = record {
  sha256 = λ bytes. bytes;
  encode = λ bytes. bytes;
  decode = λ text. some text;
}

abbrev pub toy_host : Host
toy_host = record {
  host_id = 1 ∷ [];
  roots = [];
  cfg = record {
    max_object_bytes = 100;
    capacity_bytes = 25;
    min_rent_per_gb_hour = 1;
    max_concurrent = 1;
    fetch_timeout = 1;
    seen_window = 1024;
  };
  json = toy_json;
  pid = lit "1";
  held_file = lit "held.json";
}

abbrev pub toy_state : HostState
toy_state = record {
  held = two_held;
  directory = [];
  revoked = [];
  metrics = new_metrics;
  advertised = [];
}

abbrev pub one_chunk : Manifest
one_chunk = record { total_size = 3; chunks = lit "k" ∷ [] }

-- The manifest of every CID names one chunk.
abbrev pub toy_blobs : BlobCall
toy_blobs = record {
  get_blob = λ cid. some (7 ∷ 8 ∷ 9 ∷ []);
  parse_manifest = λ bytes. some one_chunk;
  while_reading = λ s. s;
  now = 11;
}

abbrev pub toy_disk : Disk
toy_disk = record { directory_ok = true; faults = no_faults }

decode_some :
    (h : HeldSet) (written bytes : Bytes)
    → decode_set written ≡ some h
    → some written ≡ some bytes
    → decode_set bytes ≡ some h
decode_some h written bytes d e = cc

encode_entry-decode :
    (version c : ℕ) (e : HeldEntry) (rent publisher : Text) (bytes : Bytes)
    → rent ≡ e.rent_per_gb_hour
    → publisher ≡ e.publisher
    → encode_entry version c e rent publisher ≡ some bytes
    → decode_set bytes ≡ some (record { version = version; entries = (c ∷ [], e) ∷ [] })
encode_entry-decode version c e [] [] bytes r p w =
    decode_some (record { version = version; entries = (c ∷ [], e) ∷ [] }) _ bytes
      (rw (sym r, sym p) refl) w
encode_entry-decode version c e [] (x ∷ publisher) bytes r p w = cc
encode_entry-decode version c e (x ∷ rent) publisher bytes r p w = cc

encode_entries-decode :
    (version : ℕ) (m : Map HeldEntry) (bytes : Bytes)
    → encode_entries version m ≡ some bytes
    → decode_set bytes ≡ some (record { version = version; entries = m })
encode_entries-decode version [] bytes w =
    decode_some (record { version = version; entries = [] }) (version ∷ []) bytes refl w
encode_entries-decode version (([], e) ∷ m) bytes w = cc
encode_entries-decode version ((c ∷ [], e) ∷ []) bytes w =
    encode_entry-decode version c e e.rent_per_gb_hour e.publisher bytes refl refl w
encode_entries-decode version ((c ∷ [], e) ∷ x ∷ m) bytes w = cc
encode_entries-decode version ((c ∷ d ∷ cid, e) ∷ m) bytes w = cc

pub toy_json-RoundTrips : RoundTrips toy_json
toy_json-RoundTrips = record {
  reads_back = λ h bytes e. encode_entries-decode h.version h.entries bytes e;
  no_cids = λ h bytes e. refl;
}
