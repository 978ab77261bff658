-- ===== src/Examples/Roots.antt =====
-- The theorems on a host's files, its roots and its restart, and on the capability chain, at concrete
-- inputs.
use ce_pin.Prelude.{
  ◌≢◌, ap, List, length, some_inj, inl, inr, ◌≡◌, refl, true, false, Option, none, some, [], ◌∷◌,
  ◌⊎◌, arith, All,
}
use ce_pin.Prelude.Text.{Text, lit}
use ce_pin.Prelude.Text as Texts
use ce_pin.Prelude.Map
use ce_pin.Files.{Bytes}
use ce_pin.Config.{EnvVars}
use ce_pin.Paths.{caps_file}
use ce_pin.Roots.{load_roots}
use ce_pin.Roots.Reading.{FileLine, IsLine, roots_text, load_roots-listed}
use ce_pin.Caps.{read_at, resolve}
use ce_pin.Caps.Precedence.{Says, IsBlank, resolve-first}
use ce_pin.Proto.{OfferReq}
use ce_pin.Host.{Host, HostState}
use ce_pin.Host.Offer.{OfferCall, object, do_offer}
use ce_pin.Host.Start.{Launch, host_key}
use ce_pin.Host.Start.Durable.{IsRestart, Durable, do_offer-Durable}
use ce_pin.Examples.{toy_hashing, toy_host, toy_state, toy_disk, toy_json, toy_json-RoundTrips}

-- A key of 32 bytes, and its line in the file.
abbrev key_a : Bytes
key_a = lit "aaaaaaaaaaaaaaaaaaaaaaaaaaaaaaaa"

abbrev no_env : EnvVars
no_env = λ key. none

-- A bare key, a comment, an empty line, a line that is no key, and a key with a note.
abbrev key_lines : List FileLine
key_lines =
    record { key = some key_a; word = key_a; note = none }
    ∷ record { key = none; word = []; note = some (lit " roots") }
    ∷ record { key = none; word = []; note = none }
    ∷ record { key = none; word = lit "aa"; note = none }
    ∷ record { key = some key_a; word = key_a; note = some (lit " mine") }
    ∷ []

abbrev key_file : Text → Option Text
key_file = λ path. some (roots_text key_lines)

key_lines-IsLine : All (IsLine toy_hashing) key_lines
unfolding Texts.trim
key_lines-IsLine = (
  record { no_hash = omega arith; one_line = omega arith; names = ((λ e. cc), refl, refl) },
  (
    record { no_hash = tt; one_line = omega arith; names = inl refl },
    (
      record { no_hash = tt; one_line = tt; names = inl refl },
      (
        record { no_hash = omega arith; one_line = omega arith; names = inr not_long },
        (
          record { no_hash = omega arith; one_line = omega arith; names = ((λ e. cc), refl, refl) },
          tt,
        ),
      ),
    ),
  ),
)
  where
    not_long : (bytes : Bytes) → some (lit "aa") ≡ some bytes → length bytes ≢ 32
    not_long bytes e long = ground (arith, ap length (some_inj (lit "aa") bytes e), long)

load_roots-listed_example : load_roots toy_hashing no_env none key_file ≡ key_a ∷ key_a ∷ []
load_roots-listed_example =
    load_roots-listed toy_hashing no_env none key_file key_lines refl key_lines-IsLine

-- No flag, a blank variable, and a file with a chain.
abbrev blank_env : EnvVars
blank_env = λ key. some (lit " ")

abbrev chain_file : Text → Option Text
chain_file = λ path. some (lit " chain ")

resolve-first_example :
    let t = resolve none blank_env none chain_file in
    let file = read_at chain_file (caps_file blank_env none) in
    Says none t
    ⊎ (IsBlank none × Says (some (lit " ")) t)
    ⊎ (IsBlank none × IsBlank (some (lit " ")) × Says file t)
    ⊎ (IsBlank none × IsBlank (some (lit " ")) × IsBlank file × (t ≡ []))
resolve-first_example = resolve-first none blank_env none chain_file

-- A host that asks no rent and holds nothing, with an id of 32 bytes.
abbrev pub open_host : Host
open_host = record toy_host {
  host_id = key_a;
  cfg = record (toy_host.cfg) { min_rent_per_gb_hour = 0 };
}

abbrev pub empty_state : HostState
empty_state = record toy_state { held = record { version = 1; entries = [] } }

abbrev pub restart : Launch
restart = record {
  roots = [];
  cfg = open_host.cfg;
  json = toy_json;
  pid = lit "2";
  held_file = lit "held.json";
  node_id = some key_a;
  reads = true;
  renames = false;
}

pub restart-IsRestart : IsRestart toy_hashing open_host restart
unfolding host_key
restart-IsRestart = record {
  node = (key_a, refl, refl);
  same_json = refl;
  same_file = refl;
  can_read = refl;
}

abbrev pub lone_call : OfferCall
lone_call = record {
  height = some 1;
  while_status = λ s. s;
  while_fetching = λ s. s;
  fetched = object (7 ∷ 8 ∷ []);
  pinned_at = 5;
  last_access = 5;
  disk = toy_disk;
}

abbrev lone_offer : OfferReq
lone_offer = record {
  caps = [];
  cid = lit "n";
  bytes_len = 2;
  rent_per_gb_hour = [];
  expiry_height = 500;
}

accepts_lone : (do_offer open_host lone_call lone_offer [] empty_state).0.accepted ≡ true
unfolding do_offer ce_pin.Held.contains Map.has_key ce_pin.Config.admit ce_pin.Config.offered_rent
    Texts.parse_uint Texts.trim ce_pin.Held.total_bytes ce_pin.Held.remove_each ce_pin.Held.expired
    Map.keys
accepts_lone = refl

encodes_lone :
    toy_json.to_vec (do_offer open_host lone_call lone_offer [] empty_state).1.held
    ≡ some (1 ∷ b'n' ∷ 2 ∷ 500 ∷ 5 ∷ 5 ∷ [])
unfolding do_offer ce_pin.Held.contains Map.has_key ce_pin.Config.admit ce_pin.Config.offered_rent
    Texts.parse_uint Texts.trim ce_pin.Held.total_bytes ce_pin.Held.remove_each ce_pin.Held.expired
    Map.keys ce_pin.Held.insert Map.insert
encodes_lone = refl

do_offer-Durable_example :
    Durable toy_hashing open_host restart lone_call lone_offer []
      (do_offer open_host lone_call lone_offer [] empty_state).1
do_offer-Durable_example =
    do_offer-Durable toy_hashing open_host restart lone_call lone_offer []
      (1 ∷ b'n' ∷ 2 ∷ 500 ∷ 5 ∷ 5 ∷ []) empty_state toy_json-RoundTrips refl restart-IsRestart
      accepts_lone encodes_lone
