-- ===== src/Examples/PinJson.antt =====
-- An encoding of the pin-sets with at most one pin, all of whose texts have one letter and which has
-- no label and at most one replica, healthy and without a channel. One more text is read as a set whose pin has a replica.
use ce_pin.Prelude.{Bool, false, sym, ℕ, ◌≡◌, refl, true, Option, none, some, List, [], ◌∷◌, false}
use ce_pin.Prelude.Text.{Text, lit}
use ce_pin.Prelude.Text as Texts
use ce_pin.Prelude.Map
use ce_pin.Files.{Bytes, Directory}
use ce_pin.PinSet.{PinJob, Replica, Entry, PinSet, PinJson, empty_set, load, loaded}
use ce_pin.PinSet.Recovery.{RoundTrips}

abbrev encode_replica : ℕ → PinJob → ℕ → ℕ → Text → Text → Bool → Option Bytes
encode_replica c job x y (h ∷ []) [] true =
    some (c ∷ x ∷ y ∷ job.bytes_len ∷ job.replication ∷ job.expiry_height ∷ h ∷ [])
encode_replica c job x y _ _ _ = none

abbrev encode_job : ℕ → PinJob → Text → Text → Option Text → List Replica → Option Bytes
encode_job c job (x ∷ []) (y ∷ []) none [] =
    some (c ∷ x ∷ y ∷ job.bytes_len ∷ job.replication ∷ job.expiry_height ∷ [])
encode_job c job (x ∷ []) (y ∷ []) none (r ∷ []) =
    encode_replica c job x y r.holder r.channel_id r.last_proof_ok
encode_job c job _ _ _ _ = none

abbrev encode_pins : Map.Map Entry → Option Bytes
encode_pins [] = some []
encode_pins ((c ∷ [], e) ∷ []) =
    encode_job c e.job e.job.cid e.job.rent_per_gb_hour e.job.label e.replicas
encode_pins _ = none

abbrev pub plain_entry : ℕ → ℕ → ℕ → ℕ → ℕ → Entry
plain_entry x y bytes_len replication expiry_height = record {
  job = record {
    cid = x ∷ [];
    bytes_len = bytes_len;
    replication = replication;
    rent_per_gb_hour = y ∷ [];
    expiry_height = expiry_height;
    label = none;
  };
  replicas = [];
}

-- The entry with a replica at the one-letter host.
abbrev pub placed_entry : ℕ → ℕ → ℕ → ℕ → ℕ → ℕ → Entry
placed_entry x y bytes_len replication expiry_height h =
    record (plain_entry x y bytes_len replication expiry_height) {
      replicas = record { holder = h ∷ []; channel_id = []; last_proof_ok = true } ∷ [];
    }

abbrev pub held_entry : Entry
held_entry = record (plain_entry b'q' b'0' 3 1 400) {
  replicas = record { holder = lit "h"; channel_id = lit "c"; last_proof_ok = false } ∷ [];
}

abbrev pub held_pins : PinSet
held_pins = record { pins = (lit "q", held_entry) ∷ [] }

abbrev decode_pins : Bytes → Option PinSet
decode_pins [] = some empty_set
decode_pins (c ∷ x ∷ y ∷ bytes_len ∷ replication ∷ expiry_height ∷ []) =
    some (record { pins = (c ∷ [], plain_entry x y bytes_len replication expiry_height) ∷ [] })
decode_pins (c ∷ x ∷ y ∷ bytes_len ∷ replication ∷ expiry_height ∷ h ∷ []) =
    some (record { pins = (c ∷ [], placed_entry x y bytes_len replication expiry_height h) ∷ [] })
decode_pins (one ∷ []) = some held_pins
decode_pins _ = none

abbrev pub toy_pin_json : PinJson
toy_pin_json = record { to_vec_pretty = λ s. encode_pins s.pins; from_slice = decode_pins }

decode_some :
    (s : PinSet) (written bytes : Bytes)
    → decode_pins written ≡ some s
    → some written ≡ some bytes
    → decode_pins bytes ≡ some s
decode_some s written bytes d e = cc

encode_replica-decode :
    (c : ℕ) (e : Entry) (x y : ℕ) (h ch : Text) (ok : Bool) (bytes : Bytes)
    → x ∷ [] ≡ e.job.cid
    → y ∷ [] ≡ e.job.rent_per_gb_hour
    → none ≡ e.job.label
    → record { holder = h; channel_id = ch; last_proof_ok = ok } ∷ [] ≡ e.replicas
    → encode_replica c e.job x y h ch ok ≡ some bytes
    → decode_pins bytes ≡ some (record { pins = (c ∷ [], e) ∷ [] })
encode_replica-decode c e x y (h ∷ []) [] true bytes p q r t w =
    decode_some (record { pins = (c ∷ [], e) ∷ [] }) _ bytes (rw (sym p, sym q, sym r, sym t) refl)
      w
encode_replica-decode c e x y [] ch ok bytes p q r t w = cc
encode_replica-decode c e x y (h ∷ i ∷ hs) ch ok bytes p q r t w = cc
encode_replica-decode c e x y (h ∷ []) (i ∷ ch) ok bytes p q r t w = cc
encode_replica-decode c e x y (h ∷ []) [] false bytes p q r t w = cc

encode_job-decode :
    (c : ℕ) (e : Entry) (cid rent : Text) (label : Option Text) (rs : List Replica) (bytes : Bytes)
    → cid ≡ e.job.cid
    → rent ≡ e.job.rent_per_gb_hour
    → label ≡ e.job.label
    → rs ≡ e.replicas
    → encode_job c e.job cid rent label rs ≡ some bytes
    → decode_pins bytes ≡ some (record { pins = (c ∷ [], e) ∷ [] })
encode_job-decode c e (x ∷ []) (y ∷ []) none [] bytes p q r t w =
    decode_some (record { pins = (c ∷ [], e) ∷ [] }) _ bytes (rw (sym p, sym q, sym r, sym t) refl)
      w
encode_job-decode c e [] rent label rs bytes p q r t w = cc
encode_job-decode c e (x ∷ z ∷ cid) rent label rs bytes p q r t w = cc
encode_job-decode c e (x ∷ []) [] label rs bytes p q r t w = cc
encode_job-decode c e (x ∷ []) (y ∷ z ∷ rent) label rs bytes p q r t w = cc
encode_job-decode c e (x ∷ []) (y ∷ []) (some l) rs bytes p q r t w = cc
encode_job-decode c e (x ∷ []) (y ∷ []) none (z ∷ []) bytes p q r t w =
    encode_replica-decode c e x y z.holder z.channel_id z.last_proof_ok bytes p q r t w
encode_job-decode c e (x ∷ []) (y ∷ []) none (z ∷ v ∷ rs) bytes p q r t w = cc

encode_pins-decode :
    (m : Map.Map Entry) (bytes : Bytes)
    → encode_pins m ≡ some bytes
    → decode_pins bytes ≡ some (record { pins = m })
encode_pins-decode [] bytes w = decode_some empty_set [] bytes refl w
encode_pins-decode (([], e) ∷ m) bytes w = cc
encode_pins-decode ((c ∷ [], e) ∷ []) bytes w =
    encode_job-decode c e e.job.cid e.job.rent_per_gb_hour e.job.label e.replicas bytes refl refl
      refl refl w
encode_pins-decode ((c ∷ [], e) ∷ x ∷ m) bytes w = cc
encode_pins-decode ((c ∷ d ∷ cid, e) ∷ m) bytes w = cc

pub toy_pin_json-RoundTrips : RoundTrips toy_pin_json
toy_pin_json-RoundTrips s bytes e = encode_pins-decode s.pins bytes e

abbrev pub pins_json : Text
pins_json = lit "pins.json"

abbrev pub plain_pins : PinSet
plain_pins = record { pins = (lit "q", plain_entry b'q' b'0' 3 0 400) ∷ [] }

abbrev pub pins_saved : Directory
pins_saved = (pins_json, b'q' ∷ b'q' ∷ b'0' ∷ 3 ∷ 0 ∷ 400 ∷ []) ∷ []

-- The file of the set whose pin has a replica.
abbrev pub held_saved : Directory
held_saved = (pins_json, 1 ∷ []) ∷ []

pub plain-loaded : load toy_pin_json true pins_json pins_saved ≡ loaded plain_pins
unfolding load Map.lookup Texts.text_cmp
plain-loaded = refl

pub held-loaded : load toy_pin_json true pins_json held_saved ≡ loaded held_pins
unfolding load Map.lookup Texts.text_cmp
held-loaded = refl

-- A pin that wants a replica and has none, and its file.
abbrev pub wanting_pins : PinSet
wanting_pins = record { pins = (lit "q", plain_entry b'q' b'0' 3 1 400) ∷ [] }

abbrev pub wanting_saved : Directory
wanting_saved = (pins_json, b'q' ∷ b'q' ∷ b'0' ∷ 3 ∷ 1 ∷ 400 ∷ []) ∷ []

pub wanting-loaded : load toy_pin_json true pins_json wanting_saved ≡ loaded wanting_pins
unfolding load Map.lookup Texts.text_cmp
wanting-loaded = refl
