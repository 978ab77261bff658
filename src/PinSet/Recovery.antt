-- ===== src/PinSet/Recovery.antt =====
-- `PinSet::load` after `PinSet::save` of src/pinset.rs.
use ce_pin.Prelude.{◌≡◌, refl, true, false, Bool, some, inl, inr, ◌⊎◌, sym, ap}
use ce_pin.Prelude.Text.{Text}
use ce_pin.Prelude.Map
use ce_pin.Files.{Directory, Faults}
use ce_pin.Held.Storage.{saved, save_failed}
use ce_pin.PinSet.{PinSet, PinJson, loaded, load, save}
use ce_pin.Held.Storage.Recovery.{save_json-lookup, save_json-failed}
use ce_pin.Held.Storage.{read, SaveResult}
use ce_pin.Files.{Bytes}

-- What is relied on in `serde_json`: what it writes of a pin-set it reads back.
abbrev pub RoundTrips : PinJson → Type 0
RoundTrips json =
    (s : PinSet) (bytes : Bytes)
    → json.to_vec_pretty s ≡ some bytes
    → json.from_slice bytes ≡ some s

load-content :
    (json : PinJson) (file : Text) (bytes : Bytes) (s : PinSet) (d : Directory)
    → Map.lookup file d ≡ some bytes
    → json.from_slice bytes ≡ some s
    → load json true file d ≡ loaded s
unfolding load
load-content json file bytes s d e p = rw (e, read, p)

-- A load sees of a directory only the file.
pub load_same :
    (json : PinJson) (file : Text) (d d' : Directory)
    → Map.lookup file d' ≡ Map.lookup file d
    → load json true file d' ≡ load json true file d
unfolding load read
load_same json file d d' e = rw e refl

-- After a save, whatever faults it was exposed to: if it reported success a load gives back exactly
-- the pin-set, and if it failed the file is what it was.
pub save-load :
    (json : PinJson) (r : RoundTrips json) (ok : Bool) (faults : Faults) (pid file : Text)
    (s : PinSet) (d d' : Directory) (result : SaveResult)
    → save json ok faults pid file s d ≡ (result, d')
    → ((result ≡ saved) × (load json true file d' ≡ loaded s))
      ⊎ ((result ≡ save_failed) × (Map.lookup file d' ≡ Map.lookup file d))
unfolding save
save-load json r false faults pid file s d d' result e = inr (
  sym (ap (λ (p : SaveResult × Directory). p.0) e),
  ap (λ (p : SaveResult × Directory). Map.lookup file p.1) (sym e),
)
save-load json r true faults pid file s d d' saved e =
    let (bytes, encoded, there) = save_json-lookup (json.to_vec_pretty s) faults pid file d d' e in
    inl (refl, load-content json file bytes s d' there (r s bytes encoded))
save-load json r true faults pid file s d d' save_failed e =
    inr (refl, save_json-failed (json.to_vec_pretty s) faults pid file d d' e)
