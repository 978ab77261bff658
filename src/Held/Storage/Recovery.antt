-- ===== src/Held/Storage/Recovery.antt =====
-- `HeldSet::load` and `HeldSet::save` of src/held.rs: what comes back from the file, by the state
-- that it is in.
use ce_pin.Prelude.{
  ◌≡◌, refl, ap, ◌∙◌, sym, Bool, true, false, Option, none, some, List, [], ◌∷◌, arith,
  if◌then◌else◌,
}
use ce_pin.Prelude.Text.{Text, lit, contains}
use ce_pin.Prelude.Map
use ce_pin.Prelude.Map.{Map}
use ce_pin.Prelude.Map.Laws.{lookup-insert}
use ce_pin.Files.{Bytes, Directory, Faults}
use ce_pin.Files.Crash.{atomic_write-outcome, rename_carries}
use ce_pin.Held.{HeldEntry, HeldSet, default_record, default_set, held_schema_version}
use ce_pin.Held.Storage.{
  HeldJson, read, loaded, io_error, corrupt, with_extension, migrate, legacy_cids, upgrade, load,
  SaveResult, saved, save_failed, save, save_json,
}

-- What is relied on in `serde_json`: what it writes of a held-set it reads back, and such a text has
-- no field `cids`.
pub record RoundTrips (json : HeldJson) : Type 0 where
  pub reads_back :
      (h : HeldSet) (bytes : Bytes) → json.to_vec h ≡ some bytes → json.from_slice bytes ≡ some h
  pub no_cids :
      (h : HeldSet) (bytes : Bytes)
      → json.to_vec h ≡ some bytes
      → legacy_cids (json.legacy bytes) ≡ []

upgrade_saved :
    (json : HeldJson) (r : RoundTrips json) (h : HeldSet) (bytes : Bytes)
    → json.to_vec h ≡ some bytes
    → upgrade json bytes h ≡ record h { version = held_schema_version }
unfolding upgrade migrate
upgrade_saved json r h bytes e = ground (arith, r.no_cids h bytes e)

load-content :
    (json : HeldJson) (renames : Bool) (file : Text) (bytes : Bytes) (h : HeldSet) (d : Directory)
    → Map.lookup file d ≡ some bytes
    → json.from_slice bytes ≡ some h
    → load json true renames file d ≡ (loaded (upgrade json bytes h), d)
unfolding load
load-content json renames file bytes h d e p = rw (e, read, p)

pub save_json-lookup :
    (encoded : Option Bytes) (faults : Faults) (pid file : Text) (d d' : Directory)
    → save_json encoded faults pid file d ≡ (saved, d')
    → (bytes : Bytes) × (encoded ≡ some bytes) × (Map.lookup file d' ≡ some bytes)
save_json-lookup none faults pid file d d' e = cc
save_json-lookup (some bytes) faults pid file d d' e = (
  bytes,
  refl,
  ground (
    arith,
    atomic_write-outcome faults pid file bytes d,
    ap (Map.lookup file) (ap (λ (r : SaveResult × Directory). r.1) e),
  ),
)

-- A set whose save reported success is read back, stamped with the schema version, whatever faults
-- the save was exposed to, if the file can be read and JSON reads back what it writes and takes
-- nothing that it writes for the old shape.
pub load-save :
    (json : HeldJson) (r : RoundTrips json) (ok renames : Bool) (faults : Faults) (pid file : Text)
    (h : HeldSet) (d d' : Directory)
    → save json ok faults pid file h d ≡ (saved, d')
    → load json true renames file d' ≡ (loaded (record h { version = held_schema_version }), d')
unfolding save
load-save json r false renames faults pid file h d d' e = cc
load-save json r true renames faults pid file h d d' e =
    let (bytes, encoded, there) = save_json-lookup (json.to_vec h) faults pid file d d' e in
    load-content json renames file bytes h d' there (r.reads_back h bytes encoded)
    ∙ ap (λ s. (loaded s, d')) (upgrade_saved json r h bytes encoded)

pub save_json-failed :
    (encoded : Option Bytes) (faults : Faults) (pid file : Text) (d d' : Directory)
    → save_json encoded faults pid file d ≡ (save_failed, d')
    → Map.lookup file d' ≡ Map.lookup file d
save_json-failed none faults pid file d d' e =
    ap (λ (r : SaveResult × Directory). Map.lookup file r.1) (sym e)
save_json-failed (some bytes) faults pid file d d' e = ground (
  arith,
  atomic_write-outcome faults pid file bytes d,
  ap (Map.lookup file) (ap (λ (r : SaveResult × Directory). r.1) e),
)

-- A save that failed leaves what a later load finds as it was.
pub save_failed-lookup :
    (json : HeldJson) (ok : Bool) (faults : Faults) (pid file : Text) (h : HeldSet)
    (d d' : Directory)
    → save json ok faults pid file h d ≡ (save_failed, d')
    → Map.lookup file d' ≡ Map.lookup file d
unfolding save
save_failed-lookup json false faults pid file h d d' e =
    ap (λ (r : SaveResult × Directory). Map.lookup file r.1) (sym e)
save_failed-lookup json true faults pid file h d d' e =
    save_json-failed (json.to_vec h) faults pid file d d' e

-- A file that is not JSON of either shape is an error; if the move is granted its bytes stand under
-- the name with the extension `corrupt`, and if not they stay where they are.
pub load-corrupt :
    (json : HeldJson) (renames : Bool) (file : Text) (bytes : Bytes) (d : Directory)
    → Map.lookup file d ≡ some bytes
    → json.from_slice bytes ≡ none
    → let (result, d') = load json true renames file d in
      (result ≡ corrupt)
      × (Map.lookup (if renames then with_extension file (lit "corrupt") else file) d' ≡ some bytes)
unfolding load
load-corrupt json true file bytes d e p =
    rw (e, p) (refl, rename_carries file (with_extension file (lit "corrupt")) bytes d e)
load-corrupt json false file bytes d e p = rw (e, p) (refl, e)

migrate-lookup :
    (cids : List Text) (cid : Text) (m : Map HeldEntry)
    → Map.lookup cid (migrate cids m)
      ≡ (if contains cids cid then some default_record else Map.lookup cid m)
unfolding migrate contains
migrate-lookup [] cid m = refl
migrate-lookup (k ∷ cids) cid m = ground (
  arith,
  migrate-lookup cids cid (Map.insert k default_record m),
  lookup-insert k cid default_record m,
)

-- A file of the old shape is loaded as the set that holds just its CIDs, each with an empty record,
-- under the schema version.
load-legacy :
    (json : HeldJson) (renames : Bool) (file : Text) (bytes : Bytes) (cids : List Text)
    (d : Directory)
    → Map.lookup file d ≡ some bytes
    → json.from_slice bytes ≡ some default_set
    → json.legacy bytes ≡ some cids
    → (h : HeldSet) × (load json true renames file d ≡ (loaded h, d))
      × (h.version ≡ held_schema_version)
      × ((cid : Text)
          → Map.lookup cid h.entries ≡ (if contains cids cid then some default_record else none))
unfolding load Map.lookup
load-legacy json renames file bytes cids d e p l = (
  upgrade json bytes default_set,
  load-content json renames file bytes default_set d e p,
  refl,
  λ cid. ap (λ c. Map.lookup cid (migrate (legacy_cids c) [])) l ∙ migrate-lookup cids cid [],
)

-- A missing file is an empty set; a file that cannot be read is an error, and stays.
pub load-missing :
    (json : HeldJson) (renames : Bool) (file : Text) (d : Directory)
    → Map.lookup file d ≡ none
    → (load json true renames file d ≡ (loaded default_set, d))
      × (load json false renames file d ≡ (io_error, d))
unfolding load
load-missing json renames file d e = (rw (e, read), refl)
