-- ===== src/Host/Gc.antt =====
-- The maintenance of src/host.rs: garbage collection, the refresh of the revoked set, and the
-- repeated advertisements.
pub mod Laws
use ce_pin.Prelude.{
  ℕ, ◌≡◌, ◌++◌, Bool, true, false, Option, none, some, List, [], ◌∷◌, length, ◌==◌, if◌then◌else◌,
}
use ce_pin.Prelude.Text.{Text}
use ce_pin.Prelude.Map
use ce_pin.Files.{Bytes}
use ce_pin.Audit.{Hashing}
use ce_pin.Held.{HeldSet, expired, evict_to_fit, remove_each}
use ce_pin.Metrics.{add_evictions}
use ce_pin.Proto.{service_host, service_for}
use ce_pin.Host.{Host, HostState, Disk, persist, count, advertise, height_or_zero}

-- The CIDs that a collection drops from a held-set, in order: the expired ones, then the victims
-- among the rest.
unfoldable pub gc_expired : ℕ → HeldSet → HeldSet
gc_expired height held = remove_each (expired held height) held

unfoldable pub gc_dropped : Host → ℕ → HeldSet → List Text
unfolding gc_expired
gc_dropped host height held =
    expired held height ++ evict_to_fit (gc_expired height held) host.cfg.capacity_bytes height

unfoldable pub gc_held : Host → ℕ → HeldSet → HeldSet
unfolding gc_expired
gc_held host height held =
    let live = gc_expired height held in
    remove_each (evict_to_fit live host.cfg.capacity_bytes height) live

abbrev pub finish_gc : Host → Disk → List Text → HostState → HostState
finish_gc host disk [] s = s
finish_gc host disk (cid ∷ cids) s =
    let (_, kept) = persist host disk s in count (add_evictions (length (cid ∷ cids))) kept

-- `s` is the state once the lock is taken; nothing is dropped as expired if the height is not known.
unfoldable pub run_gc : Host → Option ℕ → Disk → HostState → HostState
unfolding gc_dropped gc_held persist
run_gc host answer disk s =
    let height = height_or_zero answer in
    finish_gc host disk (gc_dropped host height s.held)
      (record s { held = gc_held host height s.held })

abbrev pub issuer_key : Option Bytes → Option Bytes
issuer_key none = none
issuer_key (some bytes) = if length bytes == 32 then some bytes else none

abbrev keep_pair : Option Bytes → ℕ → List (Bytes × ℕ) → List (Bytes × ℕ)
keep_pair none nonce rest = rest
keep_pair (some issuer) nonce rest = (issuer, nonce) ∷ rest

-- Issuers that are not 64 hexadecimal digits are skipped.
unfoldable pub revoked_pairs : Hashing → List (Text × ℕ) → List (Bytes × ℕ)
revoked_pairs hs [] = []
revoked_pairs hs ((issuer, nonce) ∷ pairs) =
    keep_pair (issuer_key (hs.decode issuer)) nonce (revoked_pairs hs pairs)

unfoldable pub refresh_revoked : Hashing → Option (List (Text × ℕ)) → HostState → HostState
unfolding revoked_pairs
refresh_revoked hs none s = s
refresh_revoked hs (some pairs) s = record s { revoked = revoked_pairs hs pairs }

unfoldable pub advertise_each : List Text → HostState → HostState
advertise_each [] s = s
advertise_each (cid ∷ cids) s = advertise_each cids (advertise (service_for cid) s)

unfoldable pub readvertise : HostState → HostState
unfolding advertise_each
readvertise s = advertise_each (Map.keys s.held.entries) (advertise service_host s)

-- One round of `maintenance_loop`: what the timers of ten and of thirty seconds do.
pub data Tick : Type 0 where
  every_10s : Option (List (Text × ℕ)) → Tick
  every_30s : Option ℕ → Disk → Tick

unfoldable pub maintain : Host → Hashing → Tick → HostState → HostState
unfolding readvertise refresh_revoked run_gc
maintain host hs (every_10s revoked) s = readvertise (refresh_revoked hs revoked s)
maintain host hs (every_30s height disk) s = run_gc host height disk s
