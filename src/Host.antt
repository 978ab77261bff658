-- ===== src/Host.antt =====
-- src/host.rs: the state of a pinning host and its handlers. The lock on the held-set is let go
-- across every call of the node; `Interference` is what the other tasks do to the state meanwhile.
-- Answers of the node, the clock and the file system are arguments.
pub mod Offer
pub mod Requests
pub mod Gc
pub mod Dispatch
pub mod Steps
pub mod Tasks
pub mod Start
use ce_pin.Prelude.{ℕ, ◌≡◌, Bool, true, false, Option, none, some, List, [], ◌∷◌, ◌++◌, unwrap_or}
use ce_pin.Prelude.Text.{Text, lit}
use ce_pin.Files.{Bytes, Directory, Faults}
use ce_pin.Held.{HeldSet, HeldEntry}
use ce_pin.Held.Storage.{HeldJson, SaveResult, save}
use ce_pin.Config.{HostConfig}
use ce_pin.Metrics.{HostMetrics}
use ce_pin.Proto.{OfferResp}

-- What does not change while the host runs.
pub record Host : Type 0 where
  pub host_id : Bytes
  pub roots : List Bytes
  pub cfg : HostConfig
  pub json : HeldJson
  pub pid : Text
  pub held_file : Text

-- What its tasks share: the held-set, the directory that it is saved in, the revoked capabilities,
-- the counters, and the services advertised so far, the latest first.
pub record HostState : Type 0 where
  pub held : HeldSet
  pub directory : Directory
  pub revoked : List (Bytes × ℕ)
  pub metrics : HostMetrics
  pub advertised : List Text

abbrev pub Interference : Type 0
Interference = HostState → HostState

-- How the file system answers a save.
pub record Disk : Type 0 where
  pub directory_ok : Bool
  pub faults : Faults

-- `held.save(&state.held_path)`
unfoldable pub persist : Host → Disk → HostState → SaveResult × HostState
unfolding save
persist host disk s =
    let (result, d) =
      save host.json disk.directory_ok disk.faults host.pid host.held_file s.held s.directory in
    (result, record s { directory = d })

abbrev pub count : (HostMetrics → HostMetrics) → HostState → HostState
count f s = record s { metrics = f s.metrics }

-- `client.advertise_service`, whose answer is ignored.
abbrev pub advertise : Text → HostState → HostState
advertise service s = record s { advertised = service ∷ s.advertised }

-- `client.status().await.map(|s| s.height).unwrap_or(0)`
abbrev pub height_or_zero : Option ℕ → ℕ
height_or_zero h = unwrap_or h 0
