-- ===== src/Host/Start.antt =====
-- `serve_with` of src/host.rs up to its loop, and the pass that `maintenance_loop` begins with.
pub mod Durable
use ce_pin.Prelude.{ℕ, ◌≡◌, Bool, Option, none, some, List, [], ◌∷◌}
use ce_pin.Prelude.Text.{Text}
use ce_pin.Files.{Bytes, Directory}
use ce_pin.Audit.{Hashing}
use ce_pin.Config.{HostConfig, EnvVars, from_env}
use ce_pin.Held.{HeldSet}
use ce_pin.Held.Storage.{HeldJson, LoadResult, loaded, io_error, corrupt, load}
use ce_pin.Metrics.{new_metrics}
use ce_pin.Proto.{service_host}
use ce_pin.Host.{Host, HostState, Disk}
use ce_pin.Host.Gc.{readvertise, refresh_revoked, run_gc}
use ce_pin.Host.Dispatch.{sender_key}

-- What a start is given, and what its surroundings answer: the node's id in hexadecimal, and
-- whether the file system grants the read of the held-set and the move of a corrupt one.
pub record Launch : Type 0 where
  pub roots : List Bytes
  pub cfg : HostConfig
  pub json : HeldJson
  pub pid : Text
  pub held_file : Text
  pub node_id : Option Text
  pub reads : Bool
  pub renames : Bool

pub data Started : Type 0 where
  running : Host → HostState → Started
  no_status bad_node_id : Started
  no_held_set : Directory → Started

unfoldable pub host_key : Hashing → Text → Option Bytes
host_key hs host_hex = sender_key (hs.decode host_hex)

abbrev pub new_host : Launch → Bytes → Host
new_host l id = record {
  host_id = id;
  roots = l.roots;
  cfg = l.cfg;
  json = l.json;
  pid = l.pid;
  held_file = l.held_file;
}

abbrev pub initial_state : HeldSet → Directory → HostState
initial_state held d = record {
  held = held;
  directory = d;
  revoked = [];
  metrics = new_metrics;
  advertised = service_host ∷ [];
}

abbrev pub with_held : Launch → Bytes → LoadResult × Directory → Started
with_held l id (loaded held, d) = running (new_host l id) (initial_state held d)
with_held l id (_, d) = no_held_set d

-- A failed advertisement is only logged.
unfoldable pub start : Hashing → Launch → Directory → Started
unfolding load host_key
start hs l d = elim l.node_id [
  | none ↦ no_status
  | some host_hex ↦ elim (host_key hs host_hex) [
    | none ↦ bad_node_id
    | some id ↦ with_held l id (load l.json l.reads l.renames l.held_file d)
  ]
]

-- `serve`: `serve_with` under the configuration of the environment.
unfoldable pub serve : Hashing → EnvVars → Launch → Directory → Started
unfolding start from_env
serve hs env l d = start hs (record l { cfg = from_env env }) d

-- The pass before the timers run.
unfoldable pub startup_pass :
    Host → Hashing → Option (List (Text × ℕ)) → Option ℕ → Disk → HostState → HostState
unfolding readvertise refresh_revoked run_gc
startup_pass host hs revoked height disk s =
    run_gc host height disk (readvertise (refresh_revoked hs revoked s))
