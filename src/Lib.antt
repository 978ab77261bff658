-- ===== src/Lib.antt =====
-- ce-pin: a replication and pinning service on the ce network. A host keeps paid commitments to store
-- objects (the held-set), answers capability-gated requests about them and collects garbage; a publisher
-- keeps an index of what it pinned (the pin-set), chooses hosts, audits them, pays rent and repairs lost
-- replicas.
--
-- The files, by the part of the repository that they model:
--
-- - Held (src/held.rs, HeldSet and HeldEntry): contains, len, total_bytes, insert, touch, remove, expired
--   and evict_to_fit, each under its name; take_victims is the loop of evict_to_fit. Held.Storage: load and
--   save with the migration of the old shape. Files: atomic_write as the list of its file operations.
-- - Config (src/config.rs): HostConfig, from_env, admit. Metrics (src/metrics.rs): the counters. Audit
--   (src/audit.rs): challenge_index, prove, verify, nonce_from_seed. Proto (src/proto.rs): the messages.
-- - Host (src/host.rs): the shared state. Host.Offer: do_offer. Host.Requests: do_audit, do_status, do_renew
--   and the release. Host.Gc: run_gc, refresh_revoked, readvertise. Host.Dispatch: handle, handle_inner.
--   Host.Steps: requests and timers as whole steps. Host.Tasks: handlers and passes as tasks that run at
--   once, a turn from one wait to the next; play_all runs any schedule of arrivals, timers and turns.
--   Host.Tasks.Budget: the list of what is held or fetched; Host.Tasks.Counters: the counter of a reply.
--   Host.Tasks.Grants: what stands behind a reply; Host.Tasks.Revocation: the revoked set; Host.Tasks.Race:
--   orders of two requests that matter.
--   Host.Start: serve_with up to its loop, and the first pass of maintenance_loop.
-- - Placement (src/placement.rs): rank, select, fault_domain_from_tags. PinSet (src/pinset.rs), and
--   PinSet.Views, a specification of it by two functions.
-- - Client (src/client.rs): candidate_hosts, replicate, the rent; Client.Probe: audit_replica;
--   Client.Requests: the single requests (get is called fetch); Client.Placing:
--   offers that reach hosts.
-- - Repair (src/repair.rs): repair_plan and repair_once; repair_set is its loop over a loaded pin-set.
--   Repair.Watch: watch.
-- - Commands (src/main.rs): what the commands share; Commands.Add, Inspect, Remove, Renew and Watch: the
--   functions cmd_add, cmd_get, cmd_ls and so on; Commands.Dispatch: Cmd, and main as run_main.
-- - Paths: the paths of src/pinset.rs, src/host.rs, src/caps.rs and src/lib.rs. Caps (src/caps.rs):
--   resolve. Roots (src/lib.rs): load_roots.
-- - Prelude: numbers, lists, saturating words, orders with the stable sort, text and the ordered map.
--   Examples: toy inputs, and the theorems applied to them.
--
-- How they interact: a request goes through Host.Dispatch to a handler, which reads and writes the state
-- of Host; admission is Config, the accounting Held, the file Held.Storage over Files. An audit starts in
-- Client.Probe and ends in Host.Requests. A repair pass of Repair uses Client.Probe, Client and Placement.
-- Commands uses Client, Repair and PinSet; the requests that it sends are those that Host.Requests answers.
--
-- Conventions. State is passed explicitly. What the code asks of the node, the clock, the file system and
-- other crates is an argument: records such as OfferCall, BlobCall, Market, Auditor, Pass, Node and World
-- hold the answers, and HeldJson, PinJson, Hashing and Gate the crates for JSON, hashing and capabilities. The host
-- lets its lock go across every call of the node; there an Interference, any function on the state, stands
-- for the other tasks. A map is the list of its entries in key order, a text the list of its code points, a
-- file the list of its bytes. u64 and u128 are natural numbers with the saturation or wrap-around of the
-- source written out; usize has 64 bits. Text of an error is kept as the data that it is formatted from.
-- Loops are structural recursion; the one number that bounds a loop is 39, the digits of a u128 that
-- show_nat prints, which suffices as 2 ^ 128 < 10 ^ 39. The loops that end by an interrupt, watch and the
-- host's, are taken over a list of rounds or steps of any length. The sum of a height and of blocks in
-- Commands wraps as in a build without overflow checks.
--
-- Not modelled: the inbound loop of ce_rs that serve_with runs, and its worker pool; the timers of the
-- maintenance loop and of the repair daemon, which only choose when a pass runs; the parser of the command
-- line, which clap derives; what the commands print, but for the rows of ls; logging and the clock.
pub mod Prelude
pub mod Files
pub mod Held
pub mod Config
pub mod Paths
pub mod Caps
pub mod Metrics
pub mod Audit
pub mod Roots
pub mod Proto
pub mod Host
pub mod Placement
pub mod PinSet
pub mod Client
pub mod Repair
pub mod Commands
pub mod Examples
