-- ===== src/Commands.antt =====
-- The commands of src/main.rs: what each does to the pin-set's file and what it sends, by what the
-- world answers. What is printed is left out, but for the table of `ls`.
pub mod Rent
pub mod Add
pub mod Inspect
pub mod Remove
pub mod Renew
pub mod Watch
pub mod Dispatch
use ce_pin.Prelude.{
  ℕ, suc, ◌+◌, ◌%◌, ◌^◌, ◌≡◌, Bool, Option, none, some, List, ◌∷◌, ◌++◌, ℤ, pos, negsuc,
}
use ce_pin.Prelude.Text.{Text, lit}
use ce_pin.Prelude.Text.Decimal.{show_nat}
use ce_pin.Config.{EnvVars}
use ce_pin.Files.{Bytes, Directory, Faults}
use ce_pin.Audit.{Hashing}
use ce_pin.Caps
use ce_pin.Client.{Network, Market}
use ce_pin.Client.Probe.{Auditor}
use ce_pin.Client.Requests.{Node}
use ce_pin.Held.Storage.{SaveResult}
use ce_pin.Proto.{RenewReq, ReleaseReq}
use ce_pin.PinSet.{PinSet, PinJson, LoadResult, load, save}

-- What a command is given: the process's environment, the answers of the file system, and those of
-- the node. `parse_credits` is `Amount::parse_credits` with the base units of its result, an i128;
-- `read_text`, `file_size`, `file_bytes` and `write_file` are
-- `read_to_string`, `metadata`, `read` and `write` of `std::fs`; `meanwhile` is what other processes do to the files
-- while the command waits for the node.
pub record World : Type 0 where
  pub env : EnvVars
  pub config_dir : Option Text
  pub read_text : Text → Option Text
  pub file_size : Text → Option ℕ
  pub file_bytes : Text → Option Bytes
  pub write_file : Text → Bytes → Bool
  pub parse_credits : Text → Option ℤ
  pub json : PinJson
  pub pid : Text
  pub reads : Bool
  pub directory_ok : Bool
  pub faults : Faults
  pub meanwhile : Directory → Directory
  pub node : Node
  pub network : Network
  pub market : Market
  pub hs : Hashing
  pub auditor : Text → Auditor

-- What a command sends to the network.
pub data Message : Type 0 where
  announced : Text → Message
  renew_sent : Text → RenewReq → Message
  release_sent : Text → ReleaseReq → Message
  channel_expired : Text → Message

-- The files, and the messages sent so far, in their order.
pub record Session : Type 0 where
  pub directory : Directory
  pub sent : List Message

pub data Error : Type 0 where
  stat_failed too_large input_unreadable bad_rent publish_failed : Error
  load_error save_error not_in_set fetch_error output_unwritable announce_error : Error
  repair_error : Error

pub data Outcome : Type 0 where
  done : Outcome
  error : Error → Outcome

abbrev pub send : List Message → Session → Session
send messages s = record s { sent = s.sent ++ messages }

abbrev pub wait : World → Session → Session
wait w s = record s { directory = w.meanwhile s.directory }

-- `caps::resolve`
unfoldable pub caps_hex : World → Option Text → Text
caps_hex w caps_arg = Caps.resolve caps_arg w.env w.config_dir w.read_text

-- `PinSet::load(pinset_path)`
unfoldable pub load_set : World → Text → Session → LoadResult
unfolding load
load_set w file s = load w.json w.reads file s.directory

-- `set.save(pinset_path)`
unfoldable pub save_set : World → Text → PinSet → Session → SaveResult × Session
unfolding save
save_set w file set s =
    let (result, d) = save w.json w.directory_ok w.faults w.pid file set s.directory in
    (result, record s { directory = d })

-- `Display` of an i128.
unfoldable pub show_int : ℤ → Text
unfolding show_nat
show_int (pos n) = show_nat n
show_int (negsuc n) = lit "-" ++ show_nat (suc n)

-- `+` at u64, as a build without overflow checks computes it.
unfoldable pub wrapping_add_64 : ℕ → ℕ → ℕ
wrapping_add_64 a b = (a + b) % 2 ^ 64
