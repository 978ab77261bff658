-- ===== src/Commands/Add/Recording.antt =====
-- `cmd_add` of src/main.rs: what is recorded of a published file.
use ce_pin.Commands.Add.Publishing.{IsPublished}
use ce_pin.Prelude.Map.Removal.{IsNodup}
use ce_pin.Prelude.Text.{Text}
use ce_pin.Client.Replicas.{holders, Placed}
use ce_pin.PinSet.{PinSet, Replica, loaded, load}
use ce_pin.PinSet.{get}
use ce_pin.Prelude.{ℕ, suc, ◌+◌, ◌%◌, ◌^◌, Option, some}
use ce_pin.Prelude.Text.{text_eq}
use ce_pin.Commands.{show_int}
use ce_pin.Prelude.{true, ◌≤◌, ◌≡◌, false, length, List, All}
use ce_pin.Commands.{Session, World}
use ce_pin.Commands.Add.{add_terms, AddArgs, Published}

-- Replicas on different hosts, no more than asked for, each of which accepted the offer.
pub record AreReplicas (w : World) (a : AddArgs) (p : Published) (rs : List Replica) : Type 0 where
  pub few : length rs ≤ a.replication
  pub once : IsNodup (holders rs)
  pub on_offer : All (Placed w.market (add_terms w a p)) rs

-- The height at which the lease of a pin ends: the height that the node told and the blocks together,
-- or 0, for an open lease, where no blocks were given or the node told no height.
abbrev pub lease_end : Option ℕ → ℕ → ℕ
lease_end (some height) (suc blocks) = (height + suc blocks) % 2 ^ 64
lease_end _ _ = 0

-- What a successful command has done.
pub record Recorded (w : World) (file : Text) (a : AddArgs) (s s' : Session) : Type 0 where
  pub object : Published
  pub is_published : IsPublished w a object
  pub before : PinSet
  pub was_there : load w.json true file s.directory ≡ loaded before
  pub after : PinSet
  pub is_there : load w.json true file s'.directory ≡ loaded after
  pub replicas : List Replica
  pub recorded :
      get after object.cid
      ≡ some (record {
        job = record {
          cid = object.cid;
          bytes_len = length is_published.bytes;
          replication = a.replication;
          rent_per_gb_hour = show_int is_published.amount;
          expiry_height = lease_end w.node.height a.expiry_blocks;
          label = a.label;
        };
        replicas = replicas;
      })
  pub others_stay :
      (other : Text) → text_eq other object.cid ≡ false → get after other ≡ get before other
  pub on_hosts : AreReplicas w a object replicas
