-- ===== src/PinSet/Views.antt =====
-- What clients do to the pin-set of src/pinset.rs, in memory and on disk, and the specification by
-- two functions from CIDs to entries: a save copies the one to the other or fails and changes
-- nothing, and a load copies it back.
use ce_pin.Prelude.{◌≡◌, true, Bool, Option, none, some, List, [], ◌∷◌, if◌then◌else◌}
use ce_pin.Prelude.Text.{Text, text_eq}
use ce_pin.Files.{Directory, Faults}
use ce_pin.Held.Storage.{SaveResult, saved}
use ce_pin.PinSet.{
  Entry, PinSet, PinJson, LoadResult, loaded, read_error, parse_error, upsert, remove, get, update,
  load, save,
}
use mathlib.Core.Option

-- What a client does to the pin-set. `reload` is a new process that loads the file.
pub data Op : Type 0 where
  put : Entry → Op
  drop : Text → Op
  change : Text → (Entry → Entry) → Op
  write : Bool → Faults → Op
  reload : Op

pub data Reply : Type 0 where
  quiet : Reply
  dropped : Option Entry → Reply
  wrote : SaveResult → Reply
  unreadable : Reply

-- The set in memory, and the directory of its file.
pub record Store : Type 0 where
  pub set : PinSet
  pub directory : Directory

abbrev pub reloaded : LoadResult → Store → Reply × Store
reloaded (loaded set) c = (quiet, record c { set = set })
reloaded read_error c = (unreadable, c)
reloaded parse_error c = (unreadable, c)

unfoldable pub run_op : PinJson → Text → Text → Op → Store → Reply × Store
unfolding upsert remove update load save
run_op json pid file (put entry) c = (quiet, record c { set = upsert c.set entry })
run_op json pid file (drop cid) c =
    let (found, left) = remove c.set cid in (dropped found, record c { set = left })
run_op json pid file (change cid f) c = (quiet, record c { set = update c.set cid f })
run_op json pid file (write ok faults) c =
    let (result, d) = save json ok faults pid file c.set c.directory in
    (wrote result, record c { directory = d })
run_op json pid file reload c = reloaded (load json true file c.directory) c

-- The replies in order, and the last state.
unfoldable pub run_ops : PinJson → Text → Text → List Op → Store → List Reply × Store
unfolding run_op
run_ops json pid file [] c = ([], c)
run_ops json pid file (op ∷ ops) c =
    let (reply, c1) = run_op json pid file op c in
    let (replies, c2) = run_ops json pid file ops c1 in (reply ∷ replies, c2)

abbrev pub View : Type 0
View = Text → Option Entry

-- The specification's state.
pub record Views : Type 0 where
  pub memory : View
  pub disk : View

-- Its operations; how a save ends is the file system's choice, which the reply tells.
abbrev pub spec_step : Op → Reply → Views → Views
spec_step (put entry) reply v = record v {
  memory = λ cid. if text_eq cid entry.job.cid then some entry else v.memory cid;
}
spec_step (drop cid) reply v = record v {
  memory = λ other. if text_eq other cid then none else v.memory other;
}
spec_step (change cid f) reply v = record v {
  memory = λ other. if text_eq other cid then Option.map f (v.memory other) else v.memory other;
}
spec_step (write ok faults) (wrote saved) v = record v { disk = v.memory }
spec_step (write ok faults) _ v = v
spec_step reload reply v = record v { memory = v.disk }

abbrev pub spec_replay : List Op → List Reply → Views → Views
spec_replay [] replies v = v
spec_replay (op ∷ ops) [] v = v
spec_replay (op ∷ ops) (reply ∷ replies) v = spec_replay ops replies (spec_step op reply v)

-- The replies that the specification allows.
abbrev pub Allowed : Op → Views → Reply → Type 0
Allowed (put entry) v reply = reply ≡ quiet
Allowed (drop cid) v reply = reply ≡ dropped (v.memory cid)
Allowed (change cid f) v reply = reply ≡ quiet
Allowed (write ok faults) v reply = (result : SaveResult) × (reply ≡ wrote result)
Allowed reload v reply = reply ≡ quiet

abbrev pub AllAllowed : List Op → List Reply → Views → Type 0
AllAllowed [] [] v = Unit
AllAllowed [] (reply ∷ replies) v = ⊥
AllAllowed (op ∷ ops) [] v = ⊥
AllAllowed (op ∷ ops) (reply ∷ replies) v =
    Allowed op v reply × AllAllowed ops replies (spec_step op reply v)

-- A store shows the views: each lookup in memory, and each in what a load gives.
pub record Shows (json : PinJson) (file : Text) (c : Store) (v : Views) : Type 0 where
  pub in_memory : (cid : Text) → get c.set cid ≡ v.memory cid
  pub on_disk : PinSet
  pub loads : load json true file c.directory ≡ loaded on_disk
  pub in_file : (cid : Text) → get on_disk cid ≡ v.disk cid
