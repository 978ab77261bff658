-- ===== src/Host/Tasks/Stored/Restart.antt =====
-- Whenever the process of src/host.rs ends, a start on its file finds a held-set that it had.
use ce_pin.Prelude.{◌≡◌, refl, inl, inr, List, [], ◌∷◌, arith}
use ce_pin.Files.{Directory}
use ce_pin.Audit.{Hashing}
use ce_pin.Held.{HeldSet, held_schema_version}
use ce_pin.Held.Storage.Recovery.{RoundTrips}
use ce_pin.Host.{Host, HostState}
use ce_pin.Host.Dispatch.{Gate}
use ce_pin.Host.Start.{Launch, start, running, new_host, initial_state}
use ce_pin.Host.Start.Durable.{IsRestart}
use ce_pin.Host.Tasks.{System, Move, play, play_all}
use ce_pin.Host.Tasks.Promise.{idle, Visited}
use ce_pin.Host.Tasks.Stored.{Loads, Writes, load_found}
use ce_pin.Host.Tasks.Stored.Turns.{play-Writes}

module _ (host : Host) (hs : Hashing) (gate : Gate) (json : RoundTrips host.json) where
  -- A load finds the entries of a state that `P` holds of.
  record FileOf (P : HostState → Type 0) (d : Directory) : Type 0 where
    set : HeldSet
    loads : Loads host d set
    state : HostState
    past : P state
    same_entries : set.entries ≡ state.held.entries

  Writes-FileOf :
      (P : HostState → Type 0) (s t : HostState)
      → Writes host s t
      → P t
      → FileOf P s.directory
      → FileOf P t.directory
  Writes-FileOf P s t (inl same) p f = record {
    set = f.set;
    loads = λ renames.
        load_found host.json renames host.held_file s.directory t.directory f.set _ refl same
          (f.loads renames);
    state = f.state;
    past = f.past;
    same_entries = f.same_entries;
  }
  Writes-FileOf P s t (inr found) p f = record {
    set = record (t.held) { version = held_schema_version };
    loads = found;
    state = t;
    past = p;
    same_entries = refl;
  }

  Visited-shared : (ms : List Move) (sys : System) → Visited host hs gate ms sys sys.shared
  Visited-shared [] sys = refl
  Visited-shared (m ∷ ms) sys = inl refl

  play_all-FileOf :
      (P : HostState → Type 0) (ms : List Move) (sys : System)
      → ((s : HostState) → Visited host hs gate ms sys s → P s)
      → FileOf P sys.shared.directory
      → FileOf P (play_all host hs gate ms sys).shared.directory
  unfolding play_all
  play_all-FileOf P [] sys past f = f
  play_all-FileOf P (m ∷ ms) sys past f =
      play_all-FileOf P ms (play host hs gate m sys) (λ s v. past s (inr v))
        (Writes-FileOf P sys.shared (play host hs gate m sys).shared
          (play-Writes host hs gate json m sys)
          (past (play host hs gate m sys).shared
            (inr (Visited-shared ms (play host hs gate m sys))))
          f)

  -- A start that comes up as the same host, with the entries of a state that `P` holds of.
  pub record Restarted (P : HostState → Type 0) (l : Launch) (d : Directory) : Type 0 where
    pub again : Host
    pub state : HostState
    pub starts : start hs l d ≡ running again state
    pub same_id : again.host_id ≡ host.host_id
    pub before : HostState
    pub past : P before
    pub same_entries : state.held.entries ≡ before.held.entries

  start_on :
      (l : Launch) (d : Directory) (h : HeldSet)
      → IsRestart hs host l
      → Loads host d h
      → start hs l d ≡ running (new_host l host.host_id) (initial_state h d)
  unfolding start
  start_on l d h r found =
      ground (arith, r.node.1, r.same_json, r.same_file, r.can_read, found l.renames)

  -- A host that started on its file and ends after any schedule, whatever was refused to its saves,
  -- is started again on that file with the entries of the held-set that it had at some time in the
  -- schedule, if JSON reads back what it writes.
  pub play_all-Restarted :
      (ms : List Move) (s : HostState) (l : Launch)
      → IsRestart hs host l
      → Loads host s.directory s.held
      → Restarted
          (Visited host hs gate ms (idle s))
          l
          (play_all host hs gate ms (idle s)).shared.directory
  play_all-Restarted ms s l r found =
      let P = Visited host hs gate ms (idle s) in
      let f =
        play_all-FileOf P ms (idle s) (λ t v. v)
          (record {
            set = s.held;
            loads = found;
            state = s;
            past = Visited-shared ms (idle s);
            same_entries = refl;
          }) in
      record {
        again = new_host l host.host_id;
        state = initial_state f.set _;
        starts = start_on l _ f.set r f.loads;
        same_id = refl;
        before = f.state;
        past = f.past;
        same_entries = f.same_entries;
      }
