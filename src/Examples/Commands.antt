-- ===== src/Examples/Commands.antt =====
-- The theorems on the commands at concrete inputs.
use ce_pin.Files.Crash.{no_faults}
use ce_pin.Prelude.{◌≡◌, refl, true, none, some, [], ◌∷◌, arith, pos}
use ce_pin.Prelude.Text.{Text, lit}
use ce_pin.Prelude.Text as Texts
use ce_pin.Prelude.Map
use ce_pin.Config.{offered_rent}
use ce_pin.Files.{Directory}
use ce_pin.Held.{HeldEntry}
use ce_pin.Client.Requests.{Node, renew_req}
use ce_pin.Commands.{World, Session, show_int}
use ce_pin.Commands.Add.{AddArgs}
use ce_pin.Commands.Rent.{offered_rent-show_int}
use ce_pin.Commands.Renew.EndToEnd.{Lasts, do_renew-Lasts}
use ce_pin.Host.Requests.{do_renew}
use ce_pin.Examples.{toy_hashing, toy_host, toy_state, toy_disk}
use ce_pin.Examples.PinJson.{toy_pin_json, held_saved}
use ce_pin.Examples.Clients.{toy_auditor, toy_market}

offered_rent-show_int_example : offered_rent (show_int (pos 7)) ≡ 7
offered_rent-show_int_example = offered_rent-show_int (pos 7) (omega arith)

-- A node at height 0 that publishes every object as `q`, and whose hosts say yes.
abbrev toy_node : Node
toy_node = record {
  put_object = λ bytes. some (lit "q");
  get_object = λ cid. none;
  advertise_service = λ service. true;
  find_service = λ service. none;
  height = some 0;
  request_renew = λ host req. none;
  request_release = λ host req. some (record { released = true; reason = none });
  request_status = λ host req. some (record { held = true; bytes = 3 });
}

abbrev toy_world : World
toy_world = record {
  env = λ key. none;
  config_dir = none;
  read_text = λ path. none;
  file_size = λ path. some 3;
  file_bytes = λ path. some (7 ∷ 8 ∷ 9 ∷ []);
  write_file = λ path bytes. true;
  parse_credits = λ credits. some (pos 0);
  json = toy_pin_json;
  pid = lit "1";
  reads = true;
  directory_ok = true;
  faults = no_faults;
  meanwhile = λ d. d;
  node = toy_node;
  network = record { advertised = none; atlas = none; self_id = none; delivered_work = λ id. none };
  market = toy_market;
  hs = toy_hashing;
  auditor = λ host. toy_auditor;
}

abbrev new_session : Session
new_session = record { directory = []; sent = [] }

abbrev held_session : Session
held_session = record { directory = held_saved; sent = [] }

abbrev add_q : AddArgs
add_q = record {
  file = lit "file";
  replication = 0;
  rent = lit "0";
  expiry_blocks = 400;
  label = none;
  caps_arg = none;
  no_replicate = true;
  max_size = 10;
}

renews_b :
    (do_renew toy_host toy_disk 5
      (renew_req [] (lit "b") 600 (show_int (pos 7)))
      toy_state).0.renewed
    ≡ true
unfolding do_renew Map.lookup Texts.text_cmp renew_req
renews_b = refl

do_renew-Lasts_example :
    (e : HeldEntry) × (Map.lookup
        (lit "b")
        (do_renew toy_host toy_disk 5
          (renew_req [] (lit "b") 600 (show_int (pos 7)))
          toy_state).1.held.entries
      ≡ some e)
    × Lasts 600 7 e
do_renew-Lasts_example =
    do_renew-Lasts toy_host toy_disk 5 [] (lit "b") 600 (pos 7) toy_state (omega arith) renews_b
