-- ===== src/Examples/Tasks.antt =====
-- The theorems on the host's tasks at concrete schedules.
use ce_pin.Host.{HostState}
use ce_pin.Held.{default_set}
use ce_pin.Held.Storage.{load}
use ce_pin.Host.Tasks.Stored.{Loads}
use ce_pin.Host.Tasks.Stored.Restart.{Restarted, play_all-Restarted}
use ce_pin.Examples.{toy_json-RoundTrips}
use ce_pin.Examples.Roots.{open_host, empty_state, restart, restart-IsRestart}
use ce_pin.Prelude.{
  ℕ, ◌+◌, ◌≤◌, ◌<◌, ◌≡◌, refl, true, false, none, some, List, [], ◌∷◌, ◌++◌, ◌⊎◌, arith, length,
  get_elem?,
}
use ce_pin.Prelude.Text.{Text, lit, text_eq}
use ce_pin.Prelude.Text as Texts
use ce_pin.Prelude.Map
use ce_pin.Held.{contains}
use ce_pin.Held.Capacity.{exact_bytes}
use ce_pin.Config.{Admission, admitted}
use ce_pin.Proto.{OfferReq}
use ce_pin.Host.Offer.{object, admission_at}
use ce_pin.Host.Gc.{every_30s}
use ce_pin.Host.Dispatch.{Call, Reply, offer_reply}
use ce_pin.Host.Tasks.{Request, asking_height, finished, Move, arrive, fire, turn, play_all}
use ce_pin.Host.Tasks.Order.{turns}
use ce_pin.Host.Tasks.Answers.{play_all-Answered}
use ce_pin.Host.Tasks.Breaking.{Keeps}
use ce_pin.Host.Tasks.Promise.{Arrives, idle, Visited, Broken, play_all-Promise}
use ce_pin.Host.Tasks.Race.{stored, two_offers-over_capacity}
use ce_pin.Examples.{open_ended, toy_hashing, toy_host, toy_state, toy_disk}
use ce_pin.Examples.Hosts.{
  small_call, toy_gate, toy_call, sender, tight_host, toy_state-IsHostState,
}

abbrev pub an_offer : Request
an_offer = record { call = toy_call; topic = lit "pin/offer"; from_hex = sender; payload_hex = [] }

-- An offer that has its turns between those of a collection and of a second offer.
abbrev busy : List Move
busy =
    fire (every_30s (some 150) toy_disk)
    ∷ turn 0
    ∷ arrive an_offer
    ∷ turn 1
    ∷ turn 0
    ∷ turn 2
    ∷ turn 0
    ∷ turn 1
    ∷ turn 0
    ∷ []

four_turns : 4 ≤ turns 0 busy
four_turns = omega arith

play_all-Answered_example :
    (reply : Reply) × (get_elem?
        (play_all toy_host toy_hashing toy_gate (arrive an_offer ∷ busy) (idle toy_state)).tasks
        0
      ≡ some (finished reply))
play_all-Answered_example =
    play_all-Answered toy_host toy_hashing toy_gate (idle toy_state) an_offer busy four_turns

finds_a : Map.lookup (lit "a") toy_state.held.entries ≡ some open_ended
unfolding Map.lookup Texts.text_cmp
finds_a = refl

play_all-Promise_example :
    Keeps
      (lit "a")
      open_ended
      (play_all toy_host toy_hashing toy_gate busy (idle toy_state)).shared.held.entries
    ⊎ Broken toy_host toy_hashing toy_gate
        (Visited toy_host toy_hashing toy_gate busy (idle toy_state))
        (Arrives toy_host toy_hashing toy_gate busy)
        busy
        (idle toy_state)
        (lit "a")
play_all-Promise_example =
    play_all-Promise toy_host toy_hashing toy_gate toy_state busy (lit "a") open_ended
      toy_state-IsHostState finds_a

-- Two objects of two bytes each, for a host with room for one of them.
abbrev two_bytes : Call
two_bytes = record toy_call { offer = record small_call { fetched = object (7 ∷ 8 ∷ []) } }

abbrev offer_for : Text → OfferReq
offer_for cid = record {
  caps = [];
  cid = cid;
  bytes_len = 2;
  rent_per_gb_hour = lit "2";
  expiry_height = 500;
}

new_m : contains toy_state.held (lit "m") ≡ false
unfolding contains Map.has_key Texts.text_cmp
new_m = refl

new_n : contains toy_state.held (lit "n") ≡ false
unfolding contains Map.has_key Texts.text_cmp
new_n = refl

apart : text_eq (lit "n") (lit "m") ≡ false
unfolding Texts.text_cmp
apart = refl

admits_first : (admission_at tight_host (some 150) (offer_for (lit "m")) toy_state).0 ≡ admitted
unfolding ce_pin.Config.admit ce_pin.Config.offered_rent Texts.parse_uint Texts.trim
    ce_pin.Held.total_bytes ce_pin.Host.Offer.drop_expired ce_pin.Held.remove_each
    ce_pin.Held.expired Map.keys ce_pin.Held.remove Map.remove Texts.text_cmp
admits_first = refl

admits_second :
    let swept = (admission_at tight_host (some 150) (offer_for (lit "m")) toy_state).1 in
    (admission_at tight_host (some 150) (offer_for (lit "n")) swept).0 ≡ admitted
unfolding ce_pin.Config.admit ce_pin.Config.offered_rent Texts.parse_uint Texts.trim
    ce_pin.Held.total_bytes ce_pin.Host.Offer.drop_expired ce_pin.Held.remove_each
    ce_pin.Held.expired Map.keys ce_pin.Held.remove Map.remove Texts.text_cmp
admits_second = refl

over_together :
    let swept = (admission_at tight_host (some 150) (offer_for (lit "m")) toy_state).1 in
    let left = (admission_at tight_host (some 150) (offer_for (lit "n")) swept).1 in
    12 < exact_bytes left.held + 2 + 2
unfolding ce_pin.Prelude.Map.Sum.sum ce_pin.Host.Offer.drop_expired ce_pin.Held.remove_each
    ce_pin.Held.expired Map.keys ce_pin.Held.remove Map.remove Texts.text_cmp
over_together = omega arith

two_offers-over_capacity_example :
    let waiting =
      asking_height two_bytes (offer_for (lit "m")) (lit "p")
      ∷ asking_height two_bytes (offer_for (lit "n")) (lit "p")
      ∷ [] in
    let after =
      play_all tight_host toy_hashing toy_gate
        (turn 0 ∷ turn 1 ∷ turn 0 ∷ turn 1 ∷ [])
        (record { tasks = waiting; shared = toy_state }) in
    (after.tasks ≡ finished (offer_reply (stored 2)) ∷ finished (offer_reply (stored 2)) ∷ [])
    × (12 < exact_bytes after.shared.held)
two_offers-over_capacity_example =
    two_offers-over_capacity tight_host toy_hashing toy_gate two_bytes two_bytes
      (offer_for (lit "m")) (offer_for (lit "n")) (lit "p") (lit "p") (7 ∷ 8 ∷ []) (7 ∷ 8 ∷ [])
      toy_state toy_state-IsHostState new_m new_n apart refl refl (omega arith) (omega arith)
      admits_first admits_second over_together

-- A host that came up without a file.
abbrev fresh_state : HostState
fresh_state = record empty_state { held = default_set }

fresh_state-Loads : Loads open_host [] default_set
unfolding load Map.lookup
fresh_state-Loads renames = refl

play_all-Restarted_example :
    Restarted open_host toy_hashing toy_gate toy_json-RoundTrips
      (Visited open_host toy_hashing toy_gate busy (idle fresh_state))
      restart
      (play_all open_host toy_hashing toy_gate busy (idle fresh_state)).shared.directory
play_all-Restarted_example =
    play_all-Restarted open_host toy_hashing toy_gate toy_json-RoundTrips busy fresh_state restart
      restart-IsRestart fresh_state-Loads
