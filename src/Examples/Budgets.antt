-- ===== src/Examples/Budgets.antt =====
-- The theorems on the disk budget and the counters of a host, where two offers are served at once.
use ce_pin.Prelude.{
  ℕ, ◌+◌, ◌%◌, ◌^◌, ◌≤◌, ◌≡◌, refl, ap, sym, subst, some_inj, List, [], ◌∷◌, arith, length, All,
  if◌then◌else◌,
}
use ce_pin.Prelude.Text.{Text, lit, text_eq}
use ce_pin.Prelude.Text as Texts
use ce_pin.Prelude.Map
use ce_pin.Held.Capacity.{exact_bytes}
use ce_pin.Host.Offer.{Fetched, object, failed, timed_out}
use ce_pin.Host.Tasks.{Move, arrive, turn, play_all}
use ce_pin.Host.Tasks.Promise.{idle}
use ce_pin.Host.Tasks.Budget.{Sized, Honest, HonestRequest}
use ce_pin.Host.Tasks.Budget.Within.{HonestMove, AtMost, play_all-within_budget}
use ce_pin.Host.Tasks.Counters.{accepting, read, tally}
use ce_pin.Host.Tasks.Counters.Telling.{play_all-tally}
use ce_pin.Examples.{two_held, toy_hashing, toy_host, toy_state}
use ce_pin.Examples.Hosts.{offer_of, toy_gate, toy_call, toy_state-IsHostState}
use ce_pin.Examples.Tasks.{an_offer}

-- Two offers that are fetched at once.
abbrev together : List Move
together =
    arrive an_offer
    ∷ arrive an_offer
    ∷ turn 0
    ∷ turn 1
    ∷ turn 0
    ∷ turn 1
    ∷ turn 0
    ∷ turn 1
    ∷ turn 0
    ∷ turn 1
    ∷ []

-- The sizes of the objects.
abbrev sizes : Text → ℕ
sizes cid = if text_eq cid (lit "n") then 3 else if text_eq cid (lit "b") then 20 else 10

abbrev fetched_length : Fetched → ℕ
fetched_length (object bytes) = length bytes
fetched_length failed = 0
fetched_length timed_out = 0

an_offer-Honest : HonestRequest sizes 100 toy_hashing toy_gate an_offer
unfolding Texts.text_cmp
an_offer-Honest payload is_sent req asked =
    subst (Honest sizes 100 toy_call) (some_inj (offer_of 3) req asked)
      (record { fetches = λ bytes got. ap fetched_length (sym got); declares = omega arith })

two_held-Sized : All (Sized sizes 100) two_held.entries
unfolding Texts.text_cmp
two_held-Sized = omega arith

together-AtMost : AtMost toy_host toy_hashing toy_gate sizes 1 together (idle toy_state)
unfolding ce_pin.Host.Tasks.play ce_pin.Host.Tasks.resume Texts.text_cmp Texts.strip_prefix
    ce_pin.Held.contains Map.has_key ce_pin.Config.admit ce_pin.Config.offered_rent Texts.parse_uint
    Texts.trim ce_pin.Held.total_bytes ce_pin.Host.Offer.drop_expired ce_pin.Held.remove_each
    ce_pin.Held.expired Map.keys ce_pin.Held.remove Map.remove ce_pin.Host.Offer.settle
    ce_pin.Host.Offer.commit ce_pin.Held.insert Map.insert ce_pin.Host.Tasks.check
    ce_pin.Host.Tasks.receive ce_pin.Host.Tasks.dispatch ce_pin.Host.Tasks.begin_offer
    ce_pin.Host.Dispatch.action_of ce_pin.Host.Dispatch.is_authorized
together-AtMost = omega arith

together-Honest : All (HonestMove toy_host toy_hashing toy_gate sizes) together
together-Honest =
    (an_offer-Honest, (an_offer-Honest, (tt, (tt, (tt, (tt, (tt, (tt, (tt, (tt, tt))))))))))

two_held-fits : exact_bytes two_held ≤ 125
unfolding ce_pin.Prelude.Map.Sum.sum
two_held-fits = omega arith

play_all-within_budget_example :
    exact_bytes (play_all toy_host toy_hashing toy_gate together (idle toy_state)).shared.held ≤ 125
play_all-within_budget_example =
    play_all-within_budget toy_host toy_hashing toy_gate sizes 1 together toy_state (omega arith)
      toy_state-IsHostState two_held-Sized two_held-fits together-Honest together-AtMost

play_all-tally_example :
    let after = play_all toy_host toy_hashing toy_gate together (idle toy_state) in
    read accepting after.shared.metrics ≡ (0 + tally accepting after.tasks) % 2 ^ 64
play_all-tally_example =
    play_all-tally toy_host toy_hashing toy_gate accepting together toy_state (omega arith)
