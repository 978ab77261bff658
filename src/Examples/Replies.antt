-- ===== src/Examples/Replies.antt =====
-- The theorems on the replies and the gate of a host with several tasks at concrete schedules.
use ce_pin.Prelude.{
  ◌≡◌, refl, ◌⊎◌, inl, true, false, not, ◌&&◌, none, some, List, [], ◌∷◌, length, get_elem?,
}
use ce_pin.Prelude.Text.{Text, lit, text_eq}
use ce_pin.Prelude.Text as Texts
use ce_pin.Prelude.Map
use ce_pin.Audit.{prove}
use ce_pin.Held.{contains}
use ce_pin.Proto.{AuditReq, ReleaseReq}
use ce_pin.Host.Dispatch.{Gate, Action, Failure, negative, offer_reply, audit_reply}
use ce_pin.Host.Tasks.{
  Task, Move, arrived, authorized, finished, refreshing, arrive, turn, System, play, play_all,
}
use ce_pin.Host.Tasks.Grants.{Backing}
use ce_pin.Host.Tasks.Promise.{idle, Visited}
use ce_pin.Host.Tasks.Race.{stored}
use ce_pin.Host.Tasks.Race.Audit.{audit_after_release-proves}
use ce_pin.Host.Tasks.Revocation.Barring.{play_all-Barred}
use ce_pin.Host.Tasks.Truthful.{play_all-Backing}
use ce_pin.Examples.{toy_hashing, toy_host, toy_state, one_chunk}
use ce_pin.Examples.Hosts.{toy_gate, toy_call, sender}
use ce_pin.Examples.Tasks.{an_offer}

-- An offer that is served alone.
abbrev alone : List Move
alone = arrive an_offer ∷ turn 0 ∷ turn 0 ∷ turn 0 ∷ turn 0 ∷ []

alone-accepted :
    get_elem? (play_all toy_host toy_hashing toy_gate alone (idle toy_state)).tasks 0
    ≡ some (finished (offer_reply (stored 3)))
unfolding ce_pin.Host.Tasks.play ce_pin.Host.Tasks.play_all ce_pin.Host.Tasks.resume Texts.text_cmp
    Texts.strip_prefix ce_pin.Held.contains Map.has_key ce_pin.Config.admit
    ce_pin.Config.offered_rent Texts.parse_uint Texts.trim ce_pin.Held.total_bytes
    ce_pin.Host.Offer.drop_expired ce_pin.Held.remove_each ce_pin.Held.expired Map.keys
    ce_pin.Held.remove Map.remove ce_pin.Host.Offer.settle ce_pin.Host.Offer.commit
    ce_pin.Held.insert Map.insert ce_pin.Host.Tasks.check ce_pin.Host.Tasks.receive
    ce_pin.Host.Tasks.dispatch ce_pin.Host.Tasks.begin_offer ce_pin.Host.Dispatch.action_of
    ce_pin.Host.Dispatch.is_authorized
alone-accepted = refl

play_all-Backing_example :
    Backing toy_host toy_hashing toy_gate
      (Visited toy_host toy_hashing toy_gate
        (turn 0 ∷ turn 0 ∷ turn 0 ∷ turn 0 ∷ [])
        (play toy_host toy_hashing toy_gate (arrive an_offer) (idle toy_state)))
      (λ x. x ≡ an_offer)
      (offer_reply (stored 3))
play_all-Backing_example =
    play_all-Backing toy_host toy_hashing toy_gate (idle toy_state) an_offer
      (turn 0 ∷ turn 0 ∷ turn 0 ∷ turn 0 ∷ []) (offer_reply (stored 3)) alone-accepted refl

-- A gate at which every payload is an audit, or a release, of the CID `a`.
abbrev an_audit : AuditReq
an_audit = record { caps = []; cid = lit "a"; nonce = lit "01"; chunk_index = 0 }

abbrev a_release : ReleaseReq
a_release = record { caps = []; cid = lit "a" }

abbrev audit_gate : Gate
audit_gate = record toy_gate {
  audit_req = λ payload. some an_audit;
  release_req = λ payload. some a_release;
}

holds_a : contains toy_state.held (lit "a") ≡ true
unfolding contains Map.has_key Map.lookup Texts.text_cmp
holds_a = refl

audit_after_release-proves_example :
    let released_then = play_all toy_host toy_hashing audit_gate (turn 0 ∷ turn 1 ∷ []) (record {
      tasks =
          authorized toy_call Action.audit (lit "x") []
          ∷ authorized toy_call Action.release (lit "y") []
          ∷ [];
      shared = toy_state;
    }) in
    let after = play toy_host toy_hashing audit_gate (turn 0) released_then in
    (contains released_then.shared.held (lit "a") ≡ false)
    × (get_elem? after.tasks 0
        ≡ some (
            finished (
              audit_reply (record {
                proof = some (prove toy_hashing (7 ∷ 8 ∷ 9 ∷ []) (lit "01"));
                reason = none;
              }))))
    × (contains after.shared.held (lit "a") ≡ false)
unfolding ce_pin.Host.Requests.manifest_of
audit_after_release-proves_example =
    audit_after_release-proves toy_host toy_hashing audit_gate toy_call toy_call (lit "x") (lit "y")
      [] [] an_audit a_release one_chunk (lit "k") (7 ∷ 8 ∷ 9 ∷ []) toy_state refl refl refl holds_a
      refl refl refl

-- A gate that refuses all chains while the capability of number one of `sender` is revoked.
abbrev strict_gate : Gate
strict_gate = record toy_gate {
  authorize =
      λ id roots now from ability chain revoked. not (revoked sender 1) && text_eq ability chain;
}

abbrev refreshing_host : System
refreshing_host = record { tasks = refreshing (some ((sender, 1) ∷ [])) ∷ []; shared = toy_state }

play_all-Barred_example :
    let meanwhile =
      play_all toy_host toy_hashing strict_gate
        (turn 0 ∷ [])
        (play toy_host toy_hashing strict_gate (turn 0) refreshing_host) in
    let final =
      play_all toy_host toy_hashing strict_gate
        (turn 1 ∷ turn 1 ∷ [])
        (play toy_host toy_hashing strict_gate (arrive an_offer) meanwhile) in
    (t : Task) × (get_elem? final.tasks (length meanwhile.tasks) ≡ some t)
    × ((t ≡ arrived an_offer) ⊎ ((f : Failure) × (t ≡ finished (negative f))))
play_all-Barred_example =
    play_all-Barred toy_host toy_hashing strict_gate sender 1 (λ chain. Unit {0})
      (λ now from ability chain revoked link v. rw v refl) 0 ((sender, 1) ∷ []) an_offer
      (turn 0 ∷ []) (turn 1 ∷ turn 1 ∷ []) refreshing_host refl refl (inl (refl, refl))
      (inl (refl, refl), tt) (tt, tt) (tt, (tt, tt)) (λ payload caps chain p c d. tt)
