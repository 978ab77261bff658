-- ===== src/Commands/Remove/Ordering.antt =====
-- `cmd_rm` of src/main.rs: the pin is forgotten on disk before any holder hears of it.
use ce_pin.Prelude.{
  ◌≡◌, true, false, Bool, not, ◌&&◌, Option, List, [], ◌∷◌, ◌++◌, map, filter, if◌then◌else◌,
}
use ce_pin.Prelude.Text.{Text, is_empty}
use ce_pin.Prelude.Map
use ce_pin.Proto.{ReleaseReq}
use ce_pin.Client.Requests.{release}
use ce_pin.PinSet.{PinSet, Entry, Replica, loaded, get, load}
use ce_pin.Prelude.{none}
use ce_pin.Prelude.Text.{text_eq}
use ce_pin.Commands.{
  World, Session, Message, announced, renew_sent, release_sent, channel_expired, Outcome, done,
  error, save_error, caps_hex,
}
use ce_pin.Commands.Remove.{granted}

-- The hosts that were asked to release, with what they were asked.
abbrev pub releases_in : List Message → List (Text × ReleaseReq)
releases_in [] = []
releases_in (release_sent host req ∷ ms) = (host, req) ∷ releases_in ms
releases_in (announced service ∷ ms) = releases_in ms
releases_in (renew_sent host req ∷ ms) = releases_in ms
releases_in (channel_expired id ∷ ms) = releases_in ms

-- The channels that were closed.
abbrev pub closed_in : List Message → List Text
closed_in [] = []
closed_in (channel_expired id ∷ ms) = id ∷ closed_in ms
closed_in (announced service ∷ ms) = closed_in ms
closed_in (renew_sent host req ∷ ms) = closed_in ms
closed_in (release_sent host req ∷ ms) = closed_in ms

-- A replica whose holder says that it released, and that has a channel.
abbrev pub closes : World → Text → Text → Replica → Bool
closes w caps cid r = granted (release w.node r caps cid) && not (is_empty r.channel_id)

-- A pin that is forgotten for good: the file is loaded without it and with every other pin as it
-- was, and, unless the command is local,
-- each holder was asked to release it, once and in order, and the channels were closed of just those
-- that said so.
pub record Forgotten (w : World) (file cid : Text) (local_only : Bool) (caps_arg : Option Text)
    (set : PinSet) (entry : Entry) (outcome : Outcome) (s s' : Session) : Type 0 where
  pub succeeds : outcome ≡ done
  pub after : PinSet
  pub was_saved : load w.json true file s'.directory ≡ loaded after
  pub gone : get after cid ≡ none
  pub others_stay : (other : Text) → text_eq other cid ≡ false → get after other ≡ get set other
  pub messages : List Message
  pub were_sent : s'.sent ≡ s.sent ++ messages
  pub asked : releases_in messages ≡ (
      if local_only
      then []
      else map (λ r. (r.holder, record { caps = caps_hex w caps_arg; cid = cid })) entry.replicas)
  pub closed : closed_in messages ≡ (
      if local_only
      then []
      else map (λ r. r.channel_id) (filter (closes w (caps_hex w caps_arg) cid) entry.replicas))

-- A save that failed: nothing was sent, and the file holds what it held.
pub record Untouched (file : Text) (outcome : Outcome) (s s' : Session) : Type 0 where
  pub fails : outcome ≡ error save_error
  pub same_file : Map.lookup file s'.directory ≡ Map.lookup file s.directory
  pub nothing_sent : s'.sent ≡ s.sent
