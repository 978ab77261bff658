-- ===== src/Commands/Remove.antt =====
-- `cmd_rm` of src/main.rs: forget a pin, then have its holders release it.
pub mod Ordering
use ce_pin.Prelude.{Bool, false, ◌&&◌, not, Option, none, some, List, [], ◌∷◌, if◌then◌else◌}
use ce_pin.Prelude.Text.{Text, is_empty}
use ce_pin.Held.Storage.{SaveResult, saved, save_failed}
use ce_pin.PinSet.{Entry, PinSet, Replica, LoadResult, loaded, remove}
use ce_pin.Proto.{ReleaseResp}
use ce_pin.Client.Requests.{release, release_req}
use ce_pin.Commands.{
  World, Message, Session, Outcome, done, error, load_error, save_error, not_in_set, release_sent,
  channel_expired, send, caps_hex, load_set, save_set,
}

abbrev pub granted : Option ReleaseResp → Bool
granted none = false
granted (some resp) = resp.released

-- The loop over the holders: a release for each, and the end of the channel of each that released.
unfoldable pub release_each : World → Text → Text → List Replica → List Message
unfolding release release_req
release_each w caps cid [] = []
release_each w caps cid (r ∷ rs) =
    let rest = release_each w caps cid rs in
    release_sent r.holder (release_req caps cid)
    ∷ (if granted (release w.node r caps cid) && not (is_empty r.channel_id)
        then channel_expired r.channel_id ∷ rest
        else rest)

abbrev pub release_after :
    World → Text → Bool → Option Text → Entry → SaveResult × Session → Outcome × Session
release_after w cid local_only caps_arg entry (save_failed, s) = (error save_error, s)
release_after w cid local_only caps_arg entry (saved, s) = (
  done,
  send (if local_only then [] else release_each w (caps_hex w caps_arg) cid entry.replicas) s,
)

abbrev pub remove_found :
    World → Text → Text → Bool → Option Text → Option Entry × PinSet → Session → Outcome × Session
remove_found w file cid local_only caps_arg (none, set) s = (error not_in_set, s)
remove_found w file cid local_only caps_arg (some entry, set) s =
    release_after w cid local_only caps_arg entry (save_set w file set s)

abbrev pub remove_from :
    World → Text → Text → Bool → Option Text → LoadResult → Session → Outcome × Session
remove_from w file cid local_only caps_arg (loaded set) s =
    remove_found w file cid local_only caps_arg (remove set cid) s
remove_from w file cid local_only caps_arg _ s = (error load_error, s)

unfoldable pub cmd_rm : World → Text → Text → Bool → Option Text → Session → Outcome × Session
unfolding release_each
cmd_rm w file cid local_only caps_arg s =
    remove_from w file cid local_only caps_arg (load_set w file s) s
