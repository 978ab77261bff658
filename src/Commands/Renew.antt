-- ===== src/Commands/Renew.antt =====
-- `cmd_renew` of src/main.rs: extend a pin's lease at its holders, and record it.
pub mod Recording
pub mod EndToEnd
use ce_pin.Prelude.{ℕ, Option, none, some, map, unwrap_or, ℤ}
use ce_pin.Prelude.Text.{Text}
use ce_pin.PinSet.{Entry, PinSet, LoadResult, loaded, get, update}
use ce_pin.Client.Requests.{renew_req}
use ce_pin.Commands.{
  caps_hex, World, Session, Outcome, error, load_error, not_in_set, bad_rent, renew_sent, send,
  wait, load_set, save_set, show_int, wrapping_add_64,
}
use ce_pin.Commands.Add.{finished}

abbrev shown : Option ℤ → Option Text
shown none = none
shown (some amount) = some (show_int amount)

-- The rent of the renewed lease: the new one, or the recorded one.
unfoldable pub renewed_rent : World → Entry → Option Text → Option Text
unfolding show_int
renewed_rent w entry none = some entry.job.rent_per_gb_hour
renewed_rent w entry (some credits) = shown (w.parse_credits credits)

-- The height is taken for 0 where the node does not tell it.
unfoldable pub new_expiry : World → ℕ → ℕ
unfolding wrapping_add_64
new_expiry w expiry_blocks = wrapping_add_64 (unwrap_or w.node.height 0) expiry_blocks

abbrev pub renew_lease : ℕ → Text → Entry → Entry
renew_lease expiry rent e = record e {
  job = record (e.job) { expiry_height = expiry; rent_per_gb_hour = rent };
}

abbrev pub renew_with :
    World → Text → Text → Text → ℕ → PinSet → Entry → Option Text → Session → Outcome × Session
renew_with w file caps cid expiry set entry none s = (error bad_rent, s)
renew_with w file caps cid expiry set entry (some rent) s = finished (
    save_set w file (update set cid (renew_lease expiry rent)) (
      send (map (λ r. renew_sent r.holder (renew_req caps cid expiry rent)) entry.replicas)
        (wait w s)))

abbrev pub renew_found :
    World
    → Text
    → Text
    → ℕ
    → Option Text
    → Option Text
    → PinSet
    → Option Entry
    → Session
    → Outcome × Session
renew_found w file cid expiry_blocks rent caps_arg set none s = (error not_in_set, s)
renew_found w file cid expiry_blocks rent caps_arg set (some entry) s =
    renew_with w file (caps_hex w caps_arg) cid (new_expiry w expiry_blocks) set entry
      (renewed_rent w entry rent) s

abbrev pub renew_from :
    World → Text → Text → ℕ → Option Text → Option Text → LoadResult → Session → Outcome × Session
renew_from w file cid expiry_blocks rent caps_arg (loaded set) s =
    renew_found w file cid expiry_blocks rent caps_arg set (get set cid) s
renew_from w file cid expiry_blocks rent caps_arg _ s = (error load_error, s)

-- The replies of the holders are only printed, and change nothing here.
unfoldable pub cmd_renew :
    World → Text → Text → ℕ → Option Text → Option Text → Session → Outcome × Session
unfolding renewed_rent new_expiry renew_req
cmd_renew w file cid expiry_blocks rent caps_arg s =
    renew_from w file cid expiry_blocks rent caps_arg (load_set w file s) s
