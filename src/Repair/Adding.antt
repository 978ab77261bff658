-- ===== src/Repair/Adding.antt =====
-- The replicas that `replicate` of src/client.rs brings, as src/repair.rs adds them to a pin.
use ce_pin.Prelude.{
  ℕ, ◌≡◌, ◌≢◌, refl, sym, ap, ◌∙◌, true, false, some, List, [], ◌∷◌, ◌++◌, map, filter, length, All,
  arith, if◌then◌else◌, append_assoc, append-nil,
}
use ce_pin.Prelude.Text.{Text, text_eq, contains}
use ce_pin.Prelude.Text.Laws.{text_cmp-IsOrder}
use ce_pin.Prelude.Map.Removal.{IsNodup}
use ce_pin.Placement.{Candidate, select}
use ce_pin.Placement.Selection.{contains-concat}
use ce_pin.PinSet.{Replica}
use ce_pin.Client.{Market, Terms, accepted, offer_req, place, place_any, replicate}
use ce_pin.Client.Replicas.{holders}
use ce_pin.Repair.{mark, push_new}
use ce_pin.Repair.Plan.{any-holder, holders-append, live}

-- Where every host accepts the offer, each target gets a replica, and it counts as healthy.
module _ (market : Market) (t : Terms)
    (willing : (host : Text) → accepted (market.offer_reply host (offer_req t)) ≡ true) where
  pub place-length : (hosts : List Text) → length (place market t hosts) ≡ length hosts
  unfolding place
  place-length [] = refl
  place-length (host ∷ hosts) = ground (arith, willing host, place-length hosts)

  pub place-healthy :
      (hosts : List Text)
      → filter (λ r. r.last_proof_ok) (place market t hosts) ≡ place market t hosts
  unfolding place
  place-healthy [] = refl
  place-healthy (host ∷ hosts) = ground (arith, willing host, place-healthy hosts)

-- Replicas on other hosts.
abbrev Fresh : List Replica → List Replica → Type 0
Fresh rs = All (λ r. contains (holders rs) r.holder ≡ false)

holders-concat :
    (rs : List Replica) (nr : Replica) (h : Text)
    → contains (holders (rs ++ nr ∷ [])) h
      ≡ (if contains (holders rs) h then true else text_eq h nr.holder)
holders-concat rs nr h =
    ap (λ hs. contains hs h) (holders-append rs nr) ∙ contains-concat (holders rs) nr.holder h

Fresh-concat :
    (nr : Replica) (new_replicas rs : List Replica)
    → contains (holders new_replicas) nr.holder ≡ false
    → Fresh rs new_replicas
    → Fresh (rs ++ nr ∷ []) new_replicas
unfolding contains
Fresh-concat nr [] rs n h = tt
Fresh-concat nr (x ∷ xs) rs n h = ground (
  arith,
  holders-concat rs nr x.holder,
  text_cmp-IsOrder.flip nr.holder x.holder,
  Fresh-concat nr xs rs,
  h,
)

-- Replicas on other hosts, all different, are all added.
pub push_new-all :
    (new_replicas rs : List Replica)
    → IsNodup (holders new_replicas)
    → Fresh rs new_replicas
    → push_new new_replicas rs ≡ rs ++ new_replicas
unfolding push_new
push_new-all [] rs d h = sym (append-nil rs)
push_new-all (nr ∷ new_replicas) rs d h =
    let rest =
      push_new-all new_replicas (rs ++ nr ∷ []) d.1 (Fresh-concat nr new_replicas rs d.0 h.1) in
    rw (any-holder rs nr.holder, h.0) (rest ∙ append_assoc rs (nr ∷ []) new_replicas)

-- The marked replicas that count as healthy are those of the holders that passed.
pub mark-healthy :
    (healthy : List Text) (rs : List Replica)
    → length (filter (λ r. r.last_proof_ok) (map (mark healthy) rs)) ≡ live rs healthy
mark-healthy healthy [] = refl
mark-healthy healthy (r ∷ rs) = ground (arith, mark-healthy healthy rs)

pub replicate-select :
    (market : Market) (t : Terms) (n : ℕ) (cs : List Candidate) (exclude : List Text)
    → select cs n exclude ≢ []
    → replicate market t n cs exclude ≡ some (place market t (select cs n exclude))
unfolding replicate
replicate-select market t n cs exclude h = place_any-some (select cs n exclude) h
  where
    place_any-some :
        (hosts : List Text) → hosts ≢ [] → place_any market t hosts ≡ some (place market t hosts)
    place_any-some [] h = absurd (h refl)
    place_any-some (host ∷ hosts) h = refl
