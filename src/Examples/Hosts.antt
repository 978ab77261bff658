-- ===== src/Examples/Hosts.antt =====
-- The theorems on the host's handlers, its maintenance and the proof of retrievability at concrete
-- inputs.
use ce_pin.Prelude.{
  ℕ, ◌+◌, ◌≤◌, ◌<◌, ◌≡◌, ◌≢◌, refl, Bool, true, false, Option, none, some, List, [], ◌∷◌, ◌⊎◌,
  arith, length, u64_max, unwrap_or, get_elem?, if◌then◌else◌,
}
use ce_pin.Prelude.Text.{Text, lit, strip_prefix, text_eq}
use ce_pin.Prelude.Text as Texts
use ce_pin.Prelude.Map
use ce_pin.Files.{Bytes}
use ce_pin.Audit.{prove, verify, nonce_bytes}
use ce_pin.Audit.Soundness.{Collision, verify-binds}
use ce_pin.Held.{HeldEntry, HeldSet, contains, total_bytes, is_expired}
use ce_pin.Held.Capacity.{exact_bytes}
use ce_pin.Config.{Admission, admitted}
use ce_pin.Proto.{OfferReq, AuditReq, StatusReq, topic_prefix}
use ce_pin.Host.{Host}
use ce_pin.Host.Offer.{OfferCall, object, do_offer, admission, drop_expired}
use ce_pin.Host.Offer.Replies.{Accepted, do_offer-Accepted}
use ce_pin.Host.Offer.Capacity.{IsHostState, IsQuiet, do_offer-over_capacity}
use ce_pin.Host.Requests.{manifest_of, do_audit}
use ce_pin.Host.Gc.{run_gc}
use ce_pin.Host.Gc.Laws.{run_gc-fits}
use ce_pin.Host.Dispatch.{Gate, Call, Failure, negative, handle}
use ce_pin.Host.Dispatch.Authority.{Granted, Untouched, handle-Granted}
use ce_pin.Examples.{toy_hashing, toy_host, toy_state, one_chunk, toy_blobs, toy_disk}

pub toy_state-IsHostState : IsHostState toy_state
unfolding Texts.text_cmp
toy_state-IsHostState = ((refl, tt), (tt, tt))

toy_state-fits : exact_bytes toy_state.held ≤ u64_max
unfolding Map.Sum.sum
toy_state-fits = omega arith

run_gc-fits_example :
    let after = (run_gc toy_host (some 50) toy_disk toy_state).held in
    (exact_bytes after ≤ 25) × (total_bytes after ≤ 25)
run_gc-fits_example =
    run_gc-fits toy_host (some 50) toy_disk toy_state toy_state-IsHostState toy_state-fits

-- An object of three bytes, fetched while nothing else happens.
abbrev pub small_call : OfferCall
small_call = record {
  height = some 150;
  while_status = λ s. s;
  while_fetching = λ s. s;
  fetched = object (7 ∷ 8 ∷ 9 ∷ []);
  pinned_at = 5;
  last_access = 5;
  disk = toy_disk;
}

-- The same for an object that declares `n` bytes.
abbrev pub offer_of : ℕ → OfferReq
offer_of n = record {
  caps = [];
  cid = lit "n";
  bytes_len = n;
  rent_per_gb_hour = lit "2";
  expiry_height = 500;
}

small_call-IsQuiet : IsQuiet small_call
small_call-IsQuiet = record { status = λ s. refl; fetching = λ s. refl }

pub new_cid : contains toy_state.held (lit "n") ≡ false
unfolding contains Map.has_key Texts.text_cmp
new_cid = refl

accepts_small : (do_offer toy_host small_call (offer_of 3) (lit "p") toy_state).0.accepted ≡ true
unfolding do_offer contains Map.has_key Texts.text_cmp ce_pin.Config.admit
    ce_pin.Config.offered_rent Texts.parse_uint Texts.trim total_bytes ce_pin.Held.remove_each
    ce_pin.Held.expired Map.keys ce_pin.Held.remove Map.remove
accepts_small = refl

do_offer-Accepted_example :
    let (reply, t) = do_offer toy_host small_call (offer_of 3) (lit "p") toy_state in
    Accepted small_call (offer_of 3) (lit "p") reply t
do_offer-Accepted_example =
    do_offer-Accepted toy_host small_call (offer_of 3) (lit "p") toy_state accepts_small

-- A host with a budget of twelve bytes, which is offered an object that declares one byte.
abbrev pub tight_host : Host
tight_host = record toy_host { cfg = record (toy_host.cfg) { capacity_bytes = 12 } }

admits_declared : (admission tight_host small_call (offer_of 1) toy_state).0 ≡ admitted
unfolding admission ce_pin.Config.admit ce_pin.Config.offered_rent Texts.parse_uint Texts.trim
    total_bytes ce_pin.Held.remove_each ce_pin.Held.expired Map.keys ce_pin.Held.remove Map.remove
    Texts.text_cmp
admits_declared = refl

exceeds : 12 < exact_bytes (drop_expired 150 toy_state).held + 3
unfolding ce_pin.Prelude.Map.Sum.sum drop_expired ce_pin.Held.remove_each ce_pin.Held.expired
    Map.keys ce_pin.Held.remove Map.remove Texts.text_cmp
exceeds = omega arith

do_offer-over_capacity_example :
    let (reply, t) = do_offer tight_host small_call (offer_of 1) (lit "p") toy_state in
    (reply.accepted ≡ true) × (12 < exact_bytes t.held)
do_offer-over_capacity_example =
    do_offer-over_capacity tight_host small_call (offer_of 1) (lit "p") toy_state (7 ∷ 8 ∷ 9 ∷ [])
      small_call-IsQuiet toy_state-IsHostState new_cid refl admits_declared (omega arith) exceeds

abbrev audit_of : Text → AuditReq
audit_of cid = record { caps = []; cid = cid; nonce = lit "0"; chunk_index = 0 }

abbrev status_of : Text → StatusReq
status_of cid = record { caps = []; cid = cid }

proves_b :
    (do_audit toy_hashing toy_blobs (audit_of (lit "b")) toy_state).0.proof
    ≡ some (7 ∷ 8 ∷ 9 ∷ b'0' ∷ [])
unfolding do_audit contains Map.has_key Texts.text_cmp prove
proves_b = refl

contains_b : contains toy_state.held (lit "b") ≡ true
unfolding contains Map.has_key Texts.text_cmp
contains_b = refl

manifest_of_b : manifest_of toy_blobs (lit "b") ≡ some one_chunk
unfolding manifest_of
manifest_of_b = refl

same_nonce_length :
    length (nonce_bytes toy_hashing (lit "0")) ≡ length (nonce_bytes toy_hashing (lit "0"))
same_nonce_length = refl

passes_b :
    verify toy_hashing (7 ∷ 8 ∷ []) (lit "0") (prove toy_hashing (7 ∷ 8 ∷ []) (lit "0")) ≡ true
unfolding verify Texts.text_cmp prove
passes_b = refl

verify-binds_example :
    (◌≡◌ {A = Bytes} (7 ∷ 8 ∷ []) (7 ∷ 8 ∷ [])
      × (nonce_bytes toy_hashing (lit "0") ≡ nonce_bytes toy_hashing (lit "0")))
    ⊎ Collision toy_hashing
verify-binds_example =
    verify-binds toy_hashing (7 ∷ 8 ∷ []) (7 ∷ 8 ∷ []) (lit "0") (lit "0") (λ bytes. refl)
      same_nonce_length passes_b

-- A gate that reads one capability out of every payload and takes a chain that names the ability.
abbrev pub toy_gate : Gate
toy_gate = record {
  Chain = Text;
  decode_chain = λ caps. some caps;
  authorize = λ id roots now from ability chain revoked. text_eq ability chain;
  caps_of = λ payload. some (lit "pin:store");
  offer_req = λ payload. some (offer_of 3);
  audit_req = λ payload. none;
  status_req = λ payload. none;
  renew_req = λ payload. none;
  release_req = λ payload. none;
}

abbrev pub toy_call : Call
toy_call = record {
  now = 5;
  after_authorize = λ s. s;
  offer = small_call;
  blobs = toy_blobs;
  disk = toy_disk;
}

abbrev pub sender : Text
sender = lit "0123456789abcdef0123456789abcdef"

handle-Granted_example :
    let (reply, t) =
      handle toy_host toy_hashing toy_gate toy_call (lit "pin/offer") sender [] toy_state in
    (((f : Failure) × (reply ≡ negative f)) × Untouched toy_state t)
    ⊎ Granted toy_host toy_hashing toy_gate toy_call
        (unwrap_or (strip_prefix topic_prefix (lit "pin/offer")) (lit "pin/offer"))
        sender
        []
        toy_state
        (reply, t)
handle-Granted_example =
    handle-Granted toy_host toy_hashing toy_gate toy_call (lit "pin/offer") sender [] toy_state
