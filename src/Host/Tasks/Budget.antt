-- ===== src/Host/Tasks/Budget.antt =====
-- What the held-set of src/host.rs takes while several offers are fetched at once: the books that
-- bound it.
pub mod Entries
pub mod Room
pub mod Turns
pub mod Solvent
pub mod Within
use ce_pin.Prelude.{
  ℕ, suc, ◌+◌, ◌*◌, ◌≤◌, ◌≡◌, refl, sym, ap, ◌∙◌, Bool, true, false, Option, none, some, List, [],
  ◌∷◌, ◌++◌, length, arith, All, All-imp, get_elem?, set, Bool-cases, inl, inr,
}
use ce_pin.Prelude.Text.{Text, text_eq, contains}
use ce_pin.Prelude.Text.Laws.{contains-append, contains-append_right, text_eq_refl, text_eq_iff}
use ce_pin.Prelude.Map
use ce_pin.Prelude.Map.{Map, keys}
use ce_pin.Prelude.Map.Sum.{sum}
use ce_pin.Prelude.Map.Entries.{weigh, weigh-append, weigh-le}
use ce_pin.Prelude.Map.Removal.{keys-IsNodup}
use ce_pin.Files.{Bytes}
use ce_pin.Audit.{Hashing}
use ce_pin.Held.{HeldEntry, HeldSet}
use ce_pin.Held.Capacity.{exact_bytes, IsHeldSet}
use ce_pin.Proto.{OfferReq}
use ce_pin.Host.{Host}
use ce_pin.Host.Offer.{object}
use ce_pin.Host.Dispatch.{Gate, Call, Action}
use ce_pin.Host.Tasks.{
  Request, Task, arrived, authorized, asking_height, fetching, reading_audit, reading_status,
  finished, refreshing, readvertising, collecting, ended,
}

-- The CIDs of the objects that are fetched just now.
abbrev pub pending_of : Task → List Text
pending_of (fetching call req publisher already_held) = req.cid ∷ []
pending_of _ = []

abbrev pub pending : List Task → List Text
pending [] = []
pending (t ∷ ts) = pending_of t ++ pending ts

-- `size` tells the size of the object with a CID, and `limit` bounds it. Under a list of CIDs the
-- books say that everything held or fetched is on the list.
module _ (size : Text → ℕ) (limit : ℕ) where
  abbrev pub Sized : Text × HeldEntry → Type 0
  Sized (cid, e) = (e.bytes ≡ size cid) × (size cid ≤ limit)

  abbrev pub Booked : List Text → Text × HeldEntry → Type 0
  Booked list (cid, e) = Sized (cid, e) × (contains list cid ≡ true)

  -- The object of an offer is the one with its CID, and the declared size is not below its size.
  pub record Honest (call : Call) (req : OfferReq) : Type 0 where
    pub fetches : (bytes : Bytes) → call.offer.fetched ≡ object bytes → length bytes ≡ size req.cid
    pub declares : size req.cid ≤ req.bytes_len

  -- The payload is no offer, or an honest one.
  abbrev pub HonestPayload : Gate → Call → Bytes → Type 0
  HonestPayload gate call payload =
      (req : OfferReq) → gate.offer_req payload ≡ some req → Honest call req

  -- So of the payload that a request carries.
  abbrev pub HonestRequest : Hashing → Gate → Request → Type 0
  HonestRequest hs gate r =
      (payload : Bytes) → hs.decode r.payload_hex ≡ some payload → HonestPayload gate r.call payload

  abbrev pub Slim : Hashing → Gate → Task → Type 0
  Slim hs gate (arrived r) = HonestRequest hs gate r
  Slim hs gate (authorized call action from_hex payload) = HonestPayload gate call payload
  Slim hs gate (asking_height call req publisher) = Honest call req
  Slim hs gate (fetching call req publisher already_held) = Honest call req × (size req.cid ≤ limit)
  Slim hs gate _ = Unit {0}

  abbrev pub Listed : List Text → Task → Type 0
  Listed list (fetching call req publisher already_held) = contains list req.cid ≡ true
  Listed list _ = Unit {0}

  pub pending-Listed :
      (list : List Text) (ts : List Task)
      → ((cid : Text) → contains (pending ts) cid ≡ true → contains list cid ≡ true)
      → All (Listed list) ts
  unfolding contains
  pending-Listed list [] h = tt
  pending-Listed list (t ∷ ts) h = (
    one t (λ cid e. h cid (contains-append cid (pending_of t) (pending ts) e)),
    pending-Listed list ts
        (λ cid e. h cid (contains-append_right cid (pending_of t) (pending ts) e)),
  )
    where
      one :
          (t : Task)
          → ((cid : Text) → contains (pending_of t) cid ≡ true → contains list cid ≡ true)
          → Listed list t
      one (arrived r) h = tt
      one (authorized call action from_hex payload) h = tt
      one (asking_height call req publisher) h = tt
      one (fetching call req publisher already_held) h =
          h req.cid (ground (arith, text_eq_refl req.cid))
      one (reading_audit call req) h = tt
      one (reading_status call req) h = tt
      one (finished reply) h = tt
      one (refreshing pairs) h = tt
      one readvertising h = tt
      one (collecting height disk) h = tt
      one ended h = tt

  pub keys-Booked :
      (list : List Text) (m : Map HeldEntry)
      → All Sized m
      → ((cid : Text) → contains (keys m) cid ≡ true → contains list cid ≡ true)
      → All (Booked list) m
  unfolding keys contains
  keys-Booked list [] s h = tt
  keys-Booked list ((k, e) ∷ m) s h = (
    (s.0, h k (ground (arith, text_eq_refl k))),
    keys-Booked list m s.1 (λ cid there. h cid (ground (arith, there))),
  )

  Booked-keys :
      (list : List Text) (m : Map HeldEntry)
      → All (Booked list) m
      → (cid : Text) → contains (keys m) cid ≡ true
      → contains list cid ≡ true
  unfolding keys contains
  Booked-keys list [] b cid h = cc
  Booked-keys list ((k, e) ∷ m) b cid h = elim (Bool-cases (text_eq cid k)) [
    | inl same ↦ ap (contains list) ((text_eq_iff cid k).0 same) ∙ b.0.1
    | inr apart ↦ Booked-keys list m b.1 cid (ground (arith, h, apart))
  ]

  pub sum-weigh : (m : Map HeldEntry) → All Sized m → sum (λ e. e.bytes) m ≡ weigh size (keys m)
  unfolding sum weigh keys
  sum-weigh [] s = refl
  sum-weigh ((k, e) ∷ m) s = omega (arith, s.0.0, sum-weigh m s.1)

  -- What is on the list bounds what is held.
  pub exact_bytes-le :
      (list : List Text) (h : HeldSet)
      → IsHeldSet h
      → All (Booked list) h.entries
      → exact_bytes h ≤ weigh size list
  exact_bytes-le list h v b = omega (
    arith,
    sum-weigh h.entries (All-imp (Booked list) Sized (λ e k. k.0) h.entries b),
    weigh-le size (keys h.entries) list (keys-IsNodup h.entries v) (Booked-keys list h.entries b),
  )
