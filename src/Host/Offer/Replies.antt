-- ===== src/Host/Offer/Replies.antt =====
-- The replies of `do_offer` in src/host.rs, and the state that each comes with.
use ce_pin.Prelude.{
  ◌≡◌, refl, Bool, true, false, some, List, ◌∷◌, length, arith, inl, inr, Bool-cases, if◌then◌else◌,
  ltb,
}
use ce_pin.Prelude.Text.{Text}
use ce_pin.Prelude.Text.Laws.{text_eq_refl}
use ce_pin.Prelude.Map
use ce_pin.Prelude.Map.Laws.{lookup-insert}
use ce_pin.Files.{Bytes}
use ce_pin.Held.{contains, insert}
use ce_pin.Config.{Admission, admitted, rejected}
use ce_pin.Proto.{OfferReq, OfferResp, service_for}
use ce_pin.Host.{Host, HostState}
use ce_pin.Host.Offer.{
  OfferCall, Fetched, object, failed, timed_out, commit, settle, fetch_and_commit, admit_then,
  admission, do_offer,
}

-- The object of an accepted offer: it was fetched, it is recorded under its CID with its real size
-- and the terms of the offer, and its service was the last to be advertised.
pub record Accepted (call : OfferCall) (req : OfferReq) (publisher : Text) (reply : OfferResp)
    (t : HostState) : Type 0 where
  pub bytes : Bytes
  pub was_fetched : call.fetched ≡ object bytes
  pub stored : reply.stored_bytes ≡ length bytes
  pub recorded :
      Map.lookup req.cid t.held.entries
      ≡ some (record {
        bytes = length bytes;
        rent_per_gb_hour = req.rent_per_gb_hour;
        expiry_height = req.expiry_height;
        pinned_at = call.pinned_at;
        last_access = call.last_access;
        publisher = publisher;
      })
  pub last_advertised : (ss : List Text) × (t.advertised ≡ service_for req.cid ∷ ss)

commit-Accepted :
    (host : Host) (call : OfferCall) (req : OfferReq) (publisher : Text) (bytes : Bytes)
    (s : HostState)
    → call.fetched ≡ object bytes
    → let (reply, t) = commit host call req publisher (length bytes) s in
      Accepted call req publisher reply t
unfolding commit insert
commit-Accepted host call req publisher bytes s e = record {
  bytes = bytes;
  was_fetched = e;
  stored = refl;
  recorded = simp (lookup-insert, text_eq_refl);
  last_advertised = (s.advertised, refl);
}

settle-Accepted :
    (host : Host) (call : OfferCall) (req : OfferReq) (publisher : Text) (already : Bool)
    (s : HostState) (f : Fetched)
    → call.fetched ≡ f
    → let (reply, t) = settle host call req publisher already s f in
      reply.accepted ≡ true → Accepted call req publisher reply t
unfolding settle
settle-Accepted host call req publisher already s failed e a = cc
settle-Accepted host call req publisher already s timed_out e a = cc
settle-Accepted host call req publisher true s (object bytes) e a =
    commit-Accepted host call req publisher bytes s e
settle-Accepted host call req publisher false s (object bytes) e a =
    elim (Bool-cases (ltb host.cfg.max_object_bytes (length bytes))) [
      | inl big ↦ absurd (ground arith)
      | inr small ↦ rw small (commit-Accepted host call req publisher bytes s e)
    ]

admit_then-Accepted :
    (host : Host) (call : OfferCall) (req : OfferReq) (publisher : Text) (a : Admission × HostState)
    → let (reply, t) = admit_then host call req publisher a in
      reply.accepted ≡ true → Accepted call req publisher reply t
unfolding fetch_and_commit
admit_then-Accepted host call req publisher (rejected r, s) h = cc
admit_then-Accepted host call req publisher (admitted, s) h =
    settle-Accepted host call req publisher false (call.while_fetching s) call.fetched refl h

-- An accepted offer's object was fetched, is recorded under its CID with its real size and the rent,
-- the expiry and the publisher of the offer, and is advertised, whatever the other tasks do meanwhile.
pub do_offer-Accepted :
    (host : Host) (call : OfferCall) (req : OfferReq) (publisher : Text) (s : HostState)
    → (do_offer host call req publisher s).0.accepted ≡ true
    → let (reply, t) = do_offer host call req publisher s in Accepted call req publisher reply t
unfolding do_offer fetch_and_commit
do_offer-Accepted host call req publisher s =
    elim (contains s.held req.cid)
      as (λ b.
        let (reply, t) =
          if b
          then fetch_and_commit host call req publisher true s
          else admit_then host call req publisher (admission host call req s) in
        reply.accepted ≡ true → Accepted call req publisher reply t) [
          | true ↦
              settle-Accepted host call req publisher true (call.while_fetching s) call.fetched refl
          | false ↦ admit_then-Accepted host call req publisher (admission host call req s)
        ]
