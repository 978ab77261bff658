-- ===== src/Host/Tasks/Race.antt =====
-- Two offers at once in src/host.rs, and the disk budget.
pub mod Audit
use ce_pin.Prelude.{
  ℕ, ◌+◌, ◌≤◌, ◌<◌, ◌≡◌, refl, true, false, none, [], ◌∷◌, length, arith, le→ltb-false,
}
use ce_pin.Prelude.Text.{Text, text_eq}
use ce_pin.Prelude.Map
use ce_pin.Prelude.Map.Laws.{lookup-insert}
use ce_pin.Files.{Bytes}
use ce_pin.Audit.{Hashing}
use ce_pin.Config.{admitted}
use ce_pin.Held.{HeldEntry, HeldSet, contains, insert}
use ce_pin.Held.Capacity.{exact_bytes, IsHeldSet, exact_bytes-insert, insert-IsHeldSet}
use ce_pin.Proto.{OfferReq, OfferResp}
use ce_pin.Host.{Host, HostState, height_or_zero}
use ce_pin.Host.Offer.{object, admission_at, drop_expired, settle, commit, new_entry}
use ce_pin.Host.Offer.Capacity.{
  IsHostState, drop_expired-IsHostState, drop_expired-absent, freed_absent,
}
use ce_pin.Host.Dispatch.{Gate, Call, offer_reply}
use ce_pin.Host.Tasks.{asking_height, finished, turn, resume, play_all}

insert-absent :
    (h : HeldSet) (cid other : Text) (e : HeldEntry)
    → text_eq other cid ≡ false
    → contains h other ≡ false
    → contains (insert h cid e) other ≡ false
unfolding contains insert Map.has_key
insert-absent h cid other e apart absent = rw (lookup-insert cid other e h.entries, apart) absent

-- Two pins that are not held add their bytes.
exact_bytes-insert_two :
    (h : HeldSet) (cid1 cid2 : Text) (e1 e2 : HeldEntry)
    → IsHeldSet h
    → contains h cid1 ≡ false
    → contains h cid2 ≡ false
    → text_eq cid2 cid1 ≡ false
    → exact_bytes (insert (insert h cid1 e1) cid2 e2) ≡ exact_bytes h + e1.bytes + e2.bytes
exact_bytes-insert_two h cid1 cid2 e1 e2 v new1 new2 apart = omega (
  arith,
  exact_bytes-insert h cid1 e1 v,
  freed_absent h cid1 new1,
  exact_bytes-insert (insert h cid1 e1) cid2 e2 (insert-IsHeldSet h cid1 e1 v),
  freed_absent (insert h cid1 e1) cid2 (insert-absent h cid1 cid2 e1 apart new2),
)

abbrev pub stored : ℕ → OfferResp
stored n = record { accepted = true; stored_bytes = n; reason = none }

module _ (host : Host) (hs : Hashing) (gate : Gate) where
  -- Two offers of different CIDs that are not held wait for the height of the node. If each is
  -- admitted by itself, before the other's object is there, both are accepted, though together they
  -- take the held entries over the budget: what an offer in flight will take is not reserved.
  pub two_offers-over_capacity :
      (call1 call2 : Call) (req1 req2 : OfferReq) (publisher1 publisher2 : Text)
      (bytes1 bytes2 : Bytes) (s : HostState)
      → IsHostState s
      → contains s.held req1.cid ≡ false
      → contains s.held req2.cid ≡ false
      → text_eq req2.cid req1.cid ≡ false
      → call1.offer.fetched ≡ object bytes1
      → call2.offer.fetched ≡ object bytes2
      → length bytes1 ≤ host.cfg.max_object_bytes
      → length bytes2 ≤ host.cfg.max_object_bytes
      → let (first, swept) = admission_at host call1.offer.height req1 s in
        let (second, left) = admission_at host call2.offer.height req2 swept in
        first ≡ admitted
        → second ≡ admitted
        → host.cfg.capacity_bytes < exact_bytes left.held + length bytes1 + length bytes2
        → let waiting =
            asking_height call1 req1 publisher1 ∷ asking_height call2 req2 publisher2 ∷ [] in
          let after =
            play_all host hs gate
              (turn 0 ∷ turn 1 ∷ turn 0 ∷ turn 1 ∷ [])
              (record { tasks = waiting; shared = s }) in
          (after.tasks
            ≡ finished (offer_reply (stored (length bytes1)))
              ∷ finished (offer_reply (stored (length bytes2)))
              ∷ [])
          × (host.cfg.capacity_bytes < exact_bytes after.shared.held)
  unfolding play_all resume settle commit
  two_offers-over_capacity call1 call2 req1 req2 publisher1 publisher2 bytes1 bytes2 s v new1 new2
        apart got1 got2 small1 small2 ok1 ok2 over =
      let swept = drop_expired (height_or_zero call1.offer.height) s in
      let left = drop_expired (height_or_zero call2.offer.height) swept in
      let v1 = drop_expired-IsHostState (height_or_zero call1.offer.height) s v in
      let v2 = drop_expired-IsHostState (height_or_zero call2.offer.height) swept v1 in
      let absent = λ (cid : Text) (h : contains s.held cid ≡ false).
        drop_expired-absent (height_or_zero call2.offer.height) swept cid
          (drop_expired-absent (height_or_zero call1.offer.height) s cid h) in
      rw (ok1, ok2, got1, got2, le→ltb-false _ _ small1, le→ltb-false _ _ small2)
        (
          refl,
          omega (
            arith,
            exact_bytes-insert_two left.held req1.cid req2.cid
                (new_entry call1.offer req1 publisher1 (length bytes1))
                (new_entry call2.offer req2 publisher2 (length bytes2)) v2 (absent req1.cid new1)
                (absent req2.cid new2) apart,
          ),
        )
