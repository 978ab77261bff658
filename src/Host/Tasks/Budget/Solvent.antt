-- ===== src/Host/Tasks/Budget/Solvent.antt =====
-- The books of the disk budget of src/host.rs while at most a given number of objects is fetched.
use ce_pin.Prelude.{
  ℕ, suc, ◌+◌, ◌*◌, ◌≤◌, ◌<◌, ◌≡◌, sym, subst, ap, inl, inr, false, some, List, [], ◌++◌, length,
  arith, All, All-imp, All-set, All-get_elem?, get_elem?, set, u64_max,
}
use native.Mathlib.Nat.{le_trans, mul-le-mul_right}
use ce_pin.Prelude.Text.{Text}
use ce_pin.Prelude.Text.Laws.{contains-append, contains-append_right}
use ce_pin.Prelude.Map.{keys}
use ce_pin.Prelude.Map.Entries.{weigh, weigh-append}
use ce_pin.Audit.{Hashing}
use ce_pin.Config.Admit.{admit-iff_Fits}
use ce_pin.Held.{total_bytes}
use ce_pin.Held.Capacity.{total_bytes-min}
use ce_pin.Proto.{OfferReq}
use ce_pin.Host.{Host, HostState, height_or_zero}
use ce_pin.Host.Offer.{drop_expired}
use ce_pin.Host.Dispatch.{Gate, Call}
use ce_pin.Host.Tasks.{Task, fetching, System, resume, put}
use ce_pin.Host.Tasks.Budget.{
  pending, pending_of, Sized, Booked, Listed, pending-Listed, keys-Booked, sum-weigh,
}
use ce_pin.Host.Tasks.Budget.Entries.{resume-Holds, drop_expired-Holds}
use ce_pin.Host.Tasks.Budget.Room.{Fine, weigh-pending-set, length-weigh, weigh-pending-le}
use ce_pin.Host.Tasks.Budget.Turns.{
  Admits, Booking, resume-OnList, same_bytes, brings, resume-admitted,
}

module _ (host : Host) (hs : Hashing) (gate : Gate) (size : Text → ℕ) (k : ℕ) where
  -- The books of a host on which at most `suc k` objects are fetched at once.
  pub record Solvent (sys : System) : Type 0 where
    pub list : List Text
    pub booked : Booking host hs gate size list sys.shared
    pub slim : All (Fine host hs gate size) sys.tasks
    pub listed : All (Listed size host.cfg.max_object_bytes list) sys.tasks
    pub room : weigh size list ≤ host.cfg.capacity_bytes + k * host.cfg.max_object_bytes

  -- What the list weighs once an offer is admitted: what is held, and what is fetched.
  admitted-room :
      (ts : List Task) (i : ℕ) (t : Task) (call : Call) (req : OfferReq) (publisher : Text)
      (s : HostState)
      → host.cfg.capacity_bytes < u64_max
      → get_elem? ts i ≡ some t
      → pending_of t ≡ []
      → All (Fine host hs gate size) ts
      → size req.cid ≤ req.bytes_len
      → All (Sized size host.cfg.max_object_bytes) s.held.entries
      → total_bytes s.held + req.bytes_len ≤ host.cfg.capacity_bytes
      → let now = pending (set ts i (fetching call req publisher false)) in
        length now ≤ suc k
        → weigh size (keys s.held.entries ++ now)
          ≤ host.cfg.capacity_bytes + k * host.cfg.max_object_bytes
  unfolding weigh
  admitted-room ts i t call req publisher s below there none_yet fine declares sized fits few =
      let others : length (pending ts) ≤ k = omega (
        arith,
        ap (weigh (λ k. 1)) none_yet,
        weigh-pending-set (λ k. 1) ts i t (fetching call req publisher false) there,
        length-weigh (pending ts),
        length-weigh (pending (set ts i (fetching call req publisher false))),
        few,
      ) in
      omega (
        arith,
        below,
        weigh-append size (keys s.held.entries)
            (pending (set ts i (fetching call req publisher false))),
        sum-weigh size host.cfg.max_object_bytes s.held.entries sized,
        total_bytes-min s.held,
        weigh-pending-set size ts i t (fetching call req publisher false) there,
        ap (weigh size) none_yet,
        weigh-pending-le host hs gate size ts fine,
        mul-le-mul_right host.cfg.max_object_bytes others,
      )

  admitted-Solvent :
      (i : ℕ) (t : Task) (sys : System) (a : Admits host hs gate size t sys.shared)
      → host.cfg.capacity_bytes < u64_max
      → get_elem? sys.tasks i ≡ some t
      → let after = put i sys (
        fetching a.call a.req a.publisher false,
        drop_expired (height_or_zero a.call.offer.height) sys.shared,
      ) in
        length (pending after.tasks) ≤ suc k → Solvent sys → Solvent after
  admitted-Solvent i t sys a below there few v =
      let swept = drop_expired (height_or_zero a.call.offer.height) sys.shared in
      let now = set sys.tasks i (fetching a.call a.req a.publisher false) in
      let list = keys swept.held.entries ++ pending now in
      let fits =
        (admit-iff_Fits host.cfg a.req.bytes_len (total_bytes swept.held) a.req.rent_per_gb_hour
            below).0
          a.ok in
      let honest =
        subst (Fine host hs gate size) a.asking (All-get_elem? _ sys.tasks i t there v.slim) in
      let booked =
        drop_expired-Holds (Booked size host.cfg.max_object_bytes v.list)
          (same_bytes host hs gate size v.list) (height_or_zero a.call.offer.height) sys.shared
          v.booked in
      let sized =
        All-imp (Booked size host.cfg.max_object_bytes v.list)
          (Sized size host.cfg.max_object_bytes) (λ e b. b.0) swept.held.entries booked in
      record {
        list = list;
        booked =
            keys-Booked size host.cfg.max_object_bytes list swept.held.entries sized
              (λ cid there. contains-append cid (keys swept.held.entries) (pending now) there);
        slim = All-set _ sys.tasks i _ (honest, le_trans honest.declares fits.size) v.slim;
        listed =
            pending-Listed size host.cfg.max_object_bytes list now (λ cid there.
              contains-append_right cid (keys swept.held.entries) (pending now) there);
        room =
            admitted-room sys.tasks i t a.call a.req a.publisher swept below there
              (ap pending_of a.asking) v.slim honest.declares sized fits.room few;
      }

  pub turn-Solvent :
      (i : ℕ) (t : Task) (sys : System)
      → host.cfg.capacity_bytes < u64_max
      → get_elem? sys.tasks i ≡ some t
      → let after = put i sys (resume host hs gate t sys.shared) in
        length (pending after.tasks) ≤ suc k → Solvent sys → Solvent after
  turn-Solvent i t sys below there few v =
      elim (resume-OnList host hs gate size t v.list sys.shared
        (All-get_elem? _ sys.tasks i t there v.slim) (All-get_elem? _ sys.tasks i t there v.listed)
        v.booked) [
          | inl a ↦
              subst
                (λ (r : Task × HostState).
                  length (pending (put i sys r).tasks) ≤ suc k → Solvent (put i sys r))
                (sym (resume-admitted host hs gate size t sys.shared a))
                (λ few. admitted-Solvent i t sys a below there few v) few
          | inr on_list ↦ record {
            list = v.list;
            booked =
                resume-Holds (Booked size host.cfg.max_object_bytes v.list)
                  (same_bytes host hs gate size v.list) host hs gate t sys.shared
                  (brings host hs gate size t v.list (All-get_elem? _ sys.tasks i t there v.slim)
                    (All-get_elem? _ sys.tasks i t there v.listed))
                  v.booked;
            slim = All-set _ sys.tasks i _ on_list.0 v.slim;
            listed = All-set _ sys.tasks i _ on_list.1 v.listed;
            room = v.room;
          }
        ]
