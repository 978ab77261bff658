-- ===== src/Host/Tasks/Budget/Room.antt =====
-- The tasks of src/host.rs and the disk budget: each turn keeps the books in order.
use ce_pin.Prelude.{
  some_inj, length-append, zero, ℕ, suc, ◌+◌, ◌*◌, ◌≤◌, ◌≡◌, refl, ap, inl, inr, true, Option, some,
  List, [], ◌∷◌, length, arith, All, get_elem?, set, Option-cases,
}
use ce_pin.Prelude.Text.{Text}
use ce_pin.Prelude.Text as Texts
use ce_pin.Prelude.Map
use ce_pin.Prelude.Map.{Map, keys}
use ce_pin.Prelude.Map.Entries.{weigh, weigh-append, All-lookup}
use ce_pin.Files.{Bytes}
use ce_pin.Audit.{Hashing}
use ce_pin.Held.{HeldSet, contains}
use ce_pin.Host.{Host, HostState}
use ce_pin.Host.Dispatch.{Gate, Call, Action}
use ce_pin.Host.Tasks.Cases.{check-elim, dispatch-elim}
use ce_pin.Host.Tasks.{
  Task, arrived, authorized, asking_height, fetching, reading_audit, reading_status, finished,
  refreshing, readvertising, collecting, ended, check, dispatch,
}
use ce_pin.Host.Tasks.Budget.{pending, pending_of, Booked, HonestPayload, Slim, Listed}

-- A task in place of another, by the weight of what is pending.
pub weigh-pending-set :
    (size : Text → ℕ) (ts : List Task) (i : ℕ) (t t' : Task)
    → get_elem? ts i ≡ some t
    → weigh size (pending (set ts i t')) + weigh size (pending_of t)
      ≡ weigh size (pending ts) + weigh size (pending_of t')
weigh-pending-set size [] i t t' e = cc
weigh-pending-set size (u ∷ ts) zero t t' e =
    let same : weigh size (pending_of u) ≡ weigh size (pending_of t) =
      ap (λ x. weigh size (pending_of x)) (some_inj u t e) in
    omega (
      arith,
      weigh-append size (pending_of t') (pending ts),
      weigh-append size (pending_of u) (pending ts),
      same,
    )
weigh-pending-set size (u ∷ ts) (suc i) t t' e = omega (
  arith,
  weigh-append size (pending_of u) (pending (set ts i t')),
  weigh-append size (pending_of u) (pending ts),
  weigh-pending-set size ts i t t' e,
)

pub length-weigh : (ks : List Text) → length ks ≡ weigh (λ k. 1) ks
unfolding weigh
length-weigh [] = refl
length-weigh (k ∷ ks) = omega (arith, length-weigh ks)

module _ (host : Host) (hs : Hashing) (gate : Gate) (size : Text → ℕ) where
  abbrev limit : ℕ
  limit = host.cfg.max_object_bytes

  abbrev pub Fine : Task → Type 0
  Fine = Slim size limit hs gate

  weigh-pending_of-le :
      (t : Task) → Fine t → weigh size (pending_of t) ≤ length (pending_of t) * limit
  unfolding weigh
  weigh-pending_of-le (arrived r) f = omega arith
  weigh-pending_of-le (authorized call action from_hex payload) f = omega arith
  weigh-pending_of-le (asking_height call req publisher) f = omega arith
  weigh-pending_of-le (fetching call req publisher already_held) f = omega (arith, f.1)
  weigh-pending_of-le (reading_audit call req) f = omega arith
  weigh-pending_of-le (reading_status call req) f = omega arith
  weigh-pending_of-le (finished reply) f = omega arith
  weigh-pending_of-le (refreshing pairs) f = omega arith
  weigh-pending_of-le readvertising f = omega arith
  weigh-pending_of-le (collecting height disk) f = omega arith
  weigh-pending_of-le ended f = omega arith

  pub weigh-pending-le :
      (ts : List Task) → All Fine ts → weigh size (pending ts) ≤ length (pending ts) * limit
  unfolding weigh
  weigh-pending-le [] f = omega arith
  weigh-pending-le (t ∷ ts) f = grind (
    arith,
    weigh-append size (pending_of t) (pending ts),
    length-append {A = Text} (pending_of t) (pending ts),
    weigh-pending_of-le t f.0,
    weigh-pending-le ts f.1,
  )

  -- What is held is booked.
  held-Booked :
      (list : List Text) (h : HeldSet) (cid : Text)
      → All (Booked size limit list) h.entries
      → contains h cid ≡ true
      → (size cid ≤ limit) × (Texts.contains list cid ≡ true)
  unfolding contains Map.has_key
  held-Booked list h cid b e = elim (Option-cases (Map.lookup cid h.entries)) [
    | inl gone ↦ cc (rw gone at e)
    | inr (x, there) ↦
        let p = All-lookup (Booked size limit list) cid x h.entries b there in (p.0.1, p.1)
  ]

  pub check-Fine :
      (call : Call) (from_hex : Text) (payload from : Option Bytes) (action : Option Action)
      (list : List Text) (s : HostState)
      → ((p : Bytes) → payload ≡ some p → HonestPayload size limit gate call p)
      → let t = (check host gate call from_hex payload from action s).0 in
        Fine t × Listed size limit list t
  check-Fine call from_hex payload from action list s f =
      check-elim host gate (λ (u : Task × HostState). Fine u.0 × Listed size limit list u.0) call
        from_hex payload from action s (λ failure malformed. (tt, tt))
        (λ p k a caps chain sent has_caps has_chain refused. (tt, tt))
        (λ p k a caps chain sent by named has_caps has_chain granted. (f p sent, tt))

  pub dispatch-Fine :
      (call : Call) (action : Action) (from_hex : Text) (payload : Bytes) (list : List Text)
      (s : HostState)
      → HonestPayload size limit gate call payload
      → All (Booked size limit list) s.held.entries
      → let t = (dispatch host gate call action from_hex payload s).0 in
        Fine t × Listed size limit list t
  dispatch-Fine call action from_hex payload list s f b =
      dispatch-elim host gate (λ (u : Task × HostState). Fine u.0 × Listed size limit list u.0) call
        action from_hex payload s (tt, tt)
        (λ req is_offer good held.
          let (small, on_list) = held-Booked list s.held req.cid b held in
          ((f req good, small), on_list))
        (λ req is_offer good. (f req good, tt)) (λ req is_audit good held. (tt, tt))
        (λ req. (tt, tt)) (λ req is_status good held. (tt, tt)) (λ req. (tt, tt))
        (λ req is_renew good. (tt, tt)) (λ req is_release good. (tt, tt))
