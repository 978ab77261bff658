-- ===== src/Host/Tasks/Budget/Turns.antt =====
-- The turns of src/host.rs and the books of the disk budget: what a turn leaves in order, and the one
-- turn that enters an object.
use ce_pin.Prelude.{ℕ, ◌≡◌, refl, ap, ◌∙◌, ◌⊎◌, inl, inr, false, List, All}
use ce_pin.Prelude.Text.{Text}
use ce_pin.Audit.{Hashing}
use ce_pin.Config.{Admission, admitted, rejected}
use ce_pin.Held.{HeldEntry}
use ce_pin.Proto.{OfferReq}
use ce_pin.Host.{Host, HostState, height_or_zero}
use ce_pin.Host.Offer.{admission_at, drop_expired}
use ce_pin.Host.Dispatch.{Gate, Call}
use ce_pin.Host.Tasks.{
  Task, arrived, authorized, asking_height, fetching, reading_audit, reading_status, finished,
  refreshing, readvertising, collecting, ended, receive, await_object, resume,
}
use ce_pin.Host.Tasks.Budget.{Booked, Listed}
use ce_pin.Host.Tasks.Budget.Entries.{Brings}
use ce_pin.Host.Tasks.Budget.Room.{Fine, check-Fine, dispatch-Fine}

module _ (host : Host) (hs : Hashing) (gate : Gate) (size : Text → ℕ) where
  -- The one turn that puts an object on the list: an offer that is admitted.
  pub record Admits (t : Task) (s : HostState) : Type 0 where
    pub call : Call
    pub req : OfferReq
    pub publisher : Text
    pub asking : t ≡ asking_height call req publisher
    pub ok : (admission_at host call.offer.height req s).0 ≡ admitted

  abbrev pub OnList : List Text → Task → Type 0
  OnList list t = Fine host hs gate size t × Listed size host.cfg.max_object_bytes list t

  abbrev pub Booking : List Text → HostState → Type 0
  Booking list s = All (Booked size host.cfg.max_object_bytes list) s.held.entries

  await-OnList :
      (call : Call) (req : OfferReq) (publisher : Text) (a : Admission) (list : List Text)
      (s : HostState)
      → (a ≡ admitted) ⊎ OnList list (await_object call req publisher (a, s)).0
  await-OnList call req publisher admitted list s = inl refl
  await-OnList call req publisher (rejected r) list s = inr (tt, tt)

  pub resume-OnList :
      (t : Task) (list : List Text) (s : HostState)
      → Fine host hs gate size t
      → Listed size host.cfg.max_object_bytes list t
      → Booking list s
      → Admits t s ⊎ OnList list (resume host hs gate t s).0
  unfolding resume receive
  resume-OnList (arrived r) list s f l b =
      inr (check-Fine host hs gate size r.call r.from_hex _ _ _ list s f)
  resume-OnList (authorized call action from_hex payload) list s f l b =
      inr (dispatch-Fine host hs gate size call action from_hex payload list s f b)
  resume-OnList (asking_height call req publisher) list s f l b =
      elim (await-OnList call req publisher (admission_at host call.offer.height req s).0 list
        (admission_at host call.offer.height req s).1) [
          | inl yes' ↦
              inl
                (record { call = call; req = req; publisher = publisher; asking = refl; ok = yes' })
          | inr on_list ↦ inr on_list
        ]
  resume-OnList (fetching call req publisher already_held) list s f l b = inr (tt, tt)
  resume-OnList (reading_audit call req) list s f l b = inr (tt, tt)
  resume-OnList (reading_status call req) list s f l b = inr (tt, tt)
  resume-OnList (finished reply) list s f l b = inr (tt, tt)
  resume-OnList (refreshing pairs) list s f l b = inr (tt, tt)
  resume-OnList readvertising list s f l b = inr (tt, tt)
  resume-OnList (collecting height disk) list s f l b = inr (tt, tt)
  resume-OnList ended list s f l b = inr (tt, tt)

  pub same_bytes :
      (list : List Text) (cid : Text) (e e' : HeldEntry)
      → e'.bytes ≡ e.bytes
      → Booked size host.cfg.max_object_bytes list (cid, e)
      → Booked size host.cfg.max_object_bytes list (cid, e')
  same_bytes list cid e e' same b = ((same ∙ b.0.0, b.0.1), b.1)

  pub brings :
      (t : Task) (list : List Text)
      → Fine host hs gate size t
      → Listed size host.cfg.max_object_bytes list t
      → Brings (Booked size host.cfg.max_object_bytes list) (same_bytes list) host hs gate t
  brings (arrived r) list f l = tt
  brings (authorized call action from_hex payload) list f l = tt
  brings (asking_height call req publisher) list f l = tt
  brings (fetching call req publisher already_held) list f l =
      λ bytes e got long. ((long ∙ f.0.fetches bytes got, f.1), l)
  brings (reading_audit call req) list f l = tt
  brings (reading_status call req) list f l = tt
  brings (finished reply) list f l = tt
  brings (refreshing pairs) list f l = tt
  brings readvertising list f l = tt
  brings (collecting height disk) list f l = tt
  brings ended list f l = tt

  pub resume-admitted :
      (t : Task) (s : HostState) (a : Admits t s)
      → resume host hs gate t s ≡ (
        fetching a.call a.req a.publisher false,
        drop_expired (height_or_zero a.call.offer.height) s,
      )
  unfolding resume
  resume-admitted t s a =
      ap (λ (u : Task). resume host hs gate u s) a.asking
      ∙ ap
          (λ (x : Admission).
            await_object a.call a.req a.publisher
              (x, drop_expired (height_or_zero a.call.offer.height) s))
          a.ok
