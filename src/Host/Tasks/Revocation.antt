-- ===== src/Host/Tasks/Revocation.antt =====
-- The revoked set of src/host.rs under any schedule: a capability that the chain has revoked opens
-- nothing any more.
pub mod Barring
use ce_pin.Prelude.{
  ℕ, ◌==◌, ◌≡◌, ◌≢◌, refl, sym, ap, ◌∙◌, subst, ◌⊎◌, inl, inr, Bool, true, false, Bool-cases,
  Option, none, some, Option-cases, List, [], ◌∷◌, ◌++◌, length, get_elem?, set, get_elem?-append,
  get_elem?-append_self, get_elem?-set_self, get_elem?-set_other, All, All-append, All-set,
  All-get_elem?, arith, ==_iff,
}
use ce_pin.Prelude.Text.{Text, text_eq}
use ce_pin.Prelude.Text.Laws.{text_eq_refl}
use ce_pin.Prelude.Map
use ce_pin.Files.{Bytes}
use ce_pin.Audit.{Hashing}
use ce_pin.Config.{Admission, admitted, rejected}
use ce_pin.Host.{Host, HostState, Disk, persist, height_or_zero}
use ce_pin.Host.Offer.{admission_at, drop_expired}
use ce_pin.Host.Requests.{manifest_of}
use ce_pin.Host.Gc.{
  Tick, every_10s, every_30s, issuer_key, revoked_pairs, refresh_revoked, readvertise, finish_gc,
  gc_dropped, gc_held, run_gc,
}
use ce_pin.Host.Dispatch.{
  Gate, Call, Action, Failure, negative, sender_key, action_of, is_revoked, is_authorized,
  ability_of,
}
use ce_pin.Host.Tasks.Cases.{check-elim}
use ce_pin.Prelude.{◌∙◌}
use ce_pin.Host.Dispatch.{denied}
use ce_pin.Host.Tasks.{
  Request, Task, arrived, authorized, asking_height, fetching, reading_audit, reading_status,
  finished, refreshing, readvertising, collecting, ended, System, Move, arrive, fire, turn, pass_of,
  check, receive, resume, play, play_all,
}
use ce_pin.Host.Tasks.Counters.Replies.{
  NotRefreshing, settle-Noted, answer_manifest-Noted, answer_status-Noted, await_object-Noted,
  advertise_each-rest,
}
use ce_pin.Host.Tasks.Counters.Turns.{check-Noted, dispatch-Noted}

finish_gc-revoked :
    (host : Host) (disk : Disk) (dropped : List Text) (s : HostState)
    → (finish_gc host disk dropped s).revoked ≡ s.revoked
unfolding persist
finish_gc-revoked host disk [] s = refl
finish_gc-revoked host disk (cid ∷ cids) s = refl

module _ (host : Host) (hs : Hashing) (gate : Gate) where
  -- A turn of another task than a refresh leaves the revoked set alone, and makes no refresh.
  resume-still :
      (t : Task) (s : HostState)
      → NotRefreshing t
      → ((resume host hs gate t s).1.revoked ≡ s.revoked)
        × NotRefreshing (resume host hs gate t s).0
  unfolding resume receive readvertise drop_expired run_gc
  resume-still (arrived r) s n = (check-Noted host hs gate r.call r.from_hex _ _ _ s).1
  resume-still (authorized call action from_hex payload) s n =
      (dispatch-Noted host hs gate call action from_hex payload s).1
  resume-still (asking_height call req publisher) s n =
      (await_object-Noted call req publisher (admission_at host call.offer.height req s).0
        (admission_at host call.offer.height req s).1).1
  resume-still (fetching call req publisher already_held) s n =
      (settle-Noted host call.offer req publisher already_held s call.offer.fetched).1
  resume-still (reading_audit call req) s n =
      (answer_manifest-Noted hs call.blobs req s (manifest_of call.blobs req.cid)).1
  resume-still (reading_status call req) s n =
      (answer_status-Noted call.blobs req s (manifest_of call.blobs req.cid)).1
  resume-still (finished reply) s n = (refl, tt)
  resume-still (refreshing pairs) s n = absurd n
  resume-still readvertising s n = ((advertise_each-rest (Map.keys s.held.entries) _).1, tt)
  resume-still (collecting height disk) s n = (
    finish_gc-revoked host disk (gc_dropped host (height_or_zero height) s.held)
        (record s { held = gc_held host (height_or_zero height) s.held }),
    tt,
  )
  resume-still ended s n = (refl, tt)

  module _ (issuer : Bytes) (nonce : ℕ) where
    -- The pairs of an issuer and a nonce that the node tells include this one.
    abbrev pub Lists : List (Text × ℕ) → Type 0
    Lists [] = ⊥
    Lists ((hex, n) ∷ pairs) = ((hs.decode hex ≡ some issuer) × (n ≡ nonce)) ⊎ Lists pairs

    -- What the pass writes into the revoked set includes it.
    abbrev pub Relists : Task → Type 0
    Relists (refreshing (some pairs)) = Lists pairs
    Relists _ = Unit {0}

    abbrev pub RelistsMove : Move → Type 0
    RelistsMove (fire (every_10s (some pairs))) = Lists pairs
    RelistsMove _ = Unit {0}

    abbrev pub IsRevoked : HostState → Type 0
    IsRevoked s = is_revoked s.revoked issuer nonce ≡ true

    revoked_pairs-Lists :
        (pairs : List (Text × ℕ))
        → length issuer ≡ 32
        → Lists pairs
        → is_revoked (revoked_pairs hs pairs) issuer nonce ≡ true
    unfolding is_revoked revoked_pairs
    revoked_pairs-Lists [] long l = absurd l
    revoked_pairs-Lists ((hex, n) ∷ pairs) long (inl (decodes, same)) =
        rw (decodes, long) (ground (arith, same, text_eq_refl issuer))
    revoked_pairs-Lists ((hex, n) ∷ pairs) long (inr l) =
        let rest = revoked_pairs-Lists pairs long l in
        elim (Option-cases (issuer_key (hs.decode hex))) [
          | inl gone ↦ rw gone rest
          | inr (key, there) ↦ rw there (ground (arith, rest))
        ]

    still-Relists : (t : Task) → NotRefreshing t → Relists t
    still-Relists (arrived r) n = tt
    still-Relists (authorized call action from_hex payload) n = tt
    still-Relists (asking_height call req publisher) n = tt
    still-Relists (fetching call req publisher already_held) n = tt
    still-Relists (reading_audit call req) n = tt
    still-Relists (reading_status call req) n = tt
    still-Relists (finished reply) n = tt
    still-Relists (refreshing pairs) n = absurd n
    still-Relists readvertising n = tt
    still-Relists (collecting height disk) n = tt
    still-Relists ended n = tt

    still-turn :
        (t : Task) (s : HostState)
        → NotRefreshing t
        → IsRevoked s
        → IsRevoked (resume host hs gate t s).1 × Relists (resume host hs gate t s).0
    still-turn t s n v =
        let (same, quiet) = resume-still t s n in
        (
          ap (λ (x : List (Bytes × ℕ)). is_revoked x issuer nonce) same ∙ v,
          still-Relists (resume host hs gate t s).0 quiet,
        )

    -- A pass that lists the capability puts it into the revoked set.
    pub refreshing-turn :
        (pairs : List (Text × ℕ)) (s : HostState)
        → length issuer ≡ 32
        → Lists pairs
        → IsRevoked (resume host hs gate (refreshing (some pairs)) s).1
    unfolding resume refresh_revoked
    refreshing-turn pairs s long l = revoked_pairs-Lists pairs long l

    pub resume-Relists :
        (t : Task) (s : HostState)
        → length issuer ≡ 32
        → Relists t
        → IsRevoked s
        → IsRevoked (resume host hs gate t s).1 × Relists (resume host hs gate t s).0
    unfolding resume refresh_revoked
    resume-Relists (refreshing none) s long l v = (v, tt)
    resume-Relists (refreshing (some pairs)) s long l v = (refreshing-turn pairs s long l, tt)
    resume-Relists (arrived r) s long l v = still-turn (arrived r) s tt v
    resume-Relists (authorized call action from_hex payload) s long l v =
        still-turn (authorized call action from_hex payload) s tt v
    resume-Relists (asking_height call req publisher) s long l v =
        still-turn (asking_height call req publisher) s tt v
    resume-Relists (fetching call req publisher already_held) s long l v =
        still-turn (fetching call req publisher already_held) s tt v
    resume-Relists (reading_audit call req) s long l v = still-turn (reading_audit call req) s tt v
    resume-Relists (reading_status call req) s long l v =
        still-turn (reading_status call req) s tt v
    resume-Relists (finished reply) s long l v = still-turn (finished reply) s tt v
    resume-Relists readvertising s long l v = still-turn readvertising s tt v
    resume-Relists (collecting height disk) s long l v = still-turn (collecting height disk) s tt v
    resume-Relists ended s long l v = still-turn ended s tt v

    -- `HasLink` tells the chains with a link that the issuer has revoked; `authorize` refuses them.
    module _ (HasLink : gate.Chain → Type 0)
        (refuses : (now : ℕ) (from : Bytes) (ability : Text) (chain : gate.Chain)
            (revoked : Bytes → ℕ → Bool)
          → HasLink chain
          → revoked issuer nonce ≡ true
          → gate.authorize host.host_id host.roots now from ability chain revoked ≡ false) where
      -- The chain that the request shows has such a link.
      abbrev pub Shows : Request → Type 0
      Shows r =
          (payload : Bytes) (caps : Text) (chain : gate.Chain)
          → hs.decode r.payload_hex ≡ some payload
          → gate.caps_of payload ≡ some caps
          → gate.decode_chain caps ≡ some chain
          → HasLink chain

      -- The request waits at the gate, or is turned away.
      abbrev pub Barred : Request → Task → Type 0
      Barred r t = (t ≡ arrived r) ⊎ ((f : Failure) × (t ≡ finished (negative f)))

      check-Barred :
          (r : Request) (payload from : Option Bytes) (action : Option Action) (s : HostState)
          → hs.decode r.payload_hex ≡ payload
          → Shows r
          → IsRevoked s
          → (f : Failure) × ((check host gate r.call r.from_hex payload from action s).0
              ≡ finished (negative f))
      unfolding is_authorized
      check-Barred r payload from action s p shows v =
          check-elim host gate
            (λ (u : Task × HostState). (f : Failure) × (u.0 ≡ finished (negative f))) r.call
            r.from_hex payload from action s (λ f malformed. (f, refl))
            (λ sent k a caps chain is_sent has_caps has_chain refused. (denied, refl))
            (λ sent k a caps chain is_sent by named has_caps has_chain granted.
              let revoked =
                refuses r.call.now k (ability_of a) chain (is_revoked s.revoked)
                  (shows sent caps chain (p ∙ is_sent) has_caps has_chain) v in
              cc)

      pub resume-Barred :
          (r : Request) (t : Task) (s : HostState)
          → Shows r
          → IsRevoked s
          → Barred r t
          → Barred r (resume host hs gate t s).0
      unfolding resume receive
      resume-Barred r t s shows v (inl waits) =
          subst (λ (u : Task). Barred r (resume host hs gate u s).0) (sym waits)
            (inr (check-Barred r _ _ _ s refl shows v))
      resume-Barred r t s shows v (inr (f, away)) =
          subst (λ (u : Task). Barred r (resume host hs gate u s).0) (sym away) (inr (f, refl))
