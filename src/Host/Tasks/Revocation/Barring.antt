-- ===== src/Host/Tasks/Revocation/Barring.antt =====
-- The gate of src/host.rs after a refresh of the revoked set, under any schedule.
use ce_pin.Prelude.{
  ℕ, ◌==◌, ◌≡◌, refl, sym, subst, ◌⊎◌, inl, inr, Bool, true, false, Bool-cases, none, some,
  Option-cases, some_inj, List, [], ◌∷◌, length, get_elem?, set, ◌∙◌, get_elem?-append,
  get_elem?-append_self, get_elem?-set_self, get_elem?-set_other, All, All-append, All-set,
  All-get_elem?, ==_iff,
}
use ce_pin.Prelude.Text.{Text}
use ce_pin.Files.{Bytes}
use ce_pin.Audit.{Hashing}
use ce_pin.Host.{Host}
use ce_pin.Host.Gc.{Tick, every_10s, every_30s}
use ce_pin.Host.Dispatch.{Gate, Failure, negative}
use ce_pin.Host.Tasks.{
  Request, Task, arrived, finished, refreshing, System, Move, arrive, fire, turn, pass_of, resume,
  put, play, play_all,
}
use ce_pin.Host.Tasks.Revocation.{
  Lists, Relists, RelistsMove, IsRevoked, refreshing-turn, resume-Relists, Shows, Barred,
  resume-Barred,
}

module _ (host : Host) (hs : Hashing) (gate : Gate) (issuer : Bytes) (nonce : ℕ)
    (HasLink : gate.Chain → Type 0)
    (refuses : (now : ℕ) (from : Bytes) (ability : Text) (chain : gate.Chain)
        (revoked : Bytes → ℕ → Bool)
      → HasLink chain
      → revoked issuer nonce ≡ true
      → gate.authorize host.host_id host.roots now from ability chain revoked ≡ false) where
  -- The capability is revoked, and every refresh that waits lists it.
  abbrev Closed : System → Type 0
  Closed sys =
      IsRevoked host hs gate issuer nonce sys.shared
      × All (Relists host hs gate issuer nonce) sys.tasks

  pass-Relists :
      (tick : Tick)
      → RelistsMove host hs gate issuer nonce (fire tick)
      → Relists host hs gate issuer nonce (pass_of tick)
  pass-Relists (every_10s none) l = tt
  pass-Relists (every_10s (some pairs)) l = l
  pass-Relists (every_30s height disk) l = tt

  play-Closed :
      (m : Move) (sys : System)
      → length issuer ≡ 32
      → RelistsMove host hs gate issuer nonce m
      → Closed sys
      → Closed (play host hs gate m sys)
  unfolding play
  play-Closed (arrive r) sys long l (revoked, all) =
      (revoked, All-append _ sys.tasks (arrived r ∷ []) all (tt, tt))
  play-Closed (fire tick) sys long l (revoked, all) =
      (revoked, All-append _ sys.tasks (pass_of tick ∷ []) all (pass-Relists tick l, tt))
  play-Closed (turn j) sys long l (revoked, all) = elim (Option-cases (get_elem? sys.tasks j)) [
    | inl out ↦ rw out (revoked, all)
    | inr (t, here) ↦
        let (revoked', relists) =
          resume-Relists host hs gate issuer nonce t sys.shared long
            (All-get_elem? (Relists host hs gate issuer nonce) sys.tasks j t here all) revoked in
        rw here (revoked', All-set _ sys.tasks j _ relists all)
  ]

  play_all-Closed :
      (ms : List Move) (sys : System)
      → length issuer ≡ 32
      → All (RelistsMove host hs gate issuer nonce) ms
      → Closed sys
      → Closed (play_all host hs gate ms sys)
  unfolding play_all
  play_all-Closed [] sys long l c = c
  play_all-Closed (m ∷ ms) sys long l c =
      play_all-Closed ms (play host hs gate m sys) long l.1 (play-Closed m sys long l.0 c)

  -- The task of that number waits at the gate with the request, or has turned it away.
  abbrev Outside : Request → ℕ → System → Type 0
  Outside r i sys =
      (t : Task) × (get_elem? sys.tasks i ≡ some t)
      × Barred host hs gate issuer nonce HasLink refuses r t

  turn-Outside :
      (r : Request) (i j : ℕ) (u : Task) (sys : System)
      → Shows host hs gate issuer nonce HasLink refuses r
      → IsRevoked host hs gate issuer nonce sys.shared
      → get_elem? sys.tasks j ≡ some u
      → Outside r i sys
      → Outside r i (put j sys (resume host hs gate u sys.shared))
  turn-Outside r i j u sys shows v here (t, there, barred) = elim (Bool-cases (i == j)) [
    | inl same ↦
        let index = (==_iff i j).0 same in
        let at_i : get_elem? sys.tasks i ≡ some u =
          subst (λ (n : ℕ). get_elem? sys.tasks n ≡ some u) (sym index) here in
        let (after, _) = resume host hs gate u sys.shared in
        (
          after,
          subst (λ (n : ℕ). get_elem? (set sys.tasks n after) i ≡ some after) index
              (get_elem?-set_self sys.tasks i u after at_i),
          resume-Barred host hs gate issuer nonce HasLink refuses r u sys.shared shows v (
              subst (Barred host hs gate issuer nonce HasLink refuses r)
                (some_inj t u (sym there ∙ at_i)) barred),
        )
    | inr other ↦
        (t, get_elem?-set_other sys.tasks i j _ (λ h. cc ((==_iff i j).1 h)) ∙ there, barred)
  ]

  play-Outside :
      (r : Request) (i : ℕ) (m : Move) (sys : System)
      → Shows host hs gate issuer nonce HasLink refuses r
      → IsRevoked host hs gate issuer nonce sys.shared
      → Outside r i sys
      → Outside r i (play host hs gate m sys)
  unfolding play
  play-Outside r i (arrive other) sys shows v (t, there, barred) =
      (t, get_elem?-append sys.tasks _ i t there, barred)
  play-Outside r i (fire tick) sys shows v (t, there, barred) =
      (t, get_elem?-append sys.tasks _ i t there, barred)
  play-Outside r i (turn j) sys shows v o = elim (Option-cases (get_elem? sys.tasks j)) [
    | inl out ↦ rw out o
    | inr (u, here) ↦ rw here (turn-Outside r i j u sys shows v here o)
  ]

  play_all-Outside :
      (r : Request) (i : ℕ) (ms : List Move) (sys : System)
      → length issuer ≡ 32
      → Shows host hs gate issuer nonce HasLink refuses r
      → All (RelistsMove host hs gate issuer nonce) ms
      → Closed sys
      → Outside r i sys
      → Outside r i (play_all host hs gate ms sys)
  unfolding play_all
  play_all-Outside r i [] sys long shows l c o = o
  play_all-Outside r i (m ∷ ms) sys long shows l c o =
      play_all-Outside r i ms (play host hs gate m sys) long shows l.1
        (play-Closed m sys long l.0 c) (play-Outside r i m sys shows c.0 o)

  refreshed :
      (j : ℕ) (pairs : List (Text × ℕ)) (sys : System)
      → length issuer ≡ 32
      → get_elem? sys.tasks j ≡ some (refreshing (some pairs))
      → Lists host hs gate issuer nonce pairs
      → All (Relists host hs gate issuer nonce) sys.tasks
      → Closed (play host hs gate (turn j) sys)
  unfolding play resume
  refreshed j pairs sys long here l all = rw here (
    refreshing-turn host hs gate issuer nonce pairs sys.shared long l,
    All-set (Relists host hs gate issuer nonce) sys.tasks j _ tt all,
  )

  -- A refresh of the revoked set, whose answer lists a capability, has its turn, and every refresh that
  -- waits then or comes later, if it is answered, lists the capability too; its issuer has 32 bytes.
  -- Then a request that arrives at any time after that turn and shows a chain with the capability,
  -- which `authorize` refuses while it is revoked, waits at the gate or is turned away with a negative
  -- reply, however the tasks are interleaved.
  pub play_all-Barred :
      (j : ℕ) (pairs : List (Text × ℕ)) (r : Request) (before after : List Move) (sys : System)
      → length issuer ≡ 32
      → get_elem? sys.tasks j ≡ some (refreshing (some pairs))
      → Lists host hs gate issuer nonce pairs
      → All (Relists host hs gate issuer nonce) sys.tasks
      → All (RelistsMove host hs gate issuer nonce) before
      → All (RelistsMove host hs gate issuer nonce) after
      → Shows host hs gate issuer nonce HasLink refuses r
      → let meanwhile = play_all host hs gate before (play host hs gate (turn j) sys) in
        let final = play_all host hs gate after (play host hs gate (arrive r) meanwhile) in
        (t : Task) × (get_elem? final.tasks (length meanwhile.tasks) ≡ some t)
        × ((t ≡ arrived r) ⊎ ((f : Failure) × (t ≡ finished (negative f))))
  unfolding play
  play_all-Barred j pairs r before after sys long here l all sooner later shows =
      let meanwhile = play_all host hs gate before (play host hs gate (turn j) sys) in
      let closed =
        play_all-Closed before (play host hs gate (turn j) sys) long sooner
          (refreshed j pairs sys long here l all) in
      play_all-Outside r (length meanwhile.tasks) after (play host hs gate (arrive r) meanwhile)
        long shows later (play-Closed (arrive r) meanwhile long tt closed)
        (arrived r, get_elem?-append_self meanwhile.tasks [] (arrived r), inl refl)
