-- ===== src/Host/Tasks/Truthful.antt =====
-- The replies of src/host.rs under any schedule: what stands behind those that say yes.
use ce_pin.Prelude.{
  ℕ, ◌==◌, ◌≡◌, refl, sym, subst, ◌∙◌, Bool-cases, Option-cases, inl, inr, some, some_inj, List, [],
  ◌∷◌, length, get_elem?, set, get_elem?-append, get_elem?-append_self, get_elem?-set_self,
  get_elem?-set_other, ==_iff,
}
use ce_pin.Audit.{Hashing}
use ce_pin.Host.{Host, HostState}
use ce_pin.Host.Dispatch.{Gate, Reply}
use ce_pin.Host.Tasks.{
  Request, Task, arrived, System, Move, arrive, fire, turn, finished, pass_of, put, resume, play,
  play_all,
}
use ce_pin.Host.Tasks.Grants.{Yes, Backing, Backed-Yes}
use ce_pin.Host.Tasks.Promise.{Visited}
use ce_pin.Host.Tasks.Sanctioned.{Sanctioned, resume-Sanctioned}

module _ (host : Host) (hs : Hashing) (gate : Gate) where
  module _ (P : HostState → Type 0) (Q : Request → Type 0) (i : ℕ) where
    -- What the task of that number has behind it.
    abbrev Stands : System → Type 0
    Stands sys = (t : Task) × (get_elem? sys.tasks i ≡ some t) × Sanctioned host hs gate P Q t

    turn-Stands :
        (j : ℕ) (u : Task) (sys : System)
        → P sys.shared
        → get_elem? sys.tasks j ≡ some u
        → Stands sys
        → Stands (put j sys (resume host hs gate u sys.shared))
    turn-Stands j u sys past here (t, there, behind) = elim (Bool-cases (i == j)) [
      | inl same ↦
          let index = (==_iff i j).0 same in
          let at_i : get_elem? sys.tasks i ≡ some u =
            subst (λ (n : ℕ). get_elem? sys.tasks n ≡ some u) (sym index) here in
          let (after, _) = resume host hs gate u sys.shared in
          (
            after,
            subst (λ (n : ℕ). get_elem? (set sys.tasks n after) i ≡ some after) index
                (get_elem?-set_self sys.tasks i u after at_i),
            resume-Sanctioned host hs gate P Q u sys.shared past
                (subst (Sanctioned host hs gate P Q) (some_inj t u (sym there ∙ at_i)) behind),
          )
      | inr other ↦
          (t, get_elem?-set_other sys.tasks i j _ (λ h. cc ((==_iff i j).1 h)) ∙ there, behind)
    ]

    play-Stands :
        (m : Move) (sys : System) → P sys.shared → Stands sys → Stands (play host hs gate m sys)
    unfolding play
    play-Stands (arrive r) sys past (t, there, behind) =
        (t, get_elem?-append sys.tasks (arrived r ∷ []) i t there, behind)
    play-Stands (fire tick) sys past (t, there, behind) =
        (t, get_elem?-append sys.tasks (pass_of tick ∷ []) i t there, behind)
    play-Stands (turn j) sys past stands = elim (Option-cases (get_elem? sys.tasks j)) [
      | inl out ↦ rw out stands
      | inr (u, here) ↦ rw here (turn-Stands j u sys past here stands)
    ]

    play_all-Stands :
        (ms : List Move) (sys : System)
        → ((s : HostState) → Visited host hs gate ms sys s → P s)
        → Stands sys
        → Stands (play_all host hs gate ms sys)
    unfolding play_all
    play_all-Stands [] sys past stands = stands
    play_all-Stands (m ∷ ms) sys past stands =
        play_all-Stands ms (play host hs gate m sys) (λ s w. past s (inr w))
          (play-Stands m sys (past sys.shared (inl refl)) stands)

  arrived-Stands :
      (P : HostState → Type 0) (r : Request) (sys : System)
      → Stands P (λ x. x ≡ r) (length sys.tasks) (play host hs gate (arrive r) sys)
  unfolding play
  arrived-Stands P r sys = (arrived r, get_elem?-append_self sys.tasks [] (arrived r), refl)

  -- However the tasks of a host are interleaved, if the task of a request that arrives finishes with a
  -- reply that says yes, the request carries a chain that grants its sender the ability for the action
  -- that its topic names and that the reply answers, with the capabilities revoked at some time since
  -- it arrived; and what the reply says was so: the object of an accepted offer was fetched and has
  -- the size that is told, a proof is that of the challenged chunk of a CID that was held at some time
  -- since then, and a CID that is told to be held, renewed or released was held at some time since
  -- then.
  pub play_all-Backing :
      (sys : System) (r : Request) (ms : List Move) (reply : Reply)
      → get_elem? (play_all host hs gate (arrive r ∷ ms) sys).tasks (length sys.tasks)
        ≡ some (finished reply)
      → Yes reply
      → Backing host hs gate
          (Visited host hs gate ms (play host hs gate (arrive r) sys))
          (λ x. x ≡ r)
          reply
  unfolding play_all
  play_all-Backing sys r ms reply there =
      let start = play host hs gate (arrive r) sys in
      let (t, here, behind) =
        play_all-Stands (Visited host hs gate ms start) (λ x. x ≡ r) (length sys.tasks) ms start
          (λ s w. w) (arrived-Stands (Visited host hs gate ms start) r sys) in
      Backed-Yes host hs gate (Visited host hs gate ms start) (λ x. x ≡ r) reply
        (subst (Sanctioned host hs gate (Visited host hs gate ms start) (λ x. x ≡ r))
          (some_inj t (finished reply) (sym here ∙ there)) behind)
