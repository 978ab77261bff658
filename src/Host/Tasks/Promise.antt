-- ===== src/Host/Tasks/Promise.antt =====
-- The host of src/host.rs and its publishers: under any schedule a held pin stays on its terms, but
-- for the turns that may break them, and who is behind these.
use ce_pin.Prelude.{
  All-get_elem?, ℕ, ◌≡◌, refl, ap, ◌∙◌, ◌⊎◌, inl, inr, some, List, [], ◌∷◌, ◌++◌, get_elem?, All,
  Option-cases,
}
use ce_pin.Prelude.Text.{Text}
use ce_pin.Prelude.Map
use ce_pin.Audit.{Hashing}
use ce_pin.Held.{HeldEntry}
use ce_pin.Host.{Host, HostState}
use ce_pin.Host.Offer.Capacity.{IsHostState}
use ce_pin.Host.Dispatch.{Gate}
use ce_pin.Host.Tasks.{Request, Task, System, Move, arrive, fire, turn, play, play_all}
use ce_pin.Host.Tasks.Invariant.{play-IsHostState}
use ce_pin.Host.Tasks.Breaking.{SameTerms, Keeps, Breaks, still}
use ce_pin.Host.Tasks.Breaking.Turns.{resume-Keeps}
use ce_pin.Host.Tasks.Sanctioned.{Sanctioned, play-Sanctioned}

SameTerms-trans : (a b c : HeldEntry) → SameTerms a b → SameTerms b c → SameTerms a c
SameTerms-trans a b c p q = (q.0 ∙ p.0, q.1 ∙ p.1, q.2 ∙ p.2, q.3 ∙ p.3)

-- A host with no task.
abbrev pub idle : HostState → System
idle s = record { tasks = []; shared = s }

module _ (host : Host) (hs : Hashing) (gate : Gate) where
  -- The states that the tasks share in the course of a schedule.
  abbrev pub Visited : List Move → System → HostState → Type 0
  Visited [] sys s = sys.shared ≡ s
  Visited (m ∷ ms) sys s = (sys.shared ≡ s) ⊎ Visited ms (play host hs gate m sys) s

  -- The requests that arrive in a schedule.
  abbrev pub Arrives : List Move → Request → Type 0
  Arrives [] r = ⊥
  Arrives (m ∷ ms) r = (m ≡ arrive r) ⊎ Arrives ms r

  -- The turn in a schedule that may have broken the terms of a pin, and the grant behind its task.
  pub record Broken (P : HostState → Type 0) (Q : Request → Type 0) (ms : List Move) (sys : System)
      (cid : Text) : Type 0 where
    pub before : List Move
    pub i : ℕ
    pub rest : List Move
    pub split : ms ≡ before ++ turn i ∷ rest
    pub task : Task
    pub there : get_elem? (play_all host hs gate before sys).tasks i ≡ some task
    pub breaks : Breaks host gate task (play_all host hs gate before sys).shared cid
    pub sanctioned : Sanctioned host hs gate P Q task

  later :
      (P : HostState → Type 0) (Q : Request → Type 0) (m : Move) (ms : List Move) (sys : System)
      (cid : Text)
      → Broken P Q ms (play host hs gate m sys) cid
      → Broken P Q (m ∷ ms) sys cid
  unfolding play_all
  later P Q m ms sys cid b = record {
    before = m ∷ b.before;
    i = b.i;
    rest = b.rest;
    split = ap (λ (x : List Move). m ∷ x) b.split;
    task = b.task;
    there = b.there;
    breaks = b.breaks;
    sanctioned = b.sanctioned;
  }

  module _ (P : HostState → Type 0) (Q : Request → Type 0) (cid : Text) (e : HeldEntry) where
    -- The first move.
    play-Keeps :
        (m : Move) (ms : List Move) (sys : System)
        → IsHostState sys.shared
        → All (Sanctioned host hs gate P Q) sys.tasks
        → Map.lookup cid sys.shared.held.entries ≡ some e
        → Keeps cid e (play host hs gate m sys).shared.held.entries ⊎ Broken P Q (m ∷ ms) sys cid
    unfolding play play_all
    play-Keeps (arrive r) ms sys v all there = inl (still cid e _ there)
    play-Keeps (fire tick) ms sys v all there = inl (still cid e _ there)
    play-Keeps (turn i) ms sys v all there = elim (Option-cases (get_elem? sys.tasks i)) [
      | inl out ↦ rw out (inl (still cid e _ there))
      | inr (t, here) ↦ elim (resume-Keeps host hs gate cid e t sys.shared v there) [
        | inl kept ↦ inl (rw here kept)
        | inr breaks ↦ inr (record {
          before = [];
          i = i;
          rest = ms;
          split = refl;
          task = t;
          there = here;
          breaks = breaks;
          sanctioned = All-get_elem? (Sanctioned host hs gate P Q) sys.tasks i t here all;
        })
      ]
    ]

  play_all-Keeps :
      (P : HostState → Type 0) (Q : Request → Type 0) (ms : List Move) (sys : System) (cid : Text)
      (e : HeldEntry)
      → ((s : HostState) → Visited ms sys s → P s)
      → ((r : Request) → Arrives ms r → Q r)
      → IsHostState sys.shared
      → All (Sanctioned host hs gate P Q) sys.tasks
      → Map.lookup cid sys.shared.held.entries ≡ some e
      → Keeps cid e (play_all host hs gate ms sys).shared.held.entries ⊎ Broken P Q ms sys cid
  unfolding play_all
  play_all-Keeps P Q [] sys cid e past come v all there = inl (still cid e _ there)
  play_all-Keeps P Q (m ∷ ms) sys cid e past come v all there =
      elim (play-Keeps P Q cid e m ms sys v all there) [
        | inr broken ↦ inr broken
        | inl (e', there', same) ↦
            elim (play_all-Keeps P Q ms (play host hs gate m sys) cid e' (λ s w. past s (inr w))
              (λ r w. come r (inr w)) (play-IsHostState host hs gate m sys v)
              (play-Sanctioned host hs gate P Q m sys (λ r w. come r (inl w))
                (past sys.shared (inl refl)) all)
              there') [
                | inr broken ↦ inr (later P Q m ms sys cid broken)
                | inl (e'', there'', same') ↦
                    inl (e'', there'', SameTerms-trans e e' e'' same same')
              ]
      ]

  -- A host with no task holds a pin: after any schedule it holds the pin with the same size, rent,
  -- expiry and publisher, or in one turn it released or renewed that CID, or recorded a fetched offer
  -- of it, with the size of the object and the terms of the offer, or found its lease run out at the
  -- height that the node told, or collected while over its budget. Behind a release, a renewal and an
  -- offer there is a request that arrived in the schedule, whose topic names that action, and whose
  -- chain granted its sender the ability for it with the capabilities revoked at some time in the
  -- schedule.
  pub play_all-Promise :
      (s : HostState) (ms : List Move) (cid : Text) (e : HeldEntry)
      → IsHostState s
      → Map.lookup cid s.held.entries ≡ some e
      → Keeps cid e (play_all host hs gate ms (idle s)).shared.held.entries
        ⊎ Broken (Visited ms (idle s)) (Arrives ms) ms (idle s) cid
  play_all-Promise s ms cid e v there =
      play_all-Keeps (Visited ms (idle s)) (Arrives ms) ms (idle s) cid e (λ t w. w) (λ r w. w) v tt
        there
