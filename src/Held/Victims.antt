-- ===== src/Held/Victims.antt =====
-- The loop of `HeldSet::evict_to_fit` in src/held.rs over its ranked entries.
use ce_pin.Prelude.{
  ℕ, ◌-◌, ◌≤◌, ◌<◌, min, Ordering, ◌≡◌, ◌≢◌, refl, subst, true, false, some, List, [], ◌∷◌, ◌++◌,
  arith, Bool-cases, inl, inr, All,
}
use ce_pin.Prelude.Order.{Cmp}
use ce_pin.Prelude.Order.Sort.{Pairs, IsSorted}
use ce_pin.Prelude.Text.{Text, text_eq, contains}
use ce_pin.Prelude.Text.Laws.{text_cmp-eq, text_cmp_refl, text_cmp-IsOrder, contains-append}
use ce_pin.Prelude.Map.{Map, lookup}
use ce_pin.Prelude.Map.Sum.{sum}
use ce_pin.Prelude.Map.Removal.{IsNodup, Differ, weights}
use ce_pin.Held.{HeldEntry, take_victims}

abbrev pub entry_bytes : HeldEntry → ℕ
entry_bytes e = e.bytes

-- Victims come from the ranked entries.
not-victim :
    (cid : Text) (need : ℕ) (ranked : Map HeldEntry) (e : HeldEntry)
    → All (Differ (cid, e)) ranked
    → contains (take_victims need ranked) cid ≡ false
unfolding take_victims contains
not-victim cid need [] e d = refl
not-victim cid need ((k, x) ∷ ranked) e d =
    ground (arith, not-victim cid (need - x.bytes) ranked e d.1)

pub take_victims-IsNodup :
    (need : ℕ) (ranked : Map HeldEntry) → Pairs Differ ranked → IsNodup (take_victims need ranked)
unfolding take_victims
take_victims-IsNodup need [] d = tt
take_victims-IsNodup need ((k, x) ∷ ranked) d = ground (
  arith,
  not-victim k (need - x.bytes) ranked x d.0,
  take_victims-IsNodup (need - x.bytes) ranked d.1,
)

-- Weights of keys that differ from the head's are found in the tail.
weights-tail :
    (k : Text) (x : HeldEntry) (ks : List Text) (m : Map HeldEntry)
    → contains ks k ≡ false
    → weights entry_bytes ks ((k, x) ∷ m) ≡ weights entry_bytes ks m
unfolding weights contains lookup
weights-tail k x [] m h = refl
weights-tail k x (j ∷ ks) m h = ground (arith, text_cmp-IsOrder.flip k j, weights-tail k x ks m)

pub take_victims-enough :
    (need : ℕ) (ranked : Map HeldEntry)
    → Pairs Differ ranked
    → min need (sum entry_bytes ranked) ≤ weights entry_bytes (take_victims need ranked) ranked
unfolding take_victims sum weights lookup
take_victims-enough need [] d = omega arith
take_victims-enough need ((k, x) ∷ ranked) d = ground (
  arith,
  text_cmp_refl k,
  not-victim k (need - x.bytes) ranked x d.0,
  weights-tail k x (take_victims (need - x.bytes) ranked) ranked,
  take_victims-enough (need - x.bytes) ranked d.1,
)

pub take_victims-needed :
    (need : ℕ) (ranked : Map HeldEntry) (vs : List Text) (v : Text)
    → Pairs Differ ranked
    → take_victims need ranked ≡ vs ++ v ∷ []
    → weights entry_bytes vs ranked < need
unfolding take_victims weights lookup
take_victims-needed need [] [] v d e = cc
take_victims-needed need [] (k ∷ vs) v d e = cc
take_victims-needed need ((k, x) ∷ ranked) [] v d e = ground arith
take_victims-needed need ((k, x) ∷ ranked) (j ∷ vs) v d e = ground (
  arith,
  text_cmp_refl k,
  contains-append k vs (v ∷ []),
  not-victim k (need - x.bytes) ranked x d.0,
  weights-tail k x vs ranked,
  take_victims-needed (need - x.bytes) ranked vs v d.1,
)

same_pair :
    (j k : Text) (x e : HeldEntry) → k ≡ j → x ≡ e → ◌≡◌ {A = Text × HeldEntry} (j, x) (k, e)
same_pair j k x e p q = cc

lookup-All {κ} :
    (P : Text × HeldEntry → Type κ) (k : Text) (m : Map HeldEntry) {e : HeldEntry}
    → All P m
    → lookup k m ≡ some e
    → P (k, e)
unfolding lookup
lookup-All P k [] h q = absurd (ground arith)
lookup-All P k ((j, x) ∷ m) {e} h q = elim (Bool-cases (text_eq k j)) [
  | inl here ↦ subst P (same_pair j k x e (text_cmp-eq k j (ground arith)) (ground arith)) h.0
  | inr there ↦ lookup-All P k m h.1 (ground arith)
]

pub take_victims-first :
    (cmp : Cmp (Text × HeldEntry)) (need : ℕ) (ranked : Map HeldEntry) (k j : Text)
    (a b : HeldEntry)
    → IsSorted cmp ranked
    → contains (take_victims need ranked) k ≡ true
    → contains (take_victims need ranked) j ≡ false
    → lookup k ranked ≡ some a
    → lookup j ranked ≡ some b
    → cmp (k, a) (j, b) ≢ Ordering.gt
unfolding take_victims contains lookup
take_victims-first cmp need [] k j a b s vk vj hk hj = absurd (ground arith)
take_victims-first cmp need ((i, x) ∷ ranked) k j a b s vk vj hk hj = ground (
  arith,
  text_cmp-eq k i,
  lookup-All (λ e. cmp (i, x) e ≢ Ordering.gt) j ranked {e = b} s.0,
  take_victims-first cmp (need - x.bytes) ranked k j a b s.1,
)

pub no_last : (vs : List Text) (v : Text) → [] ≢ vs ++ v ∷ []
no_last [] v e = cc
no_last (k ∷ vs) v e = cc

pub IsNodup-init : (vs : List Text) (v : Text) → IsNodup (vs ++ v ∷ []) → IsNodup vs
unfolding contains
IsNodup-init [] v d = tt
IsNodup-init (k ∷ vs) v d = ground (arith, contains-append k vs (v ∷ []), IsNodup-init vs v d.1)
