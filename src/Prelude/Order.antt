-- ===== src/Prelude/Order.antt =====
-- Comparators as Rust writes them, `a.cmp(b).then(...)`, the laws of a total preorder, and
-- `slice::sort_by` as a stable insertion sort.
pub mod Sort
use Prim.Native.Nat.{ℕ, compare, Ordering}
use mathlib.Core.Path.{◌≡◌, refl}
use mathlib.Core.Bool.{Bool, true, false}
use native.Mathlib.Omega.{arith}

abbrev pub Cmp {ℓ} : Type ℓ → Type ℓ
Cmp A = A → A → Ordering

-- `Ordering::reverse`
abbrev pub flipped : Ordering → Ordering
flipped Ordering.lt = Ordering.gt
flipped Ordering.eq = Ordering.eq
flipped Ordering.gt = Ordering.lt

-- `Ordering::then`
abbrev pub and_then : Ordering → Ordering → Ordering
and_then Ordering.lt o = Ordering.lt
and_then Ordering.eq o = o
and_then Ordering.gt o = Ordering.gt

-- `bool::cmp`: false before true.
abbrev pub bool_cmp : Bool → Bool → Ordering
bool_cmp false false = Ordering.eq
bool_cmp false true = Ordering.lt
bool_cmp true false = Ordering.gt
bool_cmp true true = Ordering.eq

-- A total preorder: equal elements stand in one place.
pub record IsOrder {ℓ} {A : Type ℓ} (cmp : Cmp A) : Type ℓ where
  pub flip : (a b : A) → cmp b a ≡ flipped (cmp a b)
  pub trans : (a b c : A) → cmp a b ≡ Ordering.lt → cmp b c ≡ Ordering.lt → cmp a c ≡ Ordering.lt
  pub congr : (a b c : A) → cmp a b ≡ Ordering.eq → cmp a c ≡ cmp b c

pub compare-IsOrder : IsOrder compare
compare-IsOrder = record {
  flip = λ a b. ground arith;
  trans = λ a b c h k. ground arith;
  congr = λ a b c h. ground arith;
}

pub bool_cmp-IsOrder : IsOrder bool_cmp
bool_cmp-IsOrder = record {
  flip = λ a b. ground arith;
  trans = λ a b c h k. ground arith;
  congr = λ a b c h. ground arith;
}

module _ {ℓ κ} {A : Type ℓ} {B : Type κ} where
  -- Comparison by a key.
  abbrev pub on : (A → B) → Cmp B → Cmp A
  on f cmp a b = cmp (f a) (f b)

  pub on-IsOrder : (f : A → B) (cmp : Cmp B) → IsOrder cmp → IsOrder (on f cmp)
  on-IsOrder f cmp o = record {
    flip = λ a b. o.flip (f a) (f b);
    trans = λ a b c. o.trans (f a) (f b) (f c);
    congr = λ a b c. o.congr (f a) (f b) (f c);
  }

module _ {ℓ} {A : Type ℓ} where
  -- `b.cmp(a)`: descending.
  abbrev pub descending : Cmp A → Cmp A
  descending cmp a b = cmp b a

  -- `cmp.then(other)`
  abbrev pub then_by : Cmp A → Cmp A → Cmp A
  then_by cmp other a b = and_then (cmp a b) (other a b)

  pub descending-IsOrder : (cmp : Cmp A) → IsOrder cmp → IsOrder (descending cmp)
  descending-IsOrder cmp o = record {
    flip = λ a b. o.flip b a;
    trans = λ a b c h k. o.trans c b a k h;
    congr = λ a b c h. ground (arith, o.flip a c, o.flip b c, o.flip a b, o.congr a b c);
  }

  pub then_by-IsOrder :
      (cmp other : Cmp A) → IsOrder cmp → IsOrder other → IsOrder (then_by cmp other)
  then_by-IsOrder cmp other o q = record {
    flip = λ a b. ground (arith, o.flip a b, q.flip a b);
    trans = λ a b c h k. ground (
      arith,
      o.trans a b c,
      q.trans a b c,
      o.congr a b c,
      o.congr b c a,
      o.flip a b,
      o.flip b c,
      o.flip a c,
      o.flip b a,
      o.flip c a,
    );
    congr = λ a b c h. ground (arith, o.congr a b c, q.congr a b c);
  }
