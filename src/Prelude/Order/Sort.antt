-- ===== src/Prelude/Order/Sort.antt =====
-- `slice::sort_by`: a stable sort, as insertion of each element before the first that is not below it.
use Prim.Native.Nat.{◌+◌, Ordering}
use mathlib.Core.Path.{◌≡◌, refl}
use mathlib.Core.Logic.{◌≢◌}
use mathlib.Core.List.{List, [], ◌∷◌, Perm}
use mathlib.Core.List.Perm
use native.Mathlib.Omega.{arith}
use ce_pin.Prelude.Lists.{All, All-imp, length}
use ce_pin.Prelude.Order.{Cmp, IsOrder}

module _ {ℓ} {A : Type ℓ} where
  -- A relation between any two elements.
  abbrev pub Pairs {κ} : (A → A → Type κ) → List A → Type κ
  Pairs R [] = Unit
  Pairs R (x ∷ xs) = All (R x) xs × Pairs R xs

module _ {ℓ} {A : Type ℓ} (cmp : Cmp A) where
  unfoldable pub insert_by : A → List A → List A
  insert_by x [] = x ∷ []
  insert_by x (y ∷ ys) = elim (cmp x y) [ Ordering.gt ↦ y ∷ insert_by x ys | _ ↦ x ∷ y ∷ ys ]

  unfoldable pub sort_by : List A → List A
  unfolding insert_by
  sort_by [] = []
  sort_by (x ∷ xs) = insert_by x (sort_by xs)

  -- Nothing in the list stands strictly before `a`.
  abbrev pub IsBelow : A → List A → Type 0
  IsBelow a = All (λ b. cmp a b ≢ Ordering.gt)

  abbrev pub IsSorted : List A → Type 0
  IsSorted [] = Unit
  IsSorted (x ∷ xs) = IsBelow x xs × IsSorted xs

  pub All-insert_by {κ} :
      (P : A → Type κ) (x : A) (ys : List A) → P x → All P ys → All P (insert_by x ys)
  unfolding insert_by
  All-insert_by P x [] h k = (h, tt)
  All-insert_by P x (y ∷ ys) h k = ground (arith, All-insert_by P x ys h k.1)

  pub All-sort_by {κ} : (P : A → Type κ) (xs : List A) → All P xs → All P (sort_by xs)
  unfolding sort_by
  All-sort_by P [] h = tt
  All-sort_by P (x ∷ xs) h = All-insert_by P x (sort_by xs) h.0 (All-sort_by P xs h.1)

  All-insert_by_inv {κ} :
      (P : A → Type κ) (x : A) (ys : List A) → All P (insert_by x ys) → P x × All P ys
  unfolding insert_by
  All-insert_by_inv P x [] h = (h.0, tt)
  All-insert_by_inv P x (y ∷ ys) h =
      elim (cmp x y)
          as (λ o.
            All P (elim o [ Ordering.gt ↦ y ∷ insert_by x ys | _ ↦ x ∷ y ∷ ys ])
            → P x × All P (y ∷ ys)) [
              | Ordering.gt ↦
                  λ k. let (here, rest) = All-insert_by_inv P x ys k.1 in (here, (k.0, rest))
              | _ ↦ λ k. k
            ]
        h

  -- What holds of all of the sorted elements holds of all of the elements.
  pub All-sort_by_inv {κ} : (P : A → Type κ) (xs : List A) → All P (sort_by xs) → All P xs
  unfolding sort_by
  All-sort_by_inv P [] h = tt
  All-sort_by_inv P (x ∷ xs) h =
      let (here, rest) = All-insert_by_inv P x (sort_by xs) h in (here, All-sort_by_inv P xs rest)

  pub length-insert_by : (x : A) (ys : List A) → length (insert_by x ys) ≡ length ys + 1
  unfolding insert_by
  length-insert_by x [] = refl
  length-insert_by x (y ∷ ys) = ground (arith, length-insert_by x ys)

  pub length-sort_by : (xs : List A) → length (sort_by xs) ≡ length xs
  unfolding sort_by
  length-sort_by [] = refl
  length-sort_by (x ∷ xs) = omega (arith, length-insert_by x (sort_by xs), length-sort_by xs)

  -- A symmetric relation between all pairs survives sorting.
  insert_by-Pairs {κ} :
      (R : A → A → Type κ)
      → ((a b : A) → R a b → R b a)
      → (x : A) (ys : List A) → All (R x) ys
      → Pairs R ys
      → Pairs R (insert_by x ys)
  unfolding insert_by
  insert_by-Pairs R flip x [] h k = (tt, tt)
  insert_by-Pairs R flip x (y ∷ ys) h k =
      ground (arith, flip x y h.0, All-insert_by (R y) x ys, insert_by-Pairs R flip x ys h.1 k.1)

  pub sort_by-Pairs {κ} :
      (R : A → A → Type κ)
      → ((a b : A) → R a b → R b a)
      → (xs : List A) → Pairs R xs
      → Pairs R (sort_by xs)
  unfolding sort_by
  sort_by-Pairs R flip [] h = tt
  sort_by-Pairs R flip (x ∷ xs) h =
      insert_by-Pairs R flip x (sort_by xs) (All-sort_by (R x) xs h.0) (sort_by-Pairs R flip xs h.1)

  insert_by-perm : (x : A) (ys : List A) → Perm (insert_by x ys) (x ∷ ys)
  unfolding insert_by
  insert_by-perm x [] = Perm.rfl
  insert_by-perm x (y ∷ ys) = ground (
    arith,
    Perm.rfl {l = x ∷ y ∷ ys},
    Perm.trans (Perm.cons y (insert_by-perm x ys)) (Perm.swap x y ys),
  )

  -- Sorting loses and invents nothing.
  pub sort_by-perm : (xs : List A) → Perm (sort_by xs) xs
  unfolding sort_by
  sort_by-perm [] = Perm.rfl
  sort_by-perm (x ∷ xs) = Perm.trans (insert_by-perm x (sort_by xs)) (Perm.cons x (sort_by-perm xs))

module _ {ℓ} {A : Type ℓ} (cmp : Cmp A) (o : IsOrder cmp) where
  le_trans_cmp : (a b c : A) → cmp a b ≢ Ordering.gt → cmp b c ≢ Ordering.gt → cmp a c ≢ Ordering.gt
  le_trans_cmp a b c h k = ground (
    arith,
    o.trans a b c,
    o.congr a b c,
    o.congr c b a,
    o.flip b c,
    o.flip a c,
    o.flip a b,
    o.flip c a,
    o.flip b a,
  )

  IsBelow-weaken :
      (a b : A) (ys : List A) → cmp a b ≢ Ordering.gt → IsBelow cmp b ys → IsBelow cmp a ys
  IsBelow-weaken a b ys h =
      All-imp (λ c. cmp b c ≢ Ordering.gt) (λ c. cmp a c ≢ Ordering.gt) (λ c. le_trans_cmp a b c h)
        ys

  insert_by-IsSorted : (x : A) (ys : List A) → IsSorted cmp ys → IsSorted cmp (insert_by cmp x ys)
  unfolding insert_by
  insert_by-IsSorted x [] h = (tt, tt)
  insert_by-IsSorted x (y ∷ ys) h = ground (
    arith,
    o.flip x y,
    insert_by-IsSorted x ys h.1,
    All-insert_by cmp (λ b. cmp y b ≢ Ordering.gt) x ys,
    IsBelow-weaken x y ys,
  )

  -- Under a lawful comparator the result is in order.
  pub sort_by-IsSorted : (xs : List A) → IsSorted cmp (sort_by cmp xs)
  unfolding sort_by
  sort_by-IsSorted [] = tt
  sort_by-IsSorted (x ∷ xs) = insert_by-IsSorted x (sort_by cmp xs) (sort_by-IsSorted xs)
