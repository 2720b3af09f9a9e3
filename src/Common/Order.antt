-- ===== src/Common/Order.antt =====
-- Rust's `Ordering`: comparing in turn, and stable sorting by a comparison.
use Prim.Native.Nat.{ℕ, ◌/◌, ◌%◌, compare, Ordering}
use mathlib.Core.Path.{◌≡◌, refl}
use mathlib.Core.Bool.{Bool, true, false}
use mathlib.Core.List.{List, [], ◌∷◌, ◌++◌}
use native.Mathlib.Omega.{arith}
use straw.Common.Lists.{length}

-- `a.then_with(|| b)`
abbrev pub then_with : Ordering → Ordering → Ordering
then_with Ordering.lt b = Ordering.lt
then_with Ordering.eq b = b
then_with Ordering.gt b = Ordering.gt

abbrev pub is_lt : Ordering → Bool
is_lt Ordering.lt = true
is_lt Ordering.eq = false
is_lt Ordering.gt = false

abbrev pub is_gt : Ordering → Bool
is_gt Ordering.lt = false
is_gt Ordering.eq = false
is_gt Ordering.gt = true

-- `Ord` of byte arrays: lexicographic.
unfoldable pub cmp_bytes : List ℕ → List ℕ → Ordering
cmp_bytes [] [] = Ordering.eq
cmp_bytes [] (y ∷ ys) = Ordering.lt
cmp_bytes (x ∷ xs) [] = Ordering.gt
cmp_bytes (x ∷ xs) (y ∷ ys) = then_with (compare x y) (cmp_bytes xs ys)

pub cmp_bytes-append :
    (xs ys : List ℕ) (x y : ℕ)
    → length xs ≡ length ys
    → cmp_bytes (xs ++ x ∷ []) (ys ++ y ∷ []) ≡ then_with (cmp_bytes xs ys) (compare x y)
unfolding cmp_bytes
cmp_bytes-append [] [] x y e = ground arith
cmp_bytes-append [] (b ∷ ys) x y e = absurd (omega arith)
cmp_bytes-append (a ∷ xs) [] x y e = absurd (omega arith)
cmp_bytes-append (a ∷ xs) (b ∷ ys) x y e = ground (arith, cmp_bytes-append xs ys x y (omega arith))

pub compare-digits :
    (a b : ℕ) → then_with (compare (a / 256) (b / 256)) (compare (a % 256) (b % 256)) ≡ compare a b
compare-digits a b = ground arith

-- `slice::sort_by` is stable: an element goes behind those that are less and before its equals,
-- which came later.
module _ {A : Type 0} (cmp : A → A → Ordering) where
  unfoldable pub insert_by : A → List A → List A
  insert_by x [] = x ∷ []
  insert_by x (y ∷ ys) = elim (cmp x y) [ Ordering.gt ↦ y ∷ insert_by x ys | _ ↦ x ∷ y ∷ ys ]

  unfoldable pub sort_by : List A → List A
  unfolding insert_by
  sort_by [] = []
  sort_by (x ∷ xs) = insert_by x (sort_by xs)

  -- Neighbours strictly increase.
  abbrev pub Increasing : List A → Type 0
  Increasing [] = Unit {0}
  Increasing (x ∷ []) = Unit {0}
  Increasing (x ∷ y ∷ ys) = (cmp x y ≡ Ordering.lt) × Increasing (y ∷ ys)

  -- Sorting leaves an increasing list as it is.
  pub sort_by-Increasing : (xs : List A) → Increasing xs → sort_by xs ≡ xs
  unfolding sort_by
  sort_by-Increasing [] h = refl
  sort_by-Increasing (x ∷ []) h = refl
  sort_by-Increasing (x ∷ y ∷ ys) h = rw (sort_by-Increasing (y ∷ ys) h.1, h.0, insert_by)
