-- ===== src/Common/Assoc.antt =====
-- `HashMap` with number keys as an association list, each key once.
use Prim.Native.Nat.{ℕ}
use mathlib.Core.Path.{◌≡◌, refl}
use mathlib.Core.Logic.{◌≢◌, inl, inr}
use mathlib.Core.List.{List, [], ◌∷◌}
use mathlib.Core.Option.{Option, none, some}
use native.Mathlib.Omega.{arith}
use straw.Common.Tests.{◌==◌, if◌then◌else◌, Bool-cases}

module _ {V : Type 0} where
  unfoldable pub get : List (ℕ × V) → ℕ → Option V
  get [] k = none
  get ((j, v) ∷ m) k = if j == k then some v else get m k

  -- `remove`, without the value that was there.
  unfoldable pub erase : List (ℕ × V) → ℕ → List (ℕ × V)
  erase [] k = []
  erase ((j, v) ∷ m) k = let rest = erase m k in if j == k then rest else (j, v) ∷ rest

  unfoldable pub insert : List (ℕ × V) → ℕ → V → List (ℕ × V)
  unfolding erase
  insert m k v = (k, v) ∷ erase m k

  pub get-erase : (m : List (ℕ × V)) (k : ℕ) → get (erase m k) k ≡ none
  unfolding get erase
  get-erase [] k = refl
  get-erase ((j, v) ∷ m) k = ground (arith, get-erase m k)

  pub get-erase_other : (m : List (ℕ × V)) (k j : ℕ) → j ≢ k → get (erase m k) j ≡ get m j
  unfolding get erase
  get-erase_other [] k j h = refl
  get-erase_other ((i, v) ∷ m) k j h = ground (arith, get-erase_other m k j h)

  pub get-insert : (m : List (ℕ × V)) (k : ℕ) (v : V) → get (insert m k v) k ≡ some v
  unfolding get insert
  get-insert m k v = ground arith

  pub get-insert_other :
      (m : List (ℕ × V)) (k : ℕ) (v : V) (j : ℕ) → j ≢ k → get (insert m k v) j ≡ get m j
  unfolding get insert
  get-insert_other m k v j h = ground (arith, get-erase_other m k j h)

  pub get-erase_at :
      (m : List (ℕ × V)) (k j : ℕ) → get (erase m k) j ≡ (if j == k then none else get m j)
  get-erase_at m k j = elim (Bool-cases (j == k)) [
    | inl e ↦ let same : j ≡ k = ground arith in ground (arith, same, get-erase m k)
    | inr e ↦ ground (arith, get-erase_other m k j)
  ]

  pub get-insert_at :
      (m : List (ℕ × V)) (k : ℕ) (v : V) (j : ℕ)
      → get (insert m k v) j ≡ (if j == k then some v else get m j)
  get-insert_at m k v j = elim (Bool-cases (j == k)) [
    | inl e ↦ let same : j ≡ k = ground arith in ground (arith, same, get-insert m k v)
    | inr e ↦ ground (arith, get-insert_other m k v j)
  ]
