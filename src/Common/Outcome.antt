-- ===== src/Common/Outcome.antt =====
-- Results of fallible Rust calls.

-- `panic` is no Rust value: `unwrap` on an error, or `unreachable!`.
pub data Result {ℓ κ} (E : Type ℓ) (A : Type κ) : Type (ℓ ⊔ κ) where
  ok : A → Result E A
  err : E → Result E A
  panic : Result E A

-- Rust's `unwrap` and `expect`.
abbrev pub unwrap {ℓ κ} : {E : Type ℓ} {A : Type κ} → Result E A → Result E A
unwrap (ok a) = ok a
unwrap (err e) = panic
unwrap panic = panic

-- Rust's `and_then`, and the statements after a call that may panic.
abbrev pub and_then {ℓ κ μ} :
    {E : Type ℓ} {A : Type κ} {B : Type μ} → Result E A → (A → Result E B) → Result E B
and_then (ok a) f = f a
and_then (err e) f = err e
and_then panic f = panic

-- `unwrap` in a function with errors of its own.
abbrev pub expect {ℓ κ μ} : {E : Type ℓ} {F : Type κ} {A : Type μ} → Result E A → Result F A
expect (ok a) = ok a
expect (err e) = panic
expect panic = panic

abbrev pub map_err {ℓ κ μ} :
    {E : Type ℓ} {F : Type κ} {A : Type μ} → (E → F) → Result E A → Result F A
map_err f (ok a) = ok a
map_err f (err e) = err (f e)
map_err f panic = panic
