-- ===== src/Buffer.antt =====
-- Reading from a byte buffer. The `bytes::Buf` that the decoders take is the list of the bytes that
-- remain. A read returns what remains also when it fails, as the Rust buffer is left advanced.
pub mod Laws
use straw.Common.{
  ℕ, List, [], ◌∷◌, Bool, true, false, leb, length, take, drop, Result, ok, err, panic,
}
use straw.Error.{DecodeError}

-- `abort` is no Rust value: a read past the end, which panics, or a loop of the model that ran out
-- of fuel.
pub data Read {ℓ} (A : Type ℓ) : Type ℓ where
  done : A → List ℕ → Read A
  fail : DecodeError → List ℕ → Read A
  abort : Read A

abbrev pub Reader : Type 0 → Type 0
Reader A = List ℕ → Read A

abbrev pub pure : {A : Type 0} → A → Reader A
pure a bs = done a bs

infixl 5 ◌>>=◌ ◌>>◌
abbrev pub ◌>>=◌ : {A B : Type 0} → Reader A → (A → Reader B) → Reader B
◌>>=◌ m f bs = elim (m bs) [ done a rest ↦ f a rest | fail e rest ↦ fail e rest | abort ↦ abort ]

abbrev pub ◌>>◌ : {B : Type 0} → Reader (Unit {0}) → Reader B → Reader B
m >> k = m >>= λ _. k

-- `if buf.remaining() < n { return Err(e) }`, where `e` may name what remains.
abbrev pub require : ℕ → (ℕ → DecodeError) → Reader (Unit {0})
require n e bs = elim (leb n (length bs)) [ true ↦ done tt bs | false ↦ fail (e (length bs)) bs ]

-- `return Err(e)` unless the test holds.
abbrev pub check : Bool → DecodeError → Reader (Unit {0})
check true e bs = done tt bs
check false e bs = fail e bs

abbrev pub throw : {A : Type 0} → DecodeError → Reader A
throw e bs = fail e bs

-- `Buf::get_u8`.
abbrev pub get_u8 : Reader ℕ
get_u8 [] = abort
get_u8 (b ∷ bs) = done b bs

-- `Buf::copy_to_bytes` and `copy_to_slice`.
abbrev pub copy_to_bytes : ℕ → Reader (List ℕ)
copy_to_bytes n bs = elim (leb n (length bs)) [
  | true ↦ done (take n bs) (drop n bs)
  | false ↦ abort
]

-- A call of a function that does not touch the buffer, with `?`.
abbrev pub lift : {A : Type 0} → Result DecodeError A → Reader A
lift (ok a) bs = done a bs
lift (err e) bs = fail e bs
lift panic bs = abort
