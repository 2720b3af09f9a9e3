-- ===== src/Forwarding/Bytes.antt =====
-- Reading and writing the bytes of a packet. Where the code indexes or slices a packet that it was
-- given, `read`, `read16`, `read_slice` and `write` model it: past the end they panic. `byte`, `be16` and
-- `slice` name what stands in the packet, in statements and under those reads; `set`, `put` and `put16`
-- write in packets whose length the function has fixed or tested.
use straw.Common.{
  ℕ, zero, suc, ◌+◌, ◌-◌, ◌*◌, ◌/◌, ◌%◌, ◌≤◌, ◌<◌, ◌≡◌, ◌≢◌, refl, ap, List, [], ◌∷◌, length,
  length-set, take, drop, set, get_or, All, arith, Result, panic, ltb, leb, ◌&&◌, if◌then◌else◌,
}
use straw.Error.{ForwardingError}
use straw.Ip.Octets.{IsByte}

-- `n - 1`, for what follows; it overflows at 0, which panics where overflow is checked.
abbrev pub lower : {A : Type 0} → ℕ → (ℕ → Result ForwardingError A) → Result ForwardingError A
lower n rest = if ltb 0 n then rest (n - 1) else panic

-- The byte at `i`, and 0 past the end.
abbrev pub byte : List ℕ → ℕ → ℕ
byte packet i = get_or packet i 0

-- The bytes at `i` and `i + 1` as a number.
abbrev pub be16 : List ℕ → ℕ → ℕ
be16 packet i = byte packet i * 256 + byte packet (suc i)

-- The bytes from `i` to before `j`.
abbrev pub slice : List ℕ → ℕ → ℕ → List ℕ
slice packet i j = take (j - i) (drop i packet)

module _ {A : Type 0} (packet : List ℕ) (i : ℕ) where
  -- `packet[i]`, for what follows
  abbrev pub read : (ℕ → Result ForwardingError A) → Result ForwardingError A
  read rest = if ltb i (length packet) then rest (byte packet i) else panic

  -- `u16::from_be_bytes([packet[i], packet[i + 1]])`
  abbrev pub read16 : (ℕ → Result ForwardingError A) → Result ForwardingError A
  read16 rest = if ltb (suc i) (length packet) then rest (be16 packet i) else panic

  -- `packet[i..j]`
  abbrev pub read_slice : ℕ → (List ℕ → Result ForwardingError A) → Result ForwardingError A
  read_slice j rest = if leb i j && leb j (length packet) then rest (slice packet i j) else panic

  -- `packet[..i]`
  abbrev pub read_prefix : (List ℕ → Result ForwardingError A) → Result ForwardingError A
  read_prefix rest = if leb i (length packet) then rest (take i packet) else panic

  -- `packet[i] = v`
  abbrev pub write : ℕ → (List ℕ → Result ForwardingError A) → Result ForwardingError A
  write v rest = if ltb i (length packet) then rest (set packet i v) else panic

-- `packet[i..i + 2].copy_from_slice(&v.to_be_bytes())`
abbrev pub put16 : List ℕ → ℕ → ℕ → List ℕ
put16 packet i v = set (set packet i (v / 256 % 256)) (suc i) (v % 256)

-- `packet[i..i + bytes.len()].copy_from_slice(bytes)`
unfoldable pub put : List ℕ → ℕ → List ℕ → List ℕ
put packet i [] = packet
put packet i (b ∷ bytes) = put (set packet i b) (suc i) bytes

pub get_or-set : (l : List ℕ) (i v j : ℕ) → j ≢ i → get_or (set l i v) j 0 ≡ get_or l j 0
get_or-set [] i v j h = refl
get_or-set (x ∷ l) zero v zero h = absurd (h refl)
get_or-set (x ∷ l) zero v (suc j) h = refl
get_or-set (x ∷ l) (suc i) v zero h = refl
get_or-set (x ∷ l) (suc i) v (suc j) h = get_or-set l i v j (λ e. h (ap suc e))

pub get_or-set_same : (l : List ℕ) (i v : ℕ) → i < length l → get_or (set l i v) i 0 ≡ v
get_or-set_same [] i v h = absurd (omega arith)
get_or-set_same (x ∷ l) zero v h = refl
get_or-set_same (x ∷ l) (suc i) v h = get_or-set_same l i v (omega arith)

pub take-set : (n : ℕ) (l : List ℕ) (i v : ℕ) → take n (set l i v) ≡ set (take n l) i v
take-set zero l i v = refl
take-set (suc n) [] i v = refl
take-set (suc n) (x ∷ l) zero v = refl
take-set (suc n) (x ∷ l) (suc i) v = ap (λ t. x ∷ t) (take-set n l i v)

pub drop-set :
    (n : ℕ) (l : List ℕ) (i j v : ℕ) → j ≡ n + i → drop n (set l j v) ≡ set (drop n l) i v
drop-set zero l i j v h = let e : j ≡ i = omega arith in ap (λ k. set l k v) e
drop-set (suc n) [] i j v h = refl
drop-set (suc n) (x ∷ l) i zero v h = absurd (omega arith)
drop-set (suc n) (x ∷ l) i (suc j) v h = drop-set n l i j v (omega arith)

-- A write before the cut is not seen behind it.
pub drop-set_before : (n : ℕ) (l : List ℕ) (i v : ℕ) → i < n → drop n (set l i v) ≡ drop n l
drop-set_before zero l i v h = absurd (omega arith)
drop-set_before (suc n) [] i v h = refl
drop-set_before (suc n) (x ∷ l) zero v h = refl
drop-set_before (suc n) (x ∷ l) (suc i) v h = drop-set_before n l i v (omega arith)

pub take-set_behind : (n : ℕ) (l : List ℕ) (i v : ℕ) → n ≤ i → take n (set l i v) ≡ take n l
take-set_behind zero l i v h = refl
take-set_behind (suc n) [] i v h = refl
take-set_behind (suc n) (x ∷ l) zero v h = absurd (omega arith)
take-set_behind (suc n) (x ∷ l) (suc i) v h =
    ap (λ t. x ∷ t) (take-set_behind n l i v (omega arith))

pub get_or-take : (n : ℕ) (l : List ℕ) (i : ℕ) → i < n → get_or (take n l) i 0 ≡ get_or l i 0
get_or-take zero l i h = absurd (omega arith)
get_or-take (suc n) [] i h = refl
get_or-take (suc n) (x ∷ l) zero h = refl
get_or-take (suc n) (x ∷ l) (suc i) h = get_or-take n l i (omega arith)

pub All-set : (l : List ℕ) (i v : ℕ) → IsByte v → All IsByte l → All IsByte (set l i v)
All-set [] i v hv h = tt
All-set (x ∷ l) zero v hv h = (hv, h.1)
All-set (x ∷ l) (suc i) v hv h = (h.0, All-set l i v hv h.1)

pub get_or-IsByte : (l : List ℕ) (i : ℕ) → All IsByte l → IsByte (get_or l i 0)
get_or-IsByte [] i h = omega arith
get_or-IsByte (x ∷ l) zero h = h.0
get_or-IsByte (x ∷ l) (suc i) h = get_or-IsByte l i h.1

pub length-put16 : (l : List ℕ) (i v : ℕ) → length (put16 l i v) ≡ length l
length-put16 l i v = omega (
  arith,
  length-set {0} (set l i (v / 256 % 256)) (suc i) (v % 256),
  length-set {0} l i (v / 256 % 256),
)

pub All-put16 : (l : List ℕ) (i v : ℕ) → All IsByte l → All IsByte (put16 l i v)
All-put16 l i v h =
    All-set (set l i (v / 256 % 256)) (suc i) (v % 256) (omega arith)
      (All-set l i (v / 256 % 256) (omega arith) h)
