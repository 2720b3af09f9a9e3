-- ===== src/Capsule/Loop.antt =====
-- The loops of the capsule codecs over the entries of a payload: reading entries while bytes remain,
-- writing the entries of a list, and adding up their lengths.
use mathlib.Core.Path.{subst}
use straw.Common.{
  ℕ, zero, suc, ◌+◌, ◌≤◌, ◌≡◌, refl, ◌∙◌, ap, sym, ◌≢◌, List, [], ◌∷◌, ◌++◌, length, Result, ok,
  err, panic, and_then, arith, All, append_assoc, append-nil, length-append, inl, inr, All-append,
}
use straw.Error.{DecodeError}
use straw.Ip.Octets.{IsByte}
use straw.Buffer.{Read, Reader, done, fail, abort}
use straw.Buffer.Laws.{IsTotal, Takes, Yields, Read-cases}

-- `while payload.has_remaining() { items.push(entry(&mut payload)?) }`. Out of fuel, `abort`.
unfoldable pub read_all : {A : Type 0} → Reader A → ℕ → List A → Reader (List A)
read_all entry fuel items [] = done items []
read_all entry zero items (b ∷ bs) = abort
read_all entry (suc fuel) items (b ∷ bs) = elim (entry (b ∷ bs)) [
  | done a rest ↦ read_all entry fuel (items ++ a ∷ []) rest
  | fail e rest ↦ fail e rest
  | abort ↦ abort
]

-- What a decoder that owns its payload returns: the bytes behind the result are dropped.
abbrev pub to_result : {A : Type 0} → Read A → Result DecodeError A
to_result (done a rest) = ok a
to_result (fail e rest) = err e
to_result abort = panic

-- The loop over a payload of its own: each round takes a byte at least, so `length payload` rounds
-- are enough.
unfoldable pub decode_all : {A : Type 0} → Reader A → List ℕ → Result DecodeError (List A)
decode_all entry payload = to_result (read_all entry (length payload) [] payload)

-- `for item in items { put(item, buf) }`
unfoldable pub write_all :
    {A : Type 0}
    → (A → List ℕ → Result DecodeError (List ℕ))
    → List A
    → List ℕ
    → Result DecodeError (List ℕ)
write_all put [] buf = ok buf
write_all put (x ∷ xs) buf = and_then (put x buf) (write_all put xs)

-- `items.iter().map(len).sum()`
unfoldable pub sum_all : {A : Type 0} → (A → Result DecodeError ℕ) → List A → Result DecodeError ℕ
sum_all len [] = ok 0
sum_all len (x ∷ xs) = and_then (len x) λ n. and_then (sum_all len xs) λ m. ok (n + m)

module _ {A : Type 0} (entry : Reader A) where
  read_all_step :
      (fuel : ℕ) (items : List A) (bs : List ℕ) (a : A) (rest : List ℕ)
      → entry bs ≡ done a rest
      → length rest + 1 ≤ length bs
      → read_all entry (suc fuel) items bs ≡ read_all entry fuel (items ++ a ∷ []) rest
  unfolding read_all
  read_all_step fuel items [] a rest e h = absurd (omega arith)
  read_all_step fuel items (b ∷ bs) a rest e h = rw (e, read_all)

  -- Each entry takes a byte, so as much fuel as there are bytes is enough.
  pub read_all-total :
      IsTotal entry
      → Takes 1 entry
      → (fuel : ℕ) (items : List A) (bs : List ℕ) → length bs ≤ fuel
      → read_all entry fuel items bs ≢ abort
  unfolding read_all
  read_all-total total takes fuel items [] h = λ e. cc
  read_all-total total takes zero items (b ∷ bs) h = absurd (omega arith)
  read_all-total total takes (suc fuel) items (b ∷ bs) h = elim (Read-cases (entry (b ∷ bs))) [
    | inl (a, rest, e) ↦
        rw (e, read_all)
          (read_all-total total takes fuel (items ++ a ∷ []) rest
            (omega (arith, takes (b ∷ bs) a rest e)))
    | inr (inl (x, rest, e)) ↦ rw (e, read_all) (λ q. cc)
    | inr (inr e) ↦ absurd (total (b ∷ bs) (omega arith) e)
  ]

  pub read_all-Yields :
      (P : A → Type 0)
      → Yields P entry
      → (fuel : ℕ) (items : List A) (bs : List ℕ) (out : List A) (rest : List ℕ) → All IsByte bs
      → All P items
      → read_all entry fuel items bs ≡ done out rest
      → All P out × (rest ≡ [])
  unfolding read_all
  read_all-Yields P y fuel items [] out rest hb hi e = ground arith
  read_all-Yields P y zero items (b ∷ bs) out rest hb hi e = absurd (cc)
  read_all-Yields P y (suc fuel) items (b ∷ bs) out rest hb hi e =
      elim (Read-cases (entry (b ∷ bs))) [
        | inl (a, mid, q) ↦
            let (pa, hm) = y (b ∷ bs) a mid hb q in
            read_all-Yields P y fuel (items ++ a ∷ []) mid out rest hm
              (All-append P items (a ∷ []) hi (pa, tt)) (ground arith)
        | inr (inl (x, mid, q)) ↦ absurd (ground arith)
        | inr (inr q) ↦ absurd (ground arith)
      ]

  pub decode_all-ne-panic :
      IsTotal entry → Takes 1 entry → (payload : List ℕ) → decode_all entry payload ≢ panic
  unfolding decode_all
  decode_all-ne-panic total takes payload =
      elim (Read-cases (read_all entry (length payload) [] payload)) [
        | inl (a, rest, e) ↦ rw e (λ q. cc)
        | inr (inl (x, rest, e)) ↦ rw e (λ q. cc)
        | inr (inr e) ↦
            absurd (read_all-total total takes (length payload) [] payload (omega arith) e)
      ]

  pub decode_all-valid :
      (P : A → Type 0)
      → Yields P entry
      → (payload : List ℕ) (xs : List A) → All IsByte payload
      → decode_all entry payload ≡ ok xs
      → All P xs
  unfolding decode_all
  decode_all-valid P y payload xs hb h =
      elim (Read-cases (read_all entry (length payload) [] payload)) [
        | inl (a, rest, e) ↦
            let same : a ≡ xs = ground arith in
            subst (All P) same (read_all-Yields P y (length payload) [] payload a rest hb tt e).0
        | inr (inl (x, rest, e)) ↦ absurd (ground arith)
        | inr (inr e) ↦ absurd (ground arith)
      ]

-- The bytes of a list of entries.
abbrev pub concat_map : {A : Type 0} → (A → List ℕ) → List A → List ℕ
concat_map f [] = []
concat_map f (x ∷ xs) = f x ++ concat_map f xs

module _ {A : Type 0} (IsValid : A → Type 0) (bytes : A → List ℕ) where
  pub read_all-bytes :
      (entry : Reader A)
      → ((a : A) (rest : List ℕ) → IsValid a → entry (bytes a ++ rest) ≡ done a rest)
      → Takes 1 entry
      → (xs : List A) (fuel : ℕ) (items : List A) → All IsValid xs
      → length (concat_map bytes xs) ≤ fuel
      → read_all entry fuel items (concat_map bytes xs) ≡ done (items ++ xs) []
  read_all-bytes entry reads takes [] fuel items v h = rw append-nil (unfold read_all in refl)
  read_all-bytes entry reads takes (x ∷ xs) zero items v h =
      absurd (omega (arith, takes _ x (concat_map bytes xs) (reads x (concat_map bytes xs) v.0)))
  read_all-bytes entry reads takes (x ∷ xs) (suc fuel) items v h =
      let e = reads x (concat_map bytes xs) v.0 in
      let shorter = takes _ x (concat_map bytes xs) e in
      read_all_step entry fuel items _ x (concat_map bytes xs) e shorter
      ∙ read_all-bytes entry reads takes xs fuel (items ++ x ∷ []) v.1 (omega arith)
      ∙ ap (λ ys. done ys []) (append_assoc items (x ∷ []) xs)

  pub decode_all-bytes :
      (entry : Reader A)
      → ((a : A) (rest : List ℕ) → IsValid a → entry (bytes a ++ rest) ≡ done a rest)
      → Takes 1 entry
      → (xs : List A) → All IsValid xs
      → decode_all entry (concat_map bytes xs) ≡ ok xs
  unfolding decode_all
  decode_all-bytes entry reads takes xs v =
      rw (read_all-bytes entry reads takes xs (length (concat_map bytes xs)) [] v (omega arith))

  pub write_all-bytes :
      (put : A → List ℕ → Result DecodeError (List ℕ))
      → ((a : A) (buf : List ℕ) → IsValid a → put a buf ≡ ok (buf ++ bytes a))
      → (xs : List A) (buf : List ℕ) → All IsValid xs
      → write_all put xs buf ≡ ok (buf ++ concat_map bytes xs)
  unfolding write_all
  write_all-bytes put writes [] buf v = rw append-nil
  write_all-bytes put writes (x ∷ xs) buf v = rw (writes x buf v.0) (
      write_all-bytes put writes xs (buf ++ bytes x) v.1
      ∙ ap ok (append_assoc buf (bytes x) (concat_map bytes xs)))

  pub sum_all-bytes :
      (len : A → Result DecodeError ℕ)
      → ((a : A) → IsValid a → len a ≡ ok (length (bytes a)))
      → (xs : List A) → All IsValid xs
      → sum_all len xs ≡ ok (length (concat_map bytes xs))
  unfolding sum_all
  sum_all-bytes len lens [] v = refl
  sum_all-bytes len lens (x ∷ xs) v =
      rw (lens x v.0, sum_all-bytes len lens xs v.1)
        (ap ok (sym (length-append (bytes x) (concat_map bytes xs))))
