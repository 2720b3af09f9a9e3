-- ===== src/Buffer/Laws.antt =====
-- Properties of readers, and how sequencing carries them.
use mathlib.Core.Path.{subst}
use straw.Common.{
  ℕ, ◌+◌, ◌≤◌, ◌≡◌, refl, ◌∙◌, ◌≢◌, ◌⊎◌, inl, inr, List, ◌++◌, length, arith, All, length-append,
  take-append_le, drop-append_le, length-drop, length-take, All-take, All-drop, Bool, true, false,
  if◌then◌else◌, Result, ok, err, panic, take, drop, take-append, drop-append, ◌∷◌, [],
}
use straw.Ip.Octets.{IsByte}
use straw.Error.{DecodeError}
use straw.Buffer.{
  Read, done, fail, abort, Reader, ◌>>=◌, ◌>>◌, pure, require, check, throw, lift, get_u8,
  copy_to_bytes,
}

module _ {A : Type 0} where
  -- Neither a panic nor, in the model, a want of fuel.
  abbrev pub IsTotalFrom : ℕ → Reader A → Type 0
  IsTotalFrom n m = (bs : List ℕ) → n ≤ length bs → m bs ≢ abort

  abbrev pub IsTotal : Reader A → Type 0
  IsTotal m = IsTotalFrom 0 m

  -- A result does not depend on the bytes behind those that were read.
  abbrev pub IsLocal : Reader A → Type 0
  IsLocal m =
      (bs more : List ℕ) (a : A) (rest : List ℕ)
      → m bs ≡ done a rest
      → m (bs ++ more) ≡ done a (rest ++ more)

  -- A read takes `n` bytes at least.
  abbrev pub Takes : ℕ → Reader A → Type 0
  Takes n m =
      (bs : List ℕ) (a : A) (rest : List ℕ) → m bs ≡ done a rest → length rest + n ≤ length bs

  -- On bytes, what is read has the property and what remains is bytes.
  abbrev pub Yields {κ} : (A → Type κ) → Reader A → Type κ
  Yields P m =
      (bs : List ℕ) (a : A) (rest : List ℕ)
      → All IsByte bs
      → m bs ≡ done a rest
      → P a × All IsByte rest

  pub Read-cases :
      (r : Read A)
      → ((a : A) × (rest : List ℕ) × (r ≡ done a rest))
        ⊎ ((e : DecodeError) × (rest : List ℕ) × (r ≡ fail e rest))
        ⊎ (r ≡ abort)
  Read-cases (done a rest) = inl (a, rest, refl)
  Read-cases (fail e rest) = inr (inl (e, rest, refl))
  Read-cases abort = inr (inr refl)

module _ {A B : Type 0} (m : Reader A) (f : A → Reader B) where
  pub >>=-done :
      {bs : List ℕ} {a : A} {rest : List ℕ} → m bs ≡ done a rest → (m >>= f) bs ≡ f a rest
  >>=-done e = rw (e, ◌>>=◌)

  -- Inversion of a successful sequence.
  pub >>=-eq-done :
      (bs : List ℕ) {b : B} {rest : List ℕ}
      → (m >>= f) bs ≡ done b rest
      → (a : A) × (mid : List ℕ) × (m bs ≡ done a mid) × (f a mid ≡ done b rest)
  >>=-eq-done bs {b} {rest} e = go (m bs) refl e
    where
      go :
          (r : Read A)
          → m bs ≡ r
          → (elim r [ done a mid ↦ f a mid | fail x mid ↦ fail x mid | abort ↦ abort ])
            ≡ done b rest
          → (a : A) × (mid : List ℕ) × (m bs ≡ done a mid) × (f a mid ≡ done b rest)
      go (done a mid) p q = (a, mid, p, q)
      go (fail x mid) p q = absurd (cc)
      go abort p q = absurd (cc)

  pub >>=-IsLocal : IsLocal m → ((a : A) → IsLocal (f a)) → IsLocal (m >>= f)
  >>=-IsLocal hm hf bs more b rest e =
      let (a, mid, p, q) = >>=-eq-done bs e in
      >>=-done (hm bs more a mid p) ∙ hf a mid more b rest q

  pub >>=-Takes : (i j : ℕ) → Takes i m → ((a : A) → Takes j (f a)) → Takes (i + j) (m >>= f)
  >>=-Takes i j hm hf bs b rest e =
      let (a, mid, p, q) = >>=-eq-done bs e in omega (arith, hm bs a mid p, hf a mid b rest q)

  pub >>=-Yields {κ} :
      (P : A → Type κ) (Q : B → Type κ)
      → Yields P m
      → ((a : A) → P a → Yields Q (f a))
      → Yields Q (m >>= f)
  >>=-Yields P Q hm hf bs b rest hb e =
      let (a, mid, p, q) = >>=-eq-done bs e in
      let (pa, hmid) = hm bs a mid hb p in hf a pa mid b rest hmid q

  -- After a read that may leave too little, the rest must manage with any input.
  pub >>=-IsTotalFrom :
      (n : ℕ) → IsTotalFrom n m → ((a : A) → IsTotal (f a)) → IsTotalFrom n (m >>= f)
  >>=-IsTotalFrom n hm hf bs enough = go (m bs) refl
    where
      go :
          (r : Read A)
          → m bs ≡ r
          → (elim r [ done a mid ↦ f a mid | fail x mid ↦ fail x mid | abort ↦ abort ]) ≢ abort
      go (done a mid) p = hf a mid (omega arith)
      go (fail x mid) p = λ q. cc
      go abort p = λ q. hm bs enough p

module _ (n : ℕ) (e : ℕ → DecodeError) where
  pub require-IsLocal : IsLocal (require n e)
  require-IsLocal bs more a rest h = ground (arith, length-append bs more)

  pub require-Takes : Takes 0 (require n e)
  require-Takes bs a rest h = ground arith

  pub require-Yields : Yields (λ _. Unit {0}) (require n e)
  require-Yields bs a rest hb h = ground arith

  pub require-enough :
      {B : Type 0} (k : Reader B) (bs : List ℕ) → n ≤ length bs → (require n e >> k) bs ≡ k bs
  require-enough k bs h = ground arith

  pub require-IsTotal : {B : Type 0} (k : Reader B) → IsTotalFrom n k → IsTotal (require n e >> k)
  require-IsTotal k hk bs enough = ground (arith, hk bs)

module _ {A : Type 0} (a : A) where
  pub pure-IsLocal : IsLocal (pure a)
  pure-IsLocal bs more b rest h = ground arith

  pub pure-Takes : Takes 0 (pure a)
  pure-Takes bs b rest h = ground arith

  pub pure-IsTotal : IsTotal (pure a)
  pure-IsTotal bs enough h = cc

pub get_u8-IsLocal : IsLocal get_u8
get_u8-IsLocal [] more a rest h = absurd (cc)
get_u8-IsLocal (b ∷ bs) more a rest h = ground arith

pub get_u8-Takes : Takes 1 get_u8
get_u8-Takes [] a rest h = absurd (cc)
get_u8-Takes (b ∷ bs) a rest h = ground arith

pub get_u8-Yields : Yields IsByte get_u8
get_u8-Yields [] a rest hb h = absurd (cc)
get_u8-Yields (b ∷ bs) a rest hb h = ground arith

pub get_u8-IsTotalFrom : IsTotalFrom 1 get_u8
get_u8-IsTotalFrom [] enough h = absurd (omega arith)
get_u8-IsTotalFrom (b ∷ bs) enough h = cc

module _ (n : ℕ) where
  pub copy_to_bytes-eq-done :
      (bs a rest : List ℕ)
      → copy_to_bytes n bs ≡ done a rest
      → (a ≡ take n bs) × (rest ≡ drop n bs) × (n ≤ length bs)
  copy_to_bytes-eq-done bs a rest h = ground arith

  -- What was put in front is read back.
  pub copy_to_bytes-append :
      (xs ys : List ℕ) → length xs ≡ n → copy_to_bytes n (xs ++ ys) ≡ done xs ys
  copy_to_bytes-append xs ys e =
      ground (arith, length-append xs ys, take-append xs ys, drop-append xs ys)

  pub copy_to_bytes-IsLocal : IsLocal (copy_to_bytes n)
  copy_to_bytes-IsLocal bs more a rest h =
      ground (arith, length-append bs more, take-append_le n bs more, drop-append_le n bs more)

  pub copy_to_bytes-Takes : Takes n (copy_to_bytes n)
  copy_to_bytes-Takes bs a rest h = ground (arith, length-drop n bs)

  pub copy_to_bytes-Yields : Yields (λ a. All IsByte a × (length a ≡ n)) (copy_to_bytes n)
  copy_to_bytes-Yields bs a rest hb h =
      let (ea, er, le) = copy_to_bytes-eq-done bs a rest h in
      rw (ea, er)
        ((All-take IsByte n bs hb, omega (arith, length-take n bs)), All-drop IsByte n bs hb)

  pub copy_to_bytes-IsTotalFrom : IsTotalFrom n (copy_to_bytes n)
  copy_to_bytes-IsTotalFrom bs enough = ground arith

module _ (c : Bool) (e : DecodeError) where
  pub check-IsLocal : IsLocal (check c e)
  check-IsLocal bs more a rest h = ground arith

  pub check-Takes : Takes 0 (check c e)
  check-Takes bs a rest h = ground arith

  pub check-IsTotal : IsTotal (check c e)
  check-IsTotal bs enough = ground arith

  pub check-Yields : Yields (λ _. c ≡ true) (check c e)
  check-Yields bs a rest hb h = ground arith

module _ {A : Type 0} where
  pub throw-IsLocal : (e : DecodeError) → IsLocal (throw {A = A} e)
  throw-IsLocal e bs more a rest h = absurd (cc)

  pub throw-Takes : (n : ℕ) (e : DecodeError) → Takes n (throw {A = A} e)
  throw-Takes n e bs a rest h = absurd (cc)

  pub throw-IsTotal : (e : DecodeError) → IsTotal (throw {A = A} e)
  throw-IsTotal e bs enough h = cc

  pub lift-IsLocal : (r : Result DecodeError A) → IsLocal (lift r)
  lift-IsLocal (ok x) bs more a rest h = ground arith
  lift-IsLocal (err e) bs more a rest h = absurd (cc)
  lift-IsLocal panic bs more a rest h = absurd (cc)

  pub lift-Takes : (r : Result DecodeError A) → Takes 0 (lift r)
  lift-Takes (ok x) bs a rest h = ground arith
  lift-Takes (err e) bs a rest h = absurd (cc)
  lift-Takes panic bs a rest h = absurd (cc)

  pub lift-IsTotal : (r : Result DecodeError A) → r ≢ panic → IsTotal (lift r)
  lift-IsTotal (ok x) np bs enough h = cc
  lift-IsTotal (err e) np bs enough h = cc
  lift-IsTotal panic np bs enough h = np refl

  pub if-IsLocal :
      (c : Bool) (m k : Reader A) → IsLocal m → IsLocal k → IsLocal (if c then m else k)
  if-IsLocal true m k hm hk = hm
  if-IsLocal false m k hm hk = hk

  pub if-Takes :
      (n : ℕ) (c : Bool) (m k : Reader A) → Takes n m → Takes n k → Takes n (if c then m else k)
  if-Takes n true m k hm hk = hm
  if-Takes n false m k hm hk = hk

  pub if-IsTotal :
      (c : Bool) (m k : Reader A) → IsTotal m → IsTotal k → IsTotal (if c then m else k)
  if-IsTotal true m k hm hk = hm
  if-IsTotal false m k hm hk = hk

  pub if-Yields {κ} :
      (P : A → Type κ) (c : Bool) (m k : Reader A)
      → (c ≡ true → Yields P m)
      → (c ≡ false → Yields P k)
      → Yields P (if c then m else k)
  if-Yields P true m k hm hk = hm refl
  if-Yields P false m k hm hk = hk refl

  pub pure-Yields {κ} : (P : A → Type κ) (a : A) → P a → Yields P (pure a)
  pure-Yields P a pa bs b rest hb h =
      let e : a ≡ b = ground arith in
      let er : bs ≡ rest = ground arith in (subst P e pa, subst (All IsByte) er hb)

  pub throw-Yields {κ} : (P : A → Type κ) (e : DecodeError) → Yields P (throw {A = A} e)
  throw-Yields P e bs a rest hb h = absurd (cc)

  pub lift-Yields {κ} :
      (P : A → Type κ) (r : Result DecodeError A) → ((a : A) → r ≡ ok a → P a) → Yields P (lift r)
  lift-Yields P (ok x) hp bs a rest hb h = pure-Yields P x (hp x refl) bs a rest hb h
  lift-Yields P (err e) hp bs a rest hb h = absurd (cc)
  lift-Yields P panic hp bs a rest hb h = absurd (cc)

  pub Takes-less : (n k : ℕ) (m : Reader A) → k ≤ n → Takes n m → Takes k m
  Takes-less n k m le h bs a rest e = omega (arith, h bs a rest e)
