-- ===== src/Ip/Table.antt =====
-- Maps from addresses: `DashMap<IpAddr, _>` as an association list, each key once.
use straw.Common.{
  ◌≡◌, ◌≢◌, refl, sym, ap, ◌∙◌, inl, inr, List, [], ◌∷◌, Bool, true, false, Bool-cases,
  if◌then◌else◌, Option, none, some, arith,
}
use straw.Ip.{IpAddr, v4, v6, same_ip}

pub same_ip_sound : (a b : IpAddr) → same_ip a b ≡ true → a ≡ b
unfolding same_ip
same_ip_sound (v4 a) (v4 b) e = ap v4 (ground arith)
same_ip_sound (v4 a) (v6 b) e = absurd (ground arith)
same_ip_sound (v6 a) (v4 b) e = absurd (ground arith)
same_ip_sound (v6 a) (v6 b) e = ap v6 (ground arith)

pub same_ip_self : (a : IpAddr) → same_ip a a ≡ true
unfolding same_ip
same_ip_self (v4 a) = ground arith
same_ip_self (v6 a) = ground arith

module _ {V : Type 0} where
  unfoldable pub find : List (IpAddr × V) → IpAddr → Option V
  find [] a = none
  find ((b, v) ∷ m) a = if same_ip b a then some v else find m a

  unfoldable pub erase_ip : List (IpAddr × V) → IpAddr → List (IpAddr × V)
  erase_ip [] a = []
  erase_ip ((b, v) ∷ m) a = let rest = erase_ip m a in if same_ip b a then rest else (b, v) ∷ rest

  unfoldable pub insert_ip : List (IpAddr × V) → IpAddr → V → List (IpAddr × V)
  unfolding erase_ip
  insert_ip m a v = (a, v) ∷ erase_ip m a

  -- `retain(|_, v| keep(v))`
  unfoldable pub retain_ip : (V → Bool) → List (IpAddr × V) → List (IpAddr × V)
  retain_ip keep [] = []
  retain_ip keep ((b, v) ∷ m) =
      let rest = retain_ip keep m in if keep v then (b, v) ∷ rest else rest

  pub find-erase_ip : (m : List (IpAddr × V)) (a : IpAddr) → find (erase_ip m a) a ≡ none
  unfolding find erase_ip
  find-erase_ip [] a = refl
  find-erase_ip ((b, v) ∷ m) a = ground (arith, find-erase_ip m a)

  pub find-erase_ip_other :
      (m : List (IpAddr × V)) (a b : IpAddr) → b ≢ a → find (erase_ip m a) b ≡ find m b
  unfolding find erase_ip
  find-erase_ip_other [] a b h = refl
  find-erase_ip_other ((c, v) ∷ m) a b h = elim (Bool-cases (same_ip c a)) [
    | inl e ↦
        let other : same_ip c b ≡ false = elim (Bool-cases (same_ip c b)) [
          | inl f ↦ absurd (h (sym (same_ip_sound c b f) ∙ same_ip_sound c a e))
          | inr f ↦ f
        ] in
        rw (e, other) (find-erase_ip_other m a b h)
    | inr e ↦ rw e (ground (arith, find-erase_ip_other m a b h))
  ]

  pub find-insert_ip :
      (m : List (IpAddr × V)) (a : IpAddr) (v : V) → find (insert_ip m a v) a ≡ some v
  unfolding find insert_ip
  find-insert_ip m a v = ground (arith, same_ip_self a)

  pub find-insert_ip_other :
      (m : List (IpAddr × V)) (a : IpAddr) (v : V) (b : IpAddr)
      → b ≢ a
      → find (insert_ip m a v) b ≡ find m b
  unfolding find insert_ip
  find-insert_ip_other m a v b h = elim (Bool-cases (same_ip a b)) [
    | inl e ↦ absurd (h (sym (same_ip_sound a b e)))
    | inr e ↦ rw e (find-erase_ip_other m a b h)
  ]
