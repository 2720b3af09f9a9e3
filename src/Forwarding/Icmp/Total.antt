-- ===== src/Forwarding/Icmp/Total.antt =====
-- The functions of src/forwarding/icmp.rs answer, with or without an error, and do not panic.
use straw.Common.{
  ℕ, ◌≡◌, ◌≢◌, refl, List, [], ◌∷◌, Bool, true, ◌==◌, Option, none, some, inl, inr, ◌⊎◌, Result, ok,
  ◌/◌, false, if◌then◌else◌, err, panic, arith,
}
use straw.Error.{ForwardingError}
use straw.Forwarding.Icmp.{
  IcmpErrorKind, IcmpSource, build_v4_error, build_v6_error, build_icmp_error,
}

build_v4_error_total :
    (kind : IcmpErrorKind) (gateway : ℕ) (o : List ℕ) → build_v4_error kind gateway o ≢ panic
unfolding build_v4_error
build_v4_error_total kind gateway o h = ground (arith, h)

build_v6_error_total :
    (kind : IcmpErrorKind) (gateway : ℕ) (o : List ℕ) → build_v6_error kind gateway o ≢ panic
unfolding build_v6_error
build_v6_error_total kind gateway o h = ground (arith, h)

build_v4_error_accepts :
    (kind : IcmpErrorKind) (gateway : ℕ) (o : List ℕ) (e : ForwardingError)
    → build_v4_error kind gateway o ≢ err e
unfolding build_v4_error
build_v4_error_accepts kind gateway o e h = ground (arith, h)

build_v6_error_accepts :
    (kind : IcmpErrorKind) (gateway : ℕ) (o : List ℕ) (e : ForwardingError)
    → build_v6_error kind gateway o ≢ err e
unfolding build_v6_error
build_v6_error_accepts kind gateway o e h = ground (arith, h)

-- An answer, with or without an error.
unfoldable IsReply : Result ForwardingError (Option (List ℕ)) → Type 0
IsReply r = (r ≡ ok none) ⊎ ((error : List ℕ) × (r ≡ ok (some error)))

IsReply-ok :
    (r : Result ForwardingError (Option (List ℕ)))
    → r ≢ panic
    → ((e : ForwardingError) → r ≢ err e)
    → IsReply r
unfolding IsReply
IsReply-ok (ok none) hp he = inl refl
IsReply-ok (ok (some error)) hp he = inr (error, refl)
IsReply-ok (err e) hp he = absurd (he e refl)
IsReply-ok panic hp he = absurd (hp refl)

IsReply-none : IsReply (ok none)
unfolding IsReply
IsReply-none = inl refl

IsReply-if :
    (b : Bool) (r s : Result ForwardingError (Option (List ℕ)))
    → IsReply r
    → IsReply s
    → IsReply (if b then r else s)
IsReply-if true r s hr hs = hr
IsReply-if false r s hr hs = hs

IsReply-v6 :
    (kind : IcmpErrorKind) (gateway : Option ℕ) (o : List ℕ)
    → IsReply (elim gateway [ none ↦ ok none | some g ↦ build_v6_error kind g o ])
IsReply-v6 kind none o = IsReply-none
IsReply-v6 kind (some g) o =
    IsReply-ok (build_v6_error kind g o) (build_v6_error_total kind g o)
      (build_v6_error_accepts kind g o)

build_icmp_error-IsReply :
    (kind : IcmpErrorKind) (source : IcmpSource) (o : List ℕ)
    → IsReply (build_icmp_error kind source o)
unfolding build_icmp_error
build_icmp_error-IsReply kind source [] = IsReply-none
build_icmp_error-IsReply kind source (x ∷ rest) =
    IsReply-if (x / 16 == 4) _ _
      (IsReply-ok (build_v4_error kind source.v4_addr (x ∷ rest))
        (build_v4_error_total kind source.v4_addr (x ∷ rest))
        (build_v4_error_accepts kind source.v4_addr (x ∷ rest)))
      (IsReply-if (x / 16 == 6) _ _ (IsReply-v6 kind source.v6_addr (x ∷ rest)) (IsReply-none))

pub build_icmp_error-cases :
    (kind : IcmpErrorKind) (source : IcmpSource) (o : List ℕ)
    → (build_icmp_error kind source o ≡ ok none)
      ⊎ ((error : List ℕ) × (build_icmp_error kind source o ≡ ok (some error)))
unfolding IsReply
build_icmp_error-cases kind source o = build_icmp_error-IsReply kind source o
