-- ===== src/Capsule/Ranges/Laws.antt =====
-- Merging the ranges of src/capsule/mod.rs neither loses nor adds a packet.
use straw.Common.{
  ℕ, ◌⊎◌, ◌≤◌, ◌<◌, ◌≡◌, refl, ◌∙◌, List, [], ◌∷◌, Bool, true, false, Bool-cases, inl, inr, ◌||◌,
  ◌==◌, any, All, arith, Ordering, insert_by, sort_by, is_gt, is_lt,
}
use straw.Ip.{IpAddr, v4, v6}
use straw.Capsule.{IpAddressRange}
use straw.Capsule.Address.{version_of}
use straw.Capsule.Route.{derived_cmp, ip_cmp}
use straw.Capsule.Ranges.{ip_key, contains, joins, extended, merge_from, merge_sorted, merge_ranges}

-- Some range of the list takes the packet in.
abbrev pub any_contains : List IpAddressRange → IpAddr → ℕ → Bool
any_contains ranges addr proto = any (λ r. contains r addr proto) ranges

-- The order of the sort, as far as merging needs it: within a version, the starts do not fall.
abbrev Follows : IpAddressRange → IpAddressRange → Type 0
Follows a b =
    (a.ip_version < b.ip_version)
    ⊎ ((a.ip_version ≡ b.ip_version) × (ip_key a.start_ip ≤ ip_key b.start_ip))

abbrev Chain : IpAddressRange → List IpAddressRange → Type 0
Chain a [] = Unit {0}
Chain a (b ∷ rest) = Follows a b × Chain b rest

module _ (addr : IpAddr) (proto : ℕ) where
  contains-extended :
      (last range : IpAddressRange)
      → Follows last range
      → joins last range ≡ true
      → contains (extended last range) addr proto
        ≡ contains last addr proto || contains range addr proto
  unfolding contains joins extended
  contains-extended last range f j = ground arith

  extended-Chain :
      (last range : IpAddressRange) (rest : List IpAddressRange)
      → joins last range ≡ true
      → Follows last range
      → Chain range rest
      → Chain (extended last range) rest
  unfolding joins extended
  extended-Chain last range [] j f c = tt
  extended-Chain last range (next ∷ rest) j f (g, c) = (ground arith, c)

  merge_from_any :
      (last : IpAddressRange) (rest : List IpAddressRange)
      → Chain last rest
      → any_contains (merge_from last rest) addr proto ≡ any_contains (last ∷ rest) addr proto
  unfolding merge_from
  merge_from_any last [] c = refl
  merge_from_any last (range ∷ rest) (f, c) = elim (Bool-cases (joins last range)) [
    | inl j ↦
        let more =
          merge_from_any (extended last range) rest (extended-Chain last range rest j f c) in
        ground (arith, j, more, contains-extended last range f j)
    | inr j ↦ ground (arith, j, merge_from_any range rest c)
  ]

  insert_any :
      (x : IpAddressRange) (xs : List IpAddressRange)
      → any_contains (insert_by derived_cmp x xs) addr proto ≡ any_contains (x ∷ xs) addr proto
  unfolding insert_by
  insert_any x [] = refl
  insert_any x (y ∷ ys) = ground (arith, insert_any x ys)

  sort_any :
      (xs : List IpAddressRange)
      → any_contains (sort_by derived_cmp xs) addr proto ≡ any_contains xs addr proto
  unfolding sort_by
  sort_any [] = refl
  sort_any (x ∷ xs) = ground (arith, sort_any xs, insert_any x (sort_by derived_cmp xs))

-- A range whose version is its start's family.
abbrev pub IsTagged : IpAddressRange → Type 0
IsTagged r = version_of r.start_ip ≡ r.ip_version

start_order :
    (a b : IpAddr)
    → version_of a ≡ version_of b
    → (is_lt (ip_cmp a b) ≡ false → ip_key b ≤ ip_key a)
      × (is_gt (ip_cmp a b) ≡ false → ip_key a ≤ ip_key b)
start_order (v4 a) (v4 b) e = ground arith
start_order (v4 a) (v6 b) e = absurd (omega arith)
start_order (v6 a) (v4 b) e = absurd (omega arith)
start_order (v6 a) (v6 b) e = ground arith

Follows-of :
    (a b : IpAddressRange) → IsTagged a → IsTagged b → is_gt (derived_cmp a b) ≡ false → Follows a b
Follows-of a b ta tb h = elim (Bool-cases (a.ip_version == b.ip_version)) [
  | inl e ↦
      let same : version_of a.start_ip ≡ version_of b.start_ip = ground arith in
      let o = (start_order a.start_ip b.start_ip same).1 in inr (ground arith, o (ground arith))
  | inr e ↦ inl (ground arith)
]

Follows-back :
    (a b : IpAddressRange) → IsTagged a → IsTagged b → is_gt (derived_cmp a b) ≡ true → Follows b a
Follows-back a b ta tb h = elim (Bool-cases (a.ip_version == b.ip_version)) [
  | inl e ↦
      let same : version_of a.start_ip ≡ version_of b.start_ip = ground arith in
      let o = (start_order a.start_ip b.start_ip same).0 in inr (ground arith, o (ground arith))
  | inr e ↦ inl (ground arith)
]

-- The list is in the order of the sort.
abbrev Ordered : List IpAddressRange → Type 0
Ordered [] = Unit {0}
Ordered (a ∷ xs) = Chain a xs

insert_gt :
    (x y : IpAddressRange) (ys : List IpAddressRange)
    → is_gt (derived_cmp x y) ≡ true
    → insert_by derived_cmp x (y ∷ ys) ≡ y ∷ insert_by derived_cmp x ys
unfolding insert_by
insert_gt x y ys h = gt_case (derived_cmp x y) h
  where
    gt_case :
        (o : Ordering)
        → is_gt o ≡ true
        → ◌≡◌ {A = List IpAddressRange}
            (elim o [ Ordering.gt ↦ y ∷ insert_by derived_cmp x ys | _ ↦ x ∷ y ∷ ys ])
            (y ∷ insert_by derived_cmp x ys)
    gt_case Ordering.lt h = absurd (cc)
    gt_case Ordering.eq h = absurd (cc)
    gt_case Ordering.gt h = refl

insert_le :
    (x y : IpAddressRange) (ys : List IpAddressRange)
    → is_gt (derived_cmp x y) ≡ false
    → insert_by derived_cmp x (y ∷ ys) ≡ x ∷ y ∷ ys
unfolding insert_by
insert_le x y ys h = le_case (derived_cmp x y) h
  where
    le_case :
        (o : Ordering)
        → is_gt o ≡ false
        → ◌≡◌ {A = List IpAddressRange}
            (elim o [ Ordering.gt ↦ y ∷ insert_by derived_cmp x ys | _ ↦ x ∷ y ∷ ys ])
            (x ∷ y ∷ ys)
    le_case Ordering.lt h = refl
    le_case Ordering.eq h = refl
    le_case Ordering.gt h = absurd (cc)

insert-Chain :
    (a x : IpAddressRange) (xs : List IpAddressRange)
    → Follows a x
    → IsTagged x
    → All IsTagged xs
    → Chain a xs
    → Chain a (insert_by derived_cmp x xs)
unfolding insert_by
insert-Chain a x [] f t ts c = (f, tt)
insert-Chain a x (y ∷ ys) f t (ty, ts) (g, c) = elim (Bool-cases (is_gt (derived_cmp x y))) [
  | inl gt ↦ rw (insert_gt x y ys gt) (g, insert-Chain y x ys (Follows-back x y t ty gt) t ts c)
  | inr le ↦ rw (insert_le x y ys le) (f, (Follows-of x y t ty le, c))
]

insert-Ordered :
    (x : IpAddressRange) (xs : List IpAddressRange)
    → IsTagged x
    → All IsTagged xs
    → Ordered xs
    → Ordered (insert_by derived_cmp x xs)
unfolding insert_by
insert-Ordered x [] t ts c = tt
insert-Ordered x (y ∷ ys) t (ty, ts) c = elim (Bool-cases (is_gt (derived_cmp x y))) [
  | inl gt ↦ rw (insert_gt x y ys gt) (insert-Chain y x ys (Follows-back x y t ty gt) t ts c)
  | inr le ↦ rw (insert_le x y ys le) (Follows-of x y t ty le, c)
]

insert-IsTagged :
    (x : IpAddressRange) (xs : List IpAddressRange)
    → IsTagged x
    → All IsTagged xs
    → All IsTagged (insert_by derived_cmp x xs)
unfolding insert_by
insert-IsTagged x [] t ts = (t, tt)
insert-IsTagged x (y ∷ ys) t (ty, ts) = elim (Bool-cases (is_gt (derived_cmp x y))) [
  | inl gt ↦ rw (insert_gt x y ys gt) (ty, insert-IsTagged x ys t ts)
  | inr le ↦ rw (insert_le x y ys le) (t, (ty, ts))
]

sort-Ordered :
    (xs : List IpAddressRange)
    → All IsTagged xs
    → All IsTagged (sort_by derived_cmp xs) × Ordered (sort_by derived_cmp xs)
unfolding sort_by
sort-Ordered [] ts = (tt, tt)
sort-Ordered (x ∷ xs) (t, ts) =
    let (us, o) = sort-Ordered xs ts in
    (
      insert-IsTagged x (sort_by derived_cmp xs) t us,
      insert-Ordered x (sort_by derived_cmp xs) t us o,
    )

merge_sorted_any :
    (addr : IpAddr) (proto : ℕ) (xs : List IpAddressRange)
    → Ordered xs
    → any_contains (merge_sorted xs) addr proto ≡ any_contains xs addr proto
unfolding merge_sorted
merge_sorted_any addr proto [] o = refl
merge_sorted_any addr proto (x ∷ xs) o = merge_from_any addr proto x xs o

-- Of ranges whose version is their start's family, the merged ones take in a packet exactly if one
-- of the given ones does.
pub merge_ranges_lem :
    (ranges : List IpAddressRange) (addr : IpAddr) (proto : ℕ)
    → All IsTagged ranges
    → any_contains (merge_ranges ranges) addr proto ≡ any_contains ranges addr proto
unfolding merge_ranges
merge_ranges_lem ranges addr proto ts =
    merge_sorted_any addr proto (sort_by derived_cmp ranges) (sort-Ordered ranges ts).1
    ∙ sort_any addr proto ranges
