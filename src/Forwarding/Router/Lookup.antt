-- ===== src/Forwarding/Router/Lookup.antt =====
-- What `lookup` of src/forwarding/router.rs finds.
use straw.Common.{
  ℕ, ◌≤◌, ◌<◌, ◌≡◌, ◌⊎◌, inl, inr, refl, ap, List, [], ◌∷◌, ◌++◌, Bool, true, false, ltb, filter,
  All, Option, none, some, Option-cases, Bool-cases, arith,
}
use straw.Ip.{IpAddr}
use straw.Ip.Nets.{IpNets}
use straw.Ip.Table.{find}
use straw.Forwarding.Router.{max_from, max_by_key, RouteEntry, RouteTable, is_match, lookup}

-- `x` is the last of the elements of `xs` that pass `p` whose key is the largest.
pub record IsLast {A : Type 0} (p : A → Bool) (key : A → ℕ) (xs : List A) (x : A) : Type 0 where
  pub before : List A
  pub after : List A
  pub split : xs ≡ before ++ x ∷ after
  pub passes : p x ≡ true
  pub largest : All (λ y. (p y ≡ false) ⊎ (key y ≤ key x)) before
  pub last : All (λ y. (p y ≡ false) ⊎ (key y < key x)) after

module _ {A : Type 0} (p : A → Bool) (key : A → ℕ) where
  behind :
      (y x : A) (ys : List A)
      → (p y ≡ false) ⊎ (key y ≤ key x)
      → IsLast p key ys x
      → IsLast p key (y ∷ ys) x
  behind y x ys h l = record {
    before = y ∷ l.before;
    after = l.after;
    split = ap (λ t. y ∷ t) l.split;
    passes = l.passes;
    largest = (h, l.largest);
    last = l.last;
  }

  -- The best so far wins, or what the rest has.
  Wins : A → List A → A → Type 0
  Wins best xs x =
      ((x ≡ best) × All (λ y. (p y ≡ false) ⊎ (key y < key best)) xs)
      ⊎ (IsLast p key xs x × (key best ≤ key x))

  winning :
      (best y x : A) (ys : List A)
      → p y ≡ true
      → key best ≤ key y
      → Wins y ys x
      → Wins best (y ∷ ys) x
  unfolding Wins
  winning best y x ys passes h (inl (e, below)) = inr (
    rw e (record {
      before = [];
      after = ys;
      split = refl;
      passes = passes;
      largest = tt;
      last = below;
    }),
    rw e h,
  )
  winning best y x ys passes h (inr (l, le)) = inr (behind y x ys (inr le) l, omega arith)

  passing :
      (best y x : A) (ys : List A)
      → (p y ≡ false) ⊎ (key y < key best)
      → Wins best ys x
      → Wins best (y ∷ ys) x
  unfolding Wins
  passing best y x ys h (inl (e, below)) = inl (e, (h, below))
  passing best y x ys (inl h) (inr (l, le)) = inr (behind y x ys (inl h) l, le)
  passing best y x ys (inr h) (inr (l, le)) = inr (behind y x ys (inr (omega arith)) l, le)

  max_from-Wins : (best : A) (xs : List A) → Wins best xs (max_from key best (filter p xs))
  unfolding max_from
  max_from-Wins best [] = unfold Wins in inl (refl, tt)
  max_from-Wins best (y ∷ ys) = elim (Bool-cases (p y)) [
    | inr fail ↦ rw fail (passing best y _ ys (inl fail) (max_from-Wins best ys))
    | inl pass ↦ elim (Bool-cases (ltb (key y) (key best))) [
      | inl less ↦
          rw (pass, less, max_from)
            (passing best y _ ys (inr (ground arith)) (max_from-Wins best ys))
      | inr more ↦
          rw (pass, more, max_from) (winning best y _ ys pass (ground arith) (max_from-Wins y ys))
    ]
  ]

  -- `max_by_key` behind `filter`: none passes, or the last of the largest.
  pub Found : List A → Option A → Type 0
  Found xs none = All (λ y. p y ≡ false) xs
  Found xs (some x) = IsLast p key xs x

  Found-skip : (y : A) (ys : List A) (o : Option A) → p y ≡ false → Found ys o → Found (y ∷ ys) o
  unfolding Found
  Found-skip y ys none fail h = (fail, h)
  Found-skip y ys (some x) fail h = behind y x ys (inl fail) h

  Found-first : (y x : A) (ys : List A) → p y ≡ true → Wins y ys x → IsLast p key (y ∷ ys) x
  unfolding Wins
  Found-first y x ys pass (inl (e, below)) =
      rw e (record {
        before = [];
        after = ys;
        split = refl;
        passes = pass;
        largest = tt;
        last = below;
      })
  Found-first y x ys pass (inr (l, le)) = behind y x ys (inr le) l

  pub max_by_key-Found : (xs : List A) → Found xs (max_by_key key (filter p xs))
  unfolding max_by_key Found
  max_by_key-Found [] = tt
  max_by_key-Found (y ∷ ys) = elim (Bool-cases (p y)) [
    | inr fail ↦ rw fail (Found-skip y ys _ fail (max_by_key-Found ys))
    | inl pass ↦ rw pass (Found-first y _ ys pass (max_from-Wins y ys))
  ]

module _ (nets : IpNets) where
  -- What a look-up may answer: the session of the client address; without one, the session of the last
  -- of the matching routes with the longest prefix; none where no route matches.
  pub data Answer (self : RouteTable nets) (dst : IpAddr) (proto : ℕ) : Option ℕ → Type 0 where
    by_client :
        (session : ℕ)
        → find self.client_addrs dst ≡ some session
        → Answer self dst proto (some session)
    by_route :
        (r : RouteEntry nets)
        → find self.client_addrs dst ≡ none
        → IsLast (is_match nets dst proto) (λ q. nets.prefix_len q.prefix) self.routes r
        → Answer self dst proto (some r.session_id)
    no_match :
        find self.client_addrs dst ≡ none
        → All (λ q. is_match nets dst proto q ≡ false) self.routes
        → Answer self dst proto none

  lookup-client :
      (self : RouteTable nets) (dst : IpAddr) (proto session : ℕ)
      → find self.client_addrs dst ≡ some session
      → lookup nets self dst proto ≡ some session
  unfolding lookup
  lookup-client self dst proto session e = rw (e, lookup) refl

  lookup-none :
      (self : RouteTable nets) (dst : IpAddr) (proto : ℕ)
      → find self.client_addrs dst ≡ none
      → max_by_key (λ q. nets.prefix_len q.prefix) (filter (is_match nets dst proto) self.routes)
        ≡ none
      → lookup nets self dst proto ≡ none
  unfolding lookup
  lookup-none self dst proto e e' = rw (e, e', lookup) refl

  lookup-route :
      (self : RouteTable nets) (dst : IpAddr) (proto : ℕ) (r : RouteEntry nets)
      → find self.client_addrs dst ≡ none
      → max_by_key (λ q. nets.prefix_len q.prefix) (filter (is_match nets dst proto) self.routes)
        ≡ some r
      → lookup nets self dst proto ≡ some r.session_id
  unfolding lookup
  lookup-route self dst proto r e e' = rw (e, e', lookup) refl

  -- The session that `lookup` answers with is that of the client address where the table has the
  -- destination; else that of the matching route with the longest prefix, the last of them where several
  -- are as long; and it answers none just where neither is there.
  pub lookup-Answer :
      (self : RouteTable nets) (dst : IpAddr) (proto : ℕ)
      → Answer self dst proto (lookup nets self dst proto)
  unfolding Found
  lookup-Answer self dst proto =
      let found =
        max_by_key-Found (is_match nets dst proto) (λ q. nets.prefix_len q.prefix) self.routes in
      elim (Option-cases (find self.client_addrs dst)) [
        | inr (session, e) ↦ rw (lookup-client self dst proto session e) (by_client session e)
        | inl e ↦
            elim (Option-cases (
              max_by_key (λ q. nets.prefix_len q.prefix)
                (filter (is_match nets dst proto) self.routes))) [
                  | inl e' ↦ rw (lookup-none self dst proto e e') (no_match e (rw e' at found))
                  | inr (r, e') ↦
                      rw (lookup-route self dst proto r e e') (by_route r e (rw e' at found))
                ]
      ]
