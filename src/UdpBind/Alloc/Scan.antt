-- ===== src/UdpBind/Alloc/Scan.antt =====
-- What the scans of src/udp_bind/alloc.rs find: a free pool address, or that all are taken.
use native.Mathlib.Nat.{mod-eq_of_lt, mod-eq-sub-mod, mod-lt}
use mathlib.Core.Path.{subst}
use straw.Common.{
  ap, ◌∙◌, ℕ, zero, suc, ◌+◌, ◌-◌, ◌%◌, ◌≤◌, ◌<◌, ◌≡◌, refl, List, true, false, Bool-cases, inl,
  inr, Option, none, some, if◌then◌else◌, Result, ok, err, panic, length, get_elem?,
  get_elem?-inside, get_elem?_lt, arith, leb, ◌==◌,
}
use straw.Ip.{IpAddr}
use straw.Ip.Socket.{SocketAddr, contains}
use straw.UdpBind.Alloc.{AllocError, next_port, scan_ips}

abbrev address : IpAddr → ℕ → SocketAddr
address ip port = record { ip = ip; port = port }

-- The pool's address at place `i`, if there is one, is in use at `port`.
abbrev pub IsTaken : List IpAddr → List SocketAddr → ℕ → ℕ → Type 0
IsTaken ips in_use port i =
    (ip : IpAddr) → get_elem? ips i ≡ some ip → contains in_use (address ip port) ≡ true

-- The candidate is the pool's address at place `idx`, and free.
pub record IsFree (ips : List IpAddr) (in_use : List SocketAddr) (port idx : ℕ) (c : SocketAddr)
    : Type 0 where
  pub place : get_elem? ips idx ≡ some c.ip
  pub at_port : c.port ≡ port
  pub fresh : contains in_use c ≡ false

abbrev pub Scanned :
    List IpAddr
    → List SocketAddr
    → ℕ
    → ℕ
    → ℕ
    → ℕ
    → Result AllocError (Option (ℕ × SocketAddr))
    → Type 0
Scanned ips in_use start port rounds k (ok none) =
    (j : ℕ) → k ≤ j → j < k + rounds → IsTaken ips in_use port ((start + j) % length ips)
Scanned ips in_use start port rounds k (ok (some (idx, c))) = IsFree ips in_use port idx c
Scanned ips in_use start port rounds k (err e) = ⊥
Scanned ips in_use start port rounds k panic = ⊥

module _ (ips : List IpAddr) (in_use : List SocketAddr) (start port : ℕ) where
  Scanned-more :
      (rounds k : ℕ) (r : Result AllocError (Option (ℕ × SocketAddr)))
      → IsTaken ips in_use port ((start + k) % length ips)
      → Scanned ips in_use start port rounds (suc k) r
      → Scanned ips in_use start port (suc rounds) k r
  Scanned-more rounds k (ok none) ht h = λ j hj lt. elim (Bool-cases (j == k)) [
    | inl e ↦
        let same : k ≡ j = ground arith in
        subst (λ j. IsTaken ips in_use port ((start + j) % length ips)) same ht
    | inr e ↦ h j (ground arith) (omega arith)
  ]
  Scanned-more rounds k (ok (some (idx, c))) ht h = h
  Scanned-more rounds k (err e) ht h = h
  Scanned-more rounds k panic ht h = h

  pub scan_ips-Scanned :
      (rounds k : ℕ)
      → 0 < length ips
      → Scanned ips in_use start port rounds k (scan_ips ips in_use start port rounds k)
  unfolding scan_ips
  scan_ips-Scanned zero k h = λ j hj lt. absurd (omega arith)
  scan_ips-Scanned (suc rounds) k h =
      let rest = scan_ips-Scanned rounds (suc k) h in
      let (ip, e) = get_elem?-inside ips ((start + k) % length ips) (mod-lt (start + k) h) in
      elim (Bool-cases (contains in_use (address ip port))) [
        | inl used ↦ rw (e, used, scan_ips) (Scanned-more rounds k _ (λ ip' e'. cc) rest)
        | inr free ↦ rw (e, free, scan_ips) (record { place = e; at_port = refl; fresh = free })
      ]

-- The places that a scan visits are all.
place_of : (start n i : ℕ) → start < n → i < n → (j : ℕ) × (j < n) × ((start + j) % n ≡ i)
place_of start n i hs hi = elim (Bool-cases (leb start i)) [
  | inl h ↦ (i - start, ground arith, ap (λ m. m % n) (ground arith) ∙ mod-eq_of_lt hi)
  | inr h ↦ (
    i + n - start,
    ground arith,
    ap (λ m. m % n) (ground arith)
        ∙ mod-eq-sub-mod {n = i + n} (omega arith)
        ∙ ap (λ m. m % n) (omega arith)
        ∙ mod-eq_of_lt hi,
  )
]

-- A pool address at `port` that is not in use.
abbrev pub IsFull : List IpAddr → List SocketAddr → ℕ → Type 0
IsFull ips in_use port = (i : ℕ) → IsTaken ips in_use port i

pub Scanned-IsFull :
    (ips : List IpAddr) (in_use : List SocketAddr) (start port : ℕ)
    → start < length ips
    → Scanned ips in_use start port (length ips) 0 (ok none)
    → IsFull ips in_use port
Scanned-IsFull ips in_use start port hs h i ip e =
    let (j, lt, same) = place_of start (length ips) i hs (get_elem?_lt ips i ip e) in
    h j (omega arith) (omega arith) ip (ap (get_elem? ips) same ∙ e)

-- The port that the cursor reaches after `j` ports.
abbrev pub port_after : ℕ → ℕ → ℕ → ℕ → ℕ
port_after lo hi port zero = port
port_after lo hi port (suc j) = port_after lo hi (next_port port lo hi) j

port_after_sum :
    (lo hi port j : ℕ)
    → lo ≤ port
    → port ≤ hi
    → j ≤ hi - lo
    → port_after lo hi port j ≡ (if leb (port + j) hi then port + j else port + j - (hi - lo + 1))
unfolding next_port
port_after_sum lo hi port zero hl hh hj = ground arith
port_after_sum lo hi port (suc j) hl hh hj =
    ground (arith, port_after_sum lo hi (next_port port lo hi) j)

-- The ports that a scan visits are all.
pub round_of :
    (lo hi port q : ℕ)
    → lo ≤ port
    → port ≤ hi
    → lo ≤ q
    → q ≤ hi
    → (j : ℕ) × (j < hi - lo + 1) × (port_after lo hi port j ≡ q)
round_of lo hi port q hl hh ql qh = elim (Bool-cases (leb port q)) [
  | inl h ↦ (
    q - port,
    ground arith,
    port_after_sum lo hi port (q - port) hl hh (ground arith) ∙ ground arith,
  )
  | inr h ↦ (
    q + (hi - lo + 1) - port,
    ground arith,
    port_after_sum lo hi port (q + (hi - lo + 1) - port) hl hh (ground arith) ∙ ground arith,
  )
]
