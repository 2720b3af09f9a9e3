-- ===== src/Ip/Socket.antt =====
-- `SocketAddr` of Rust's standard library, with an empty flow label and scope as `SocketAddr::new`
-- makes it, and sets of them.
use straw.Common.{
  ℕ, ◌^◌, ◌<◌, ◌≡◌, refl, ap, List, [], ◌∷◌, Bool, true, false, ◌&&◌, ◌||◌, ◌==◌, if◌then◌else◌,
  arith, All,
}
use straw.Ip.{IpAddr, v4, v6, same_ip, IsAddr}

pub record SocketAddr : Type 0 where
  pub ip : IpAddr
  pub port : ℕ

abbrev pub IsSocketAddr : SocketAddr → Type 0
IsSocketAddr a = IsAddr a.ip × (a.port < 2 ^ 16)

unfoldable pub same_addr : SocketAddr → SocketAddr → Bool
unfolding same_ip
same_addr a b = same_ip a.ip b.ip && a.port == b.port

pub same_ip-eq : (a b : IpAddr) → same_ip a b ≡ true → a ≡ b
unfolding same_ip
same_ip-eq (v4 a) (v4 b) h = ap v4 (ground arith)
same_ip-eq (v4 a) (v6 b) h = absurd (cc)
same_ip-eq (v6 a) (v4 b) h = absurd (cc)
same_ip-eq (v6 a) (v6 b) h = ap v6 (ground arith)

pub same_ip_refl : (a : IpAddr) → same_ip a a ≡ true
unfolding same_ip
same_ip_refl (v4 a) = ground arith
same_ip_refl (v6 a) = ground arith

pub same_addr-eq : (a b : SocketAddr) → same_addr a b ≡ true → a ≡ b
unfolding same_addr
same_addr-eq a b h =
    let e : a.ip ≡ b.ip = same_ip-eq a.ip b.ip (ground arith) in
    let p : a.port ≡ b.port = ground arith in λ i. record { ip = e i; port = p i }

pub same_addr_refl : (a : SocketAddr) → same_addr a a ≡ true
unfolding same_addr
same_addr_refl a = ground (arith, same_ip_refl a.ip)

-- `HashSet::contains`, on the set as a list.
unfoldable pub contains : List SocketAddr → SocketAddr → Bool
contains [] a = false
contains (b ∷ bs) a = same_addr b a || contains bs a

-- `HashSet::remove`
unfoldable pub remove : List SocketAddr → SocketAddr → List SocketAddr
remove [] a = []
remove (b ∷ bs) a = let rest = remove bs a in if same_addr b a then rest else b ∷ rest

pub remove-fresh : (s : List SocketAddr) (a : SocketAddr) → contains s a ≡ false → remove s a ≡ s
unfolding contains remove
remove-fresh [] a h = refl
remove-fresh (b ∷ bs) a h = ground (arith, remove-fresh bs a)

pub remove-added :
    (s : List SocketAddr) (a : SocketAddr) → contains s a ≡ false → remove (a ∷ s) a ≡ s
unfolding remove
remove-added s a h = ground (arith, same_addr_refl a, remove-fresh s a)

pub contains-remove : (s : List SocketAddr) (a : SocketAddr) → contains (remove s a) a ≡ false
unfolding contains remove
contains-remove [] a = refl
contains-remove (b ∷ bs) a = ground (arith, contains-remove bs a)

-- No address stands in the list twice.
abbrev pub IsDistinct : List SocketAddr → Type 0
IsDistinct [] = Unit {0}
IsDistinct (a ∷ s) = (contains s a ≡ false) × IsDistinct s

pub remove-contains :
    (s : List SocketAddr) (a b : SocketAddr)
    → contains s b ≡ false
    → contains (remove s a) b ≡ false
unfolding contains remove
remove-contains [] a b h = refl
remove-contains (c ∷ s) a b h = ground (arith, remove-contains s a b)

pub remove-IsDistinct :
    (s : List SocketAddr) (a : SocketAddr) → IsDistinct s → IsDistinct (remove s a)
unfolding remove
remove-IsDistinct [] a h = tt
remove-IsDistinct (b ∷ s) a h = ground (arith, remove-IsDistinct s a, remove-contains s a b)

pub remove-All :
    (P : SocketAddr → Type 0) (s : List SocketAddr) (a : SocketAddr) → All P s → All P (remove s a)
unfolding remove
remove-All P [] a h = tt
remove-All P (b ∷ s) a h = ground (arith, remove-All P s a h.1, h.0)
