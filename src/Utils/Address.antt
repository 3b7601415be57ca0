-- ===== src/Utils/Address.antt =====
-- Socket addresses, src/utils/transport.c: sockaddr_get_nms_addr, sockaddr_cmp and nms_addr_cmp, for
-- a build with IPv6 and Unix sockets.
use libnemesi.Common.{
  ℕ, ◌≡◌, ◌↔◌, Bool, true, false, not, Option, none, some, List, [], ◌∷◌, arith, ◌==◌,
  if◌then◌else◌,
}

-- `struct sockaddr`, by its family: an address and a port, the path of a Unix socket, or the number
-- of another family.
pub data Sockaddr : Type 0 where
  in4 in6 : ℕ → ℕ → Sockaddr
  un : List ℕ → Sockaddr
  other : ℕ → Sockaddr

-- `nms_sockaddr` where `addr` is not NULL
pub record NmsSockaddr : Type 0 where
  pub addr : Sockaddr
  pub addr_len : ℕ

-- `nms_addr`, of a family that the library knows
pub data NmsAddr : Type 0 where
  inet inet6 : ℕ → NmsAddr

-- `none` where the function returns 1.
unfoldable pub sockaddr_get_nms_addr : Sockaddr → Option NmsAddr
sockaddr_get_nms_addr (in4 a p) = some (inet a)
sockaddr_get_nms_addr (in6 a p) = some (inet6 a)
sockaddr_get_nms_addr (un path) = none
sockaddr_get_nms_addr (other f) = none

-- Families are equal.
unfoldable pub same_family : Sockaddr → Sockaddr → Bool
same_family (in4 a p) (in4 b q) = true
same_family (in4 a p) (in6 b q) = false
same_family (in4 a p) (un path) = false
same_family (in4 a p) (other g) = false
same_family (in6 a p) (in4 b q) = false
same_family (in6 a p) (in6 b q) = true
same_family (in6 a p) (un path) = false
same_family (in6 a p) (other g) = false
same_family (un path) (in4 b q) = false
same_family (un path) (in6 b q) = false
same_family (un path) (un path2) = true
same_family (un path) (other g) = false
same_family (other f) (in4 b q) = false
same_family (other f) (in6 b q) = false
same_family (other f) (un path) = false
same_family (other f) (other g) = f == g

-- `!strcmp`
unfoldable pub same_path : List ℕ → List ℕ → Bool
same_path [] [] = true
same_path [] (y ∷ ys) = false
same_path (x ∷ xs) [] = false
same_path (x ∷ xs) (y ∷ ys) = let rest = same_path xs ys in if x == y then rest else false

-- The switch of sock_cmp_addr; `true` is a result other than 0.
unfoldable pub differ_addr : Sockaddr → Sockaddr → Bool
unfolding same_path
differ_addr (in4 a p) (in4 b q) = not (a == b)
differ_addr (in6 a p) (in6 b q) = not (a == b)
differ_addr (un path) (un path2) = not (same_path path path2)
differ_addr x y = true

unfoldable pub sock_cmp_addr : Sockaddr → Sockaddr → Bool
unfolding same_family differ_addr
sock_cmp_addr x y = if not (same_family x y) then true else differ_addr x y

-- The switch of sock_cmp_port, which knows no port of a Unix socket.
unfoldable pub differ_port : Sockaddr → Sockaddr → Bool
differ_port (in4 a p) (in4 b q) = not (p == q)
differ_port (in6 a p) (in6 b q) = not (p == q)
differ_port x y = true

unfoldable pub sock_cmp_port : Sockaddr → Sockaddr → Bool
unfolding same_family differ_port
sock_cmp_port x y = if not (same_family x y) then true else differ_port x y

pub data Compared : Type 0 where
  equal err_size err_family err_addr err_port : Compared

-- The second test compares the family of the first address with itself.
unfoldable pub sockaddr_cmp : NmsSockaddr → NmsSockaddr → Compared
unfolding same_family sock_cmp_addr sock_cmp_port
sockaddr_cmp x y =
    if not (x.addr_len == y.addr_len)
    then err_size
    else if not (same_family x.addr x.addr)
    then err_family
    else if sock_cmp_addr x.addr y.addr
    then err_addr
    else if sock_cmp_port x.addr y.addr
    then err_port
    else equal

unfoldable pub nms_addr_cmp : NmsAddr → NmsAddr → Compared
nms_addr_cmp (inet a) (inet b) = if a == b then equal else err_addr
nms_addr_cmp (inet a) (inet6 b) = err_family
nms_addr_cmp (inet6 a) (inet b) = err_family
nms_addr_cmp (inet6 a) (inet6 b) = if a == b then equal else err_addr

-- A family with an address and a port.
abbrev pub IsInet : Sockaddr → Type 0
IsInet (in4 a p) = Unit
IsInet (in6 a p) = Unit
IsInet (un path) = ⊥
IsInet (other f) = ⊥

-- Two addresses compare as equal exactly when they are the same IPv4 or IPv6 address and port, with
-- the same length, although the test of the families compares one of them with itself. Addresses of
-- other families never do.
pub sockaddr_cmp_lem : (x y : NmsSockaddr) → (sockaddr_cmp x y ≡ equal) ↔ ((x ≡ y) × IsInet x.addr)
unfolding sockaddr_cmp
sockaddr_cmp_lem x y = (λ h. ground arith, λ h. ground arith)
