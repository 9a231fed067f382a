-- ===== src/Net.antt =====
-- The addresses of the standard library (`std::net`) and their equality.
use mini_proxad.Prelude.{ℕ, ◌≡◌, ◌↔◌, ◌&&◌, Bool, true, false, arith, ◌==◌}

pub data IpAddr : Type 0 where
  v4 : ℕ → IpAddr
  v6 : ℕ → IpAddr

-- `SocketAddrV6` has a flow label and a scope besides.
pub data SocketAddr : Type 0 where
  addr_v4 : (ip port : ℕ) → SocketAddr
  addr_v6 : (ip port flow_info scope_id : ℕ) → SocketAddr

unfoldable pub socket_addr : IpAddr → ℕ → SocketAddr
socket_addr (v4 ip) port = addr_v4 ip port
socket_addr (v6 ip) port = addr_v6 ip port 0 0

unfoldable pub ip_of : SocketAddr → IpAddr
ip_of (addr_v4 ip port) = v4 ip
ip_of (addr_v6 ip port flow scope) = v6 ip

unfoldable pub port_of : SocketAddr → ℕ
port_of (addr_v4 ip port) = port
port_of (addr_v6 ip port flow scope) = port

abbrev pub addr_eq : SocketAddr → SocketAddr → Bool
addr_eq (addr_v4 a p) (addr_v4 b q) = a == b && p == q
addr_eq (addr_v6 a p f s) (addr_v6 b q g t) = a == b && (p == q && (f == g && s == t))
addr_eq _ _ = false

pub addr_eq_iff : (a b : SocketAddr) → (addr_eq a b ≡ true) ↔ (a ≡ b)
addr_eq_iff (addr_v4 a p) (addr_v4 b q) = ground arith
addr_eq_iff (addr_v6 a p f s) (addr_v6 b q g t) = ground arith
addr_eq_iff (addr_v4 a p) (addr_v6 b q g t) = ground arith
addr_eq_iff (addr_v6 a p f s) (addr_v4 b q) = ground arith
