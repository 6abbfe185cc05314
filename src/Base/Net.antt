-- ===== src/Base/Net.antt =====
-- What the program takes from std: socket addresses, compared by equality, and instants of the
-- monotonic clock, in nanoseconds.
use Prim.Native.Nat.{ℕ, ◌-◌, ◌/◌, ◌^◌}
use mathlib.Core.Bool.{Bool, false, ◌&&◌}
use stunnel.Base.Tests.{◌==◌}

-- `std::net::SocketAddr`: an address and a port; for IPv6 also the flow information and the scope.
pub data SocketAddr : Type 0 where
  v4 : ℕ → ℕ → SocketAddr
  v6 : ℕ → ℕ → ℕ → ℕ → SocketAddr

abbrev pub addr_eq : SocketAddr → SocketAddr → Bool
addr_eq (v4 ip port) (v4 ip' port') = ip == ip' && port == port'
addr_eq (v6 ip port flow scope) (v6 ip' port' flow' scope') =
    ip == ip' && port == port' && flow == flow' && scope == scope'
addr_eq _ _ = false

-- `(a - b).as_millis()` of two instants, `b` not later than `a`.
abbrev pub millis_since : ℕ → ℕ → ℕ
millis_since now earlier = (now - earlier) / 10 ^ 6
