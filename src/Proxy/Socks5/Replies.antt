-- ===== src/Proxy/Socks5/Replies.antt =====
-- src/proxy/socks5.rs: the replies, as a client of RFC 1928 reads them.
use stunnel.Base.{
  ℕ, ◌^◌, ◌<◌, ◌≡◌, refl, false, ◌&&◌, Option, none, some, [], ◌∷◌, ◌++◌, Bytes, IsU16, IsU32,
  length, slice, ◌==◌, if◌then◌else◌, from_be, be_u32, be_u16, from_be-be_u32, from_be-be_u16,
  SocketAddr, v4, v6, arith,
}
use mathlib.Core.Path.{ap₂}
use stunnel.Proxy.{Conn}
use stunnel.Proxy.Socks5.{ver, rsv, atyp_ipv4, atyp_ipv6, write_all, be_u128, destination_result}

-- A reply as a client reads it: the code of the result, and the address behind it.
abbrev pub reply_addr : Bytes → Option (ℕ × SocketAddr)
reply_addr (v ∷ rep ∷ r ∷ atyp ∷ rest) =
    if v == ver && r == rsv
    then (if atyp == atyp_ipv4 && length rest == 6
        then some (rep, v4 (from_be (slice 0 4 rest)) (from_be (slice 4 2 rest)))
        else if atyp == atyp_ipv6 && length rest == 18
        then some (rep, v6 (from_be (slice 0 16 rest)) (from_be (slice 16 2 rest)) 0 0)
        else none)
    else none
reply_addr _ = none

-- An address as a reply carries it, without the flow information and the scope.
abbrev pub carried : SocketAddr → SocketAddr
carried (v4 ip port) = v4 ip port
carried (v6 ip port flow scope) = v6 ip port 0 0

abbrev pub IsSocketAddr : SocketAddr → Type 0
IsSocketAddr (v4 ip port) = IsU32 ip × IsU16 port
IsSocketAddr (v6 ip port flow scope) = (ip < 2 ^ 128) × IsU16 port

from_be-be_u128 : (v : ℕ) → v < 2 ^ 128 → from_be (be_u128 v) ≡ v
unfolding from_be be_u128 be_u32
from_be-be_u128 v h = omega arith

read_ipv4_reply :
    (ip port rsp : ℕ)
    → IsU32 ip
    → IsU16 port
    → reply_addr (ver ∷ rsp ∷ rsv ∷ atyp_ipv4 ∷ be_u32 ip ++ be_u16 port) ≡ some (rsp, v4 ip port)
unfolding be_u32 be_u16
read_ipv4_reply ip port rsp h small =
    ap₂ (λ i p. some (rsp, v4 i p)) (from_be-be_u32 ip h) (from_be-be_u16 port small)

read_ipv6_reply :
    (ip port rsp : ℕ)
    → ip < 2 ^ 128
    → IsU16 port
    → reply_addr (ver ∷ rsp ∷ rsv ∷ atyp_ipv6 ∷ be_u128 ip ++ be_u16 port)
      ≡ some (rsp, v6 ip port 0 0)
unfolding be_u32 be_u16 be_u128
read_ipv6_reply ip port rsp h small =
    ap₂ (λ i p. some (rsp, v6 i p 0 0)) (from_be-be_u128 ip h) (from_be-be_u16 port small)

-- On a stream that takes a write, the reply about an address in the ranges of its type is one write,
-- and a client of RFC 1928 reads in it the code of the result and the address with its port.
pub reply_addr-destination_result :
    (conn : Conn) (addr : SocketAddr) (rsp : ℕ)
    → 0 < conn.takes
    → IsSocketAddr addr
    → let (done, conn') = destination_result addr rsp conn in
      (done ≡ some tt)
      × ((reply : Bytes) × (conn'.replies ≡ conn.replies ++ reply ∷ [])
          × (reply_addr reply ≡ some (rsp, carried addr)))
unfolding destination_result write_all
reply_addr-destination_result conn (v4 ip port) rsp room h =
    let takes : (conn.takes == 0) ≡ false = ground arith in
    rw takes (
      refl,
      (
        ver ∷ rsp ∷ rsv ∷ atyp_ipv4 ∷ be_u32 ip ++ be_u16 port,
        refl,
        read_ipv4_reply ip port rsp h.0 h.1,
      ),
    )
reply_addr-destination_result conn (v6 ip port flow scope) rsp room h =
    let takes : (conn.takes == 0) ≡ false = ground arith in
    rw takes (
      refl,
      (
        ver ∷ rsp ∷ rsv ∷ atyp_ipv6 ∷ be_u128 ip ++ be_u16 port,
        refl,
        read_ipv6_reply ip port rsp h.0 h.1,
      ),
    )
