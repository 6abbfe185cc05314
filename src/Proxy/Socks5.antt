-- ===== src/Proxy/Socks5.antt =====
-- src/proxy/socks5.rs: the handshake and the replies of SOCKS5.
pub mod Requests
pub mod Errors
pub mod Replies
use stunnel.Base.{
  ℕ, zero, suc, ◌+◌, ◌-◌, ◌/◌, ◌%◌, ◌^◌, Bool, true, false, not, ◌||◌, Option, none, some, List, [],
  ◌∷◌, ◌++◌, Bytes, length, take, drop, slice, leb, ◌==◌, if◌then◌else◌, from_be, be_u32, be_u16,
  SocketAddr, v4, v6,
}
use stunnel.Proxy.{Destination, address, domain_name, unknown, Conn, M, next, Proxy}

abbrev pub ver : ℕ
ver = 5

abbrev pub rsv : ℕ
rsv = 0

abbrev pub cmd_connect : ℕ
cmd_connect = 1

abbrev pub method_no_auth : ℕ
method_no_auth = 0

abbrev pub method_no_accept : ℕ
method_no_accept = 0xFF

abbrev pub atyp_ipv4 : ℕ
atyp_ipv4 = 1

abbrev pub atyp_domainname : ℕ
atyp_domainname = 3

abbrev pub atyp_ipv6 : ℕ
atyp_ipv6 = 4

abbrev pub rep_success : ℕ
rep_success = 0

abbrev pub rep_failure : ℕ
rep_failure = 1

infixl 5 ◌>>=◌ ◌>>◌
abbrev pub ◌>>=◌ : {A B : Type 0} → M A → (A → M B) → M B
◌>>=◌ m f conn = next (m conn) f

abbrev pub ◌>>◌ : {B : Type 0} → M (Unit {0}) → M B → M B
m >> k = m >>= λ _. k

abbrev pub pure : {A : Type 0} → A → M A
pure a conn = (some a, conn)

unfoldable pub read_exact : ℕ → M Bytes
read_exact n conn =
    if leb n (length conn.unread)
    then (some (take n conn.unread), record conn { unread = drop n conn.unread })
    else (none, record conn { unread = [] })

unfoldable pub write_all : Bytes → M (Unit {0})
write_all bs conn =
    if conn.takes == 0
    then (none, conn)
    else (some tt, record conn { replies = conn.replies ++ bs ∷ []; takes = conn.takes - 1 })

-- `buf[i]` of a buffer that is longer.
abbrev pub byte_at : ℕ → Bytes → ℕ
byte_at i [] = 0
byte_at zero (b ∷ bs) = b
byte_at (suc i) (b ∷ bs) = byte_at i bs

unfoldable pub contains : ℕ → Bytes → Bool
contains method [] = false
contains method (m ∷ methods) = m == method || contains method methods

unfoldable pub choose_method : ℕ → M (Unit {0})
choose_method method = write_all (ver ∷ method ∷ [])

-- The destination by the type of the address.
unfoldable pub read_ipv4 : M Destination
read_ipv4 = do
  ipv4_addr ← read_exact 6
  let port = from_be (slice 4 2 ipv4_addr)
  let ip =
      from_be
        (byte_at 3 ipv4_addr ∷ byte_at 2 ipv4_addr ∷ byte_at 1 ipv4_addr ∷ byte_at 0 ipv4_addr ∷ [])
  pure (address (v4 ip port))

unfoldable pub read_domain : M Destination
read_domain = do
  len_buf ← read_exact 1
  let len = byte_at 0 len_buf
  buf ← read_exact (len + 2)
  pure (domain_name (take len buf) (from_be (slice len 2 buf)))

unfoldable pub read_destination : ℕ → M Destination
read_destination atyp =
    if atyp == atyp_ipv4
    then read_ipv4
    else if atyp == atyp_domainname
    then read_domain
    else pure unknown

unfoldable pub read_request : M Destination
read_request = do
  buf ← read_exact 4
  if byte_at 1 buf == cmd_connect then read_destination (byte_at 3 buf) else pure unknown

unfoldable pub refuse : M Destination
refuse = do choose_method method_no_accept; pure unknown

unfoldable pub read_methods : ℕ → M Destination
read_methods n = do
  methods ← read_exact n
  if contains method_no_auth methods
      then (do choose_method method_no_auth; read_request)
      else refuse

unfoldable pub handshake : M Destination
handshake = do
  buf ← read_exact 2
  if byte_at 0 buf == ver then read_methods (byte_at 1 buf) else refuse

-- `to_be` of a u128 in memory.
unfoldable pub be_u128 : ℕ → Bytes
be_u128 v =
    be_u32 (v / 2 ^ 96 % 2 ^ 32)
    ++ (be_u32 (v / 2 ^ 64 % 2 ^ 32) ++ (be_u32 (v / 2 ^ 32 % 2 ^ 32) ++ be_u32 (v % 2 ^ 32)))

unfoldable pub destination_result : SocketAddr → ℕ → M (Unit {0})
destination_result (v4 ip port) rsp =
    write_all (ver ∷ rsp ∷ rsv ∷ atyp_ipv4 ∷ be_u32 ip ++ be_u16 port)
destination_result (v6 ip port flow scope) rsp =
    write_all (ver ∷ rsp ∷ rsv ∷ atyp_ipv6 ∷ be_u128 ip ++ be_u16 port)

unfoldable pub destination_unreached : M (Unit {0})
destination_unreached = destination_result (v4 0 0) rep_failure

unfoldable pub destination_connected : SocketAddr → M (Unit {0})
destination_connected bind_addr = destination_result bind_addr rep_success

-- `impl Proxy for Socks5`
unfoldable pub socks5 : Proxy
socks5 = record {
  handshake = handshake;
  destination_unreached = destination_unreached;
  destination_connected = destination_connected;
}
