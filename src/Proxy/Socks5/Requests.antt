-- ===== src/Proxy/Socks5/Requests.antt =====
-- src/proxy/socks5.rs: what the handshake makes of the requests of RFC 1928.
use stunnel.Base.{
  ℕ, suc, ◌+◌, ◌-◌, ◌<◌, ◌≡◌, refl, sym, true, false, some, List, [], ◌∷◌, ◌++◌, append_assoc,
  Bytes, IsU16, IsU32, length, length-append, take-append, drop-append, take_all, le→leb, ◌==◌,
  from_be, be_u32, be_u16, from_be-be_u16, length-be_u16, v4, v6, arith,
}
use stunnel.Proxy.{Destination, address, domain_name, unknown, Conn}
use stunnel.Proxy.Socks5.{
  ver, rsv, cmd_connect, method_no_auth, atyp_ipv4, atyp_domainname, atyp_ipv6, read_exact,
  write_all, contains, choose_method, read_ipv4, read_domain, read_destination, read_request,
  read_methods, handshake,
}

-- A client's greeting: the version, how many methods it knows, and the methods.
abbrev pub greeting : Bytes → Bytes
greeting methods = ver ∷ length methods ∷ methods

-- Its request to connect, with the address and the port in network order.
abbrev pub request : Destination → Bytes
request (address (v4 ip port)) = ver ∷ cmd_connect ∷ rsv ∷ atyp_ipv4 ∷ (be_u32 ip ++ be_u16 port)
request (address (v6 ip port flow scope)) = ver ∷ cmd_connect ∷ rsv ∷ atyp_ipv6 ∷ []
request (domain_name name port) =
    ver ∷ cmd_connect ∷ rsv ∷ atyp_domainname ∷ length name ∷ (name ++ be_u16 port)
request unknown = []

-- A destination that the field of a request can hold.
abbrev pub IsRequest : Destination → Type 0
IsRequest (address (v4 ip port)) = IsU32 ip × IsU16 port
IsRequest (address (v6 ip port flow scope)) = ⊥
IsRequest (domain_name name port) = (length name < 256) × IsU16 port
IsRequest unknown = ⊥

-- The number with the four bytes in the other order.
abbrev pub swap_octets : ℕ → ℕ
swap_octets ip = from_be (reversed (be_u32 ip))
  where
    reversed : Bytes → Bytes
    reversed (a ∷ b ∷ c ∷ d ∷ []) = d ∷ c ∷ b ∷ a ∷ []
    reversed bs = bs

-- What the handshake takes a request for.
abbrev pub understood : Destination → Destination
understood (address (v4 ip port)) = address (v4 (swap_octets ip) port)
understood (address (v6 ip port flow scope)) = unknown
understood (domain_name name port) = domain_name name port
understood unknown = unknown

read_exact-append :
    (n : ℕ) (xs ys : Bytes) (conn : Conn)
    → n ≡ length xs
    → conn.unread ≡ xs ++ ys
    → read_exact n conn ≡ (some xs, record conn { unread = ys })
unfolding read_exact
read_exact-append n xs ys conn e u =
    rw
      (
        e,
        u,
        le→leb (length xs) (length (xs ++ ys)) (omega (arith, length-append xs ys)),
        take-append xs ys,
        drop-append xs ys,
      )
      refl

module _ (replies : List Bytes) (takes : ℕ) where
  abbrev at : Bytes → Conn
  at unread = record { unread = unread; replies = replies; takes = takes }

  read_at :
      (n : ℕ) (xs ys : Bytes) → n ≡ length xs → read_exact n (at (xs ++ ys)) ≡ (some xs, at ys)
  read_at n xs ys e = read_exact-append n xs ys (at (xs ++ ys)) e refl

  read_domain-request :
      (name : Bytes) (port : ℕ) (rest : Bytes)
      → IsU16 port
      → read_domain (at (length name ∷ (name ++ (be_u16 port ++ rest))))
        ≡ (some (domain_name name port), at rest)
  unfolding read_domain
  read_domain-request name port rest small =
      rw
        (
          read_at 1 (length name ∷ []) (name ++ (be_u16 port ++ rest)) refl,
          sym (append_assoc name (be_u16 port) rest),
          read_at (length name + 2) (name ++ be_u16 port) rest whole,
          take-append name (be_u16 port),
          drop-append name (be_u16 port),
          take_all 2 (be_u16 port) (omega (arith, length-be_u16 port)),
          from_be-be_u16 port small,
        )
        refl
    where
      whole : length name + 2 ≡ length (name ++ be_u16 port)
      whole = omega (arith, length-append name (be_u16 port), length-be_u16 port)

  read_ipv4-request :
      (ip port : ℕ) (rest : Bytes)
      → IsU16 port
      → read_ipv4 (at (be_u32 ip ++ (be_u16 port ++ rest)))
        ≡ (some (address (v4 (swap_octets ip) port)), at rest)
  unfolding read_ipv4 be_u32
  read_ipv4-request ip port rest small =
      rw
        (
          sym (append_assoc (be_u32 ip) (be_u16 port) rest),
          read_at 6 (be_u32 ip ++ be_u16 port) rest (omega (arith, length-be_u16 port)),
          take_all 2 (be_u16 port) (omega (arith, length-be_u16 port)),
          from_be-be_u16 port small,
        )
        refl

  read_request-request :
      (d : Destination) (rest : Bytes)
      → IsRequest d
      → read_request (at (request d ++ rest)) ≡ (some (understood d), at rest)
  unfolding read_request read_destination
  read_request-request (address (v4 ip port)) rest h =
      rw
        (
          append_assoc (be_u32 ip) (be_u16 port) rest,
          read_at 4 (ver ∷ cmd_connect ∷ rsv ∷ atyp_ipv4 ∷ []) (be_u32 ip ++ (be_u16 port ++ rest))
              refl,
        )
        (read_ipv4-request ip port rest h.1)
  read_request-request (address (v6 ip port flow scope)) rest h = absurd h
  read_request-request (domain_name name port) rest h =
      rw
        (
          append_assoc name (be_u16 port) rest,
          read_at 4 (ver ∷ cmd_connect ∷ rsv ∷ atyp_domainname ∷ [])
              (length name ∷ (name ++ (be_u16 port ++ rest))) refl,
        )
        (read_domain-request name port rest h.1)
  read_request-request unknown rest h = absurd h

-- A client that knows the method without authentication and asks for a domain name of less than 256
-- bytes, or for an IPv4 address, is replied to with that method. The handshake gives the name and
-- the port of the request, but for an address the one with the octets in the other order, and it
-- reads no further than the request.
pub handshake-request :
    (methods : Bytes) (d : Destination) (rest : Bytes) (takes : ℕ)
    → contains method_no_auth methods ≡ true
    → IsRequest d
    → handshake (at [] (suc takes) (greeting methods ++ (request d ++ rest)))
      ≡ (some (understood d), at ((ver ∷ method_no_auth ∷ []) ∷ []) takes rest)
unfolding handshake read_methods choose_method write_all
handshake-request methods d rest takes knows h =
    rw
      (
        read_at [] (suc takes) 2 (ver ∷ length methods ∷ []) (methods ++ (request d ++ rest)) refl,
        read_at [] (suc takes) (length methods) methods (request d ++ rest) refl,
        knows,
        taken takes,
        one_less takes,
      )
      (read_request-request ((ver ∷ method_no_auth ∷ []) ∷ []) takes d rest h)
  where
    taken : (n : ℕ) → (suc n == 0) ≡ false
    taken n = ground arith

    one_less : (n : ℕ) → suc n - 1 ≡ n
    one_less n = omega arith
