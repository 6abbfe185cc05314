-- ===== src/Proxy/Socks5/Errors.antt =====
-- src/proxy/socks5.rs: the replies and the errors of the handshake, on every input.
use stunnel.Base.{
  ℕ, suc, ◌-◌, ◌+◌, ◌≡◌, refl, ◌∙◌, ◌⊎◌, inl, inr, Bool-cases, Option, none, some, [], ◌∷◌, ◌++◌,
  length, leb, ◌==◌, ==→eq, arith,
}
use stunnel.Proxy.{Destination, address, domain_name, unknown, Conn, M, next}
use stunnel.Proxy.Socks5.{
  ver, method_no_auth, method_no_accept, cmd_connect, atyp_ipv4, atyp_domainname, byte_at, contains,
  read_exact, write_all, choose_method, read_ipv4, read_domain, read_destination, read_request,
  refuse, read_methods, handshake,
}

-- Code that only reads: an error comes at the end of the stream.
abbrev Reads : {A : Type 0} → Conn → Option A × Conn → Type 0
Reads conn (none, conn') =
    (conn'.unread ≡ []) × (conn'.replies ≡ conn.replies) × (conn'.takes ≡ conn.takes)
Reads conn (some a, conn') = (conn'.replies ≡ conn.replies) × (conn'.takes ≡ conn.takes)

module _ (conn : Conn) where
  next-Reads :
      {A B : Type 0} (r : Option A × Conn) (f : A → M B)
      → Reads conn r
      → ((a : A) (conn' : Conn) → Reads conn' (f a conn'))
      → Reads conn (next r f)
  next-Reads (none, conn') f h k = h
  next-Reads (some a, conn') f h k = carried (f a conn') (k a conn')
    where
      carried : {B : Type 0} (r : Option B × Conn) → Reads conn' r → Reads conn r
      carried (none, last) (u, p, q) = (u, p ∙ h.0, q ∙ h.1)
      carried (some b, last) (p, q) = (p ∙ h.0, q ∙ h.1)

  read_exact-Reads : (n : ℕ) → Reads conn (read_exact n conn)
  unfolding read_exact
  read_exact-Reads n = elim (Bool-cases (leb n (length conn.unread))) [
    | inl enough ↦ rw enough (refl, refl)
    | inr short ↦ rw short (refl, refl, refl)
  ]

read_ipv4-Reads : (conn : Conn) → Reads conn (read_ipv4 conn)
unfolding read_ipv4
read_ipv4-Reads conn =
    next-Reads conn (read_exact 6 conn) _ (read_exact-Reads conn 6) (λ a conn'. (refl, refl))

read_domain-Reads : (conn : Conn) → Reads conn (read_domain conn)
unfolding read_domain
read_domain-Reads conn =
    next-Reads conn (read_exact 1 conn) _ (read_exact-Reads conn 1) (λ len conn1.
      next-Reads conn1 (read_exact (byte_at 0 len + 2) conn1) _
        (read_exact-Reads conn1 (byte_at 0 len + 2)) (λ buf conn2. (refl, refl)))

read_destination-Reads : (atyp : ℕ) (conn : Conn) → Reads conn (read_destination atyp conn)
unfolding read_destination
read_destination-Reads atyp conn = elim (Bool-cases (atyp == atyp_ipv4)) [
  | inl ipv4 ↦ rw ipv4 (read_ipv4-Reads conn)
  | inr other ↦ elim (Bool-cases (atyp == atyp_domainname)) [
    | inl domain ↦ rw (other, domain) (read_domain-Reads conn)
    | inr neither ↦ rw (other, neither) (refl, refl)
  ]
]

read_request-Reads : (conn : Conn) → Reads conn (read_request conn)
unfolding read_request
read_request-Reads conn =
    next-Reads conn (read_exact 4 conn) _ (read_exact-Reads conn 4) (λ buf conn1.
      elim (Bool-cases (byte_at 1 buf == cmd_connect)) [
        | inl connects ↦ rw connects (read_destination-Reads (byte_at 3 buf) conn1)
        | inr other ↦ rw other (refl, refl)
      ])

-- A method in the reply to the greeting.
abbrev pub Replied : ℕ → Conn → Conn → Type 0
Replied method conn conn' =
    (conn'.replies ≡ conn.replies ++ (ver ∷ method ∷ []) ∷ []) × (suc conn'.takes ≡ conn.takes)

-- How a handshake ends.
abbrev pub Ends : Option Destination → Conn → Conn → Type 0
Ends none conn conn' = (conn'.unread ≡ []) ⊎ (conn'.takes ≡ 0)
Ends (some (address addr)) conn conn' = Replied method_no_auth conn conn'
Ends (some (domain_name name port)) conn conn' = Replied method_no_auth conn conn'
Ends (some unknown) conn conn' =
    Replied method_no_auth conn conn' ⊎ Replied method_no_accept conn conn'

after_reply :
    (conn conn1 : Conn) (r : Option Destination × Conn)
    → Replied method_no_auth conn conn1
    → Reads conn1 r
    → Ends r.0 conn r.1
after_reply conn conn1 (none, conn') p h = inl h.0
after_reply conn conn1 (some (address addr), conn') p (q, t) = (q ∙ p.0, omega arith)
after_reply conn conn1 (some (domain_name name port), conn') p (q, t) = (q ∙ p.0, omega arith)
after_reply conn conn1 (some unknown, conn') p (q, t) = inl (q ∙ p.0, omega arith)

-- Reads before a reply.
Ends-Reads :
    (conn conn1 : Conn) (d : Option Destination) (conn' : Conn)
    → conn1.replies ≡ conn.replies
    → conn1.takes ≡ conn.takes
    → Ends d conn1 conn'
    → Ends d conn conn'
Ends-Reads conn conn1 none conn' p q e = e
Ends-Reads conn conn1 (some (address addr)) conn' p q e = rw (← p, ← q) e
Ends-Reads conn conn1 (some (domain_name name port)) conn' p q e = rw (← p, ← q) e
Ends-Reads conn conn1 (some unknown) conn' p q e = rw (← p, ← q) e

next-Ends :
    {A : Type 0} (conn : Conn) (r : Option A × Conn) (f : A → M Destination)
    → Reads conn r
    → ((a : A) (conn1 : Conn) → Ends (f a conn1).0 conn1 (f a conn1).1)
    → Ends (next r f).0 conn (next r f).1
next-Ends conn (none, conn') f h k = inl h.0
next-Ends conn (some a, conn1) f h k =
    Ends-Reads conn conn1 (f a conn1).0 (f a conn1).1 h.0 h.1 (k a conn1)

refuse-Ends : (conn : Conn) → Ends (refuse conn).0 conn (refuse conn).1
unfolding refuse choose_method write_all
refuse-Ends conn = elim (Bool-cases (conn.takes == 0)) [
  | inl full ↦ rw full (inr (==→eq conn.takes 0 full))
  | inr room ↦ rw room (inr (refl, ground arith))
]

read_methods-Ends :
    (n : ℕ) (conn : Conn) → Ends (read_methods n conn).0 conn (read_methods n conn).1
unfolding read_methods choose_method write_all
read_methods-Ends n conn =
    next-Ends conn (read_exact n conn) _ (read_exact-Reads conn n) (λ methods conn1.
      elim (Bool-cases (contains method_no_auth methods)) [
        | inl knows ↦ elim (Bool-cases (conn1.takes == 0)) [
          | inl full ↦ rw (knows, full) (inr (==→eq conn1.takes 0 full))
          | inr room ↦
              rw (knows, room)
                (after_reply conn1 (replied conn1) (read_request (replied conn1))
                  (refl, ground arith) (read_request-Reads (replied conn1)))
        ]
        | inr unable ↦ rw unable (refuse-Ends conn1)
      ])
  where
    replied : Conn → Conn
    replied c = record c {
      replies = c.replies ++ (ver ∷ method_no_auth ∷ []) ∷ [];
      takes = c.takes - 1;
    }

-- A SOCKS5 handshake gives a destination only after the one reply without authentication, and no
-- destination only after one reply. It fails only at the end of the stream, or where the stream
-- refuses the reply.
pub handshake-Ends : (conn : Conn) → Ends (handshake conn).0 conn (handshake conn).1
unfolding handshake
handshake-Ends conn = next-Ends conn (read_exact 2 conn) _ (read_exact-Reads conn 2) (λ buf conn1.
    elim (Bool-cases (byte_at 0 buf == ver)) [
      | inl five ↦ rw five (read_methods-Ends (byte_at 1 buf) conn1)
      | inr other ↦ rw other (refuse-Ends conn1)
    ])
