-- ===== src/Ucp/Tasks/Arrivals.antt =====
-- src/ucp/stream.rs, src/ucp/internal.rs: a datagram that comes to a stream, at any time.
use stunnel.Base.{
  ℕ, ◌≤◌, ◌≡◌, refl, sym, ap, ◌∙◌, inl, inr, Bool-cases, SocketAddr, some, Bytes, length,
  length-take, take, take_all, if_then, if_else, if◌then◌else◌, arith,
}
use stunnel.Ucp.Packet.{buf_size, parse, received}
use stunnel.Ucp.Stream.{InnerStream}
use stunnel.Ucp.Stream.Machine.{input}
use stunnel.Ucp.Stream.Machine.Safety.{Handled, input-parse}
use stunnel.Ucp.Tasks.{take_in}

-- The socket cuts a datagram to the size of the buffer.
received-take : (datagram : Bytes) → received (take buf_size datagram) ≡ received datagram
unfolding received
received-take datagram =
    rw (take_all buf_size (take buf_size datagram) (omega (arith, length-take buf_size datagram)))
      refl

module _ (crc : Bytes → ℕ) where
  Handled-alive :
      (s s' : InnerStream) (datagram : Bytes) (addr : SocketAddr)
      → Handled crc s (parse crc (received datagram)).0 addr s'
      → s'.alive ≡ s.alive
  Handled-alive s s' datagram addr ((inl steps, _), _) = steps.alive_is
  Handled-alive s s' datagram addr ((inr (at, opens), _), _) = opens.alive_is

  cut_in-alive :
      (s : InnerStream) (now : ℕ) (datagram : Bytes) (addr : SocketAddr)
      → length datagram ≤ buf_size
      → (s' : InnerStream) × (take_in crc s now datagram addr ≡ some s') × (s'.alive ≡ s.alive)
  unfolding take_in
  cut_in-alive s now datagram addr fits = elim (Bool-cases (parse crc (received datagram)).1) [
    | inl legal ↦
        let (s', took_in, handled) = input-parse crc s now datagram addr fits legal in
        (s', if_then _ _ _ legal ∙ took_in, Handled-alive s s' datagram addr handled)
    | inr other ↦ (s, if_else _ _ _ other, refl)
  ]

  take_in-take :
      (s : InnerStream) (now : ℕ) (datagram : Bytes) (addr : SocketAddr)
      → take_in crc s now (take buf_size datagram) addr ≡ take_in crc s now datagram addr
  unfolding take_in
  take_in-take s now datagram addr =
      ap (λ p. if (parse crc p).1 then input crc s now (parse crc p).0 addr else some s)
        (received-take datagram)

  -- A datagram does not make a stream panic, and leaves it dead or alive as it was.
  pub take_in-alive :
      (s : InnerStream) (now : ℕ) (datagram : Bytes) (addr : SocketAddr)
      → (s' : InnerStream) × (take_in crc s now datagram addr ≡ some s') × (s'.alive ≡ s.alive)
  take_in-alive s now datagram addr =
      let (s', took_in, same) =
        cut_in-alive s now (take buf_size datagram) addr
          (omega (arith, length-take buf_size datagram)) in
      (s', sym (take_in-take s now datagram addr) ∙ took_in, same)
