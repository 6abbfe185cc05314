-- ===== src/Ucp/Stream/Machine/Safety.antt =====
-- src/ucp/internal.rs: what `input` does to the state of a connection, and that no datagram makes it panic.
use stunnel.Base.{
  ℕ, ◌≤◌, ◌≡◌, refl, ◌≢◌, true, false, Bool-cases, ◌⊎◌, inl, inr, Option, none, some, Bytes, length,
  ◌==◌, SocketAddr, addr_eq,
}
use stunnel.Ucp.{cmd_ack, cmd_data, cmd_syn_ack, cmd_heartbeat, cmd_heartbeat_ack}
use stunnel.Ucp.State.{UcpState}
use stunnel.Ucp.Packet.{UcpPacket, is_syn}
use stunnel.Ucp.Packet.{buf_size, parse, received}
use stunnel.Ucp.Packet.Arrival.{parse-IsArrived}
use stunnel.Ucp.Packet.Payload.{IsArrived}
use stunnel.Ucp.Stream.{InnerStream, send_packet_directly, new_packet, send_packet}
use stunnel.Ucp.Stream.Ack.{process_una, process_an_ack}
use stunnel.Ucp.Stream.Machine.{
  accepting, process_state_accepting, establish, process_syn_ack, process_state_established,
  process_state, processing, input_in, input,
}
use stunnel.Ucp.Stream.Machine.Keeps.{
  stays, completes, connects, Steps, Keeps, Returns, if_either, same, stepped, process_an_ack-Keeps,
  process_data-Keeps, process_ack-Keeps, both_read, Steps-on, Keeps-Steps, also,
}

process_state_accepting-Steps :
    (s : InnerStream) (now : ℕ) (packet : UcpPacket)
    → s.state ≡ UcpState.accepting
    → IsArrived packet
    → Returns (Steps s) (process_state_accepting s now packet)
unfolding process_state_accepting
process_state_accepting-Steps s now packet at p =
    both_read packet (packet.cmd == cmd_ack) (Steps s) s _ p (stepped s s (same s)) (λ seq acked.
      let k = process_an_ack-Keeps s now seq acked in
      if_either (Steps s) (process_an_ack s now seq acked).1 _ _
        (record {
          moves = rw at completes;
          session_id_is = k.session_id_is;
          remote_addr_is = k.remote_addr_is;
          alive_is = k.alive_is;
        })
        (stepped s _ k))

establish-Steps :
    (state : UcpState) (s : InnerStream) (now : ℕ) (packet : UcpPacket) (seq acked : ℕ)
    → s.state ≡ state
    → Steps s (establish state s now packet seq acked)
unfolding establish
establish-Steps UcpState.connecting s now packet seq acked at =
    let k = process_an_ack-Keeps s now seq acked in
    if_either (Steps s) (process_an_ack s now seq acked).1 _ _
      (record {
        moves = rw at connects;
        session_id_is = k.session_id_is;
        remote_addr_is = k.remote_addr_is;
        alive_is = k.alive_is;
      })
      (stepped s _ k)
establish-Steps UcpState.none s now packet seq acked at = stepped s s (same s)
establish-Steps UcpState.accepting s now packet seq acked at = stepped s s (same s)
establish-Steps UcpState.established s now packet seq acked at = stepped s s (same s)

module _ (crc : Bytes → ℕ) where
  process_syn_ack-Steps :
      (s : InnerStream) (now : ℕ) (packet : UcpPacket)
      → IsArrived packet
      → Returns (Steps s) (process_syn_ack crc s now packet)
  unfolding process_syn_ack send_packet_directly
  process_syn_ack-Steps s now packet p =
      both_read packet (packet.cmd == cmd_syn_ack) (Steps s) s _ p (stepped s s (same s))
        (λ seq acked.
          let t = establish-Steps s.state _ now packet seq acked refl in
          record {
            moves = t.moves;
            session_id_is = t.session_id_is;
            remote_addr_is = t.remote_addr_is;
            alive_is = t.alive_is;
          })

  process_state_established-Steps :
      (s : InnerStream) (now : ℕ) (packet : UcpPacket)
      → IsArrived packet
      → Returns (Steps s) (process_state_established crc s now packet)
  unfolding process_state_established send_packet_directly
  process_state_established-Steps s now packet p =
      let s1 = process_una s packet.una in
      let kept : Keeps s s1 = record {
        state_is = refl;
        session_id_is = refl;
        remote_addr_is = refl;
        alive_is = refl;
      } in
      Steps-on s s1 _ kept (
        if_either (Returns (Steps s1)) (packet.cmd == cmd_ack) _ _
          (Keeps-Steps s1 _ (process_ack-Keeps s1 now packet p))
          (if_either (Returns (Steps s1)) (packet.cmd == cmd_data) _ _
            (stepped s1 _ (process_data-Keeps s1 packet))
            (if_either (Returns (Steps s1)) (packet.cmd == cmd_syn_ack) _ _
              (process_syn_ack-Steps s1 now packet p)
              (if_either (Returns (Steps s1)) (packet.cmd == cmd_heartbeat) _ _
                (record {
                  moves = stays;
                  session_id_is = refl;
                  remote_addr_is = refl;
                  alive_is = refl;
                })
                (if_either (Returns (Steps s1)) (packet.cmd == cmd_heartbeat_ack) _ _
                  (record {
                    moves = stays;
                    session_id_is = refl;
                    remote_addr_is = refl;
                    alive_is = refl;
                  })
                  (stepped s1 s1 (same s1)))))))

  process_state-Steps :
      (state : UcpState) (s : InnerStream) (now : ℕ) (packet : UcpPacket)
      → s.state ≡ state
      → IsArrived packet
      → Returns (Steps s) (process_state state crc s now packet)
  unfolding process_state
  process_state-Steps UcpState.accepting s now packet at p =
      process_state_accepting-Steps s now packet at p
  process_state-Steps UcpState.connecting s now packet at p = process_syn_ack-Steps s now packet p
  process_state-Steps UcpState.established s now packet at p =
      process_state_established-Steps s now packet p
  process_state-Steps UcpState.none s now packet at p = stepped s s (same s)

  processing-Steps :
      (s : InnerStream) (now : ℕ) (packet : UcpPacket)
      → IsArrived packet
      → Returns (Steps s) (processing crc s now packet)
  unfolding processing
  processing-Steps s now packet p =
      let s1 = record s { alive_time = now; remote_window = packet.window } in
      if_either (Returns (Steps s)) (s.session_id == packet.session_id) _ _
        (Steps-on s s1 _
          (record { state_is = refl; session_id_is = refl; remote_addr_is = refl; alive_is = refl })
          (process_state-Steps s.state s1 now packet refl p))
        (stepped s s (same s))

  -- A stream without a session takes one from a packet that opens one.
  pub record Opens (s : InnerStream) (packet : UcpPacket) (s' : InnerStream) : Type 0 where
    pub is_opening : is_syn packet ≡ true
    pub state_is : s'.state ≡ UcpState.accepting
    pub session_id_is : s'.session_id ≡ packet.session_id
    pub remote_addr_is : s'.remote_addr ≡ s.remote_addr
    pub alive_is : s'.alive ≡ s.alive

  -- A packet of another session changes nothing once a session is open.
  abbrev Answered : InnerStream → UcpPacket → InnerStream → Type 0
  Answered s packet s' =
      (Steps s s' ⊎ ((s.state ≡ UcpState.none) × Opens s packet s'))
      × (s.state ≢ UcpState.none → (s.session_id == packet.session_id) ≡ false → s' ≡ s)

  processing-Answered :
      (s : InnerStream) (now : ℕ) (packet : UcpPacket)
      → IsArrived packet
      → Returns (Answered s packet) (processing crc s now packet)
  unfolding processing
  processing-Answered s now packet p = elim (Bool-cases (s.session_id == packet.session_id)) [
    | inl ours ↦
        also (Steps s) (Answered s packet) _ (λ s' t. (inl t, λ h other. absurd (cc (ours, other))))
          (processing-Steps s now packet p)
    | inr other ↦ rw (processing, other) (inl (stepped s s (same s)), λ h o. refl)
  ]

  input_in-Answered :
      (state : UcpState) (s : InnerStream) (now : ℕ) (packet : UcpPacket)
      → s.state ≡ state
      → IsArrived packet
      → Returns (Answered s packet) (input_in state crc s now packet)
  unfolding input_in accepting new_packet send_packet
  input_in-Answered UcpState.none s now packet at p = elim (Bool-cases (is_syn packet)) [
    | inl syn ↦ rw syn (
      inr (
        at,
        record {
          is_opening = syn;
          state_is = refl;
          session_id_is = refl;
          remote_addr_is = refl;
          alive_is = refl;
        },
      ),
      λ h. absurd (h at),
    )
    | inr other ↦ rw other (inl (stepped s s (same s)), λ h. absurd (h at))
  ]
  input_in-Answered UcpState.accepting s now packet at p = processing-Answered s now packet p
  input_in-Answered UcpState.connecting s now packet at p = processing-Answered s now packet p
  input_in-Answered UcpState.established s now packet at p = processing-Answered s now packet p

  -- What `input` does.
  abbrev pub Handled : InnerStream → UcpPacket → SocketAddr → InnerStream → Type 0
  Handled s packet addr s' = Answered s packet s' × (addr_eq s.remote_addr addr ≡ false → s' ≡ s)

  -- A packet that `parse` has accepted never makes `input` panic. It opens a session only as a packet
  -- with the command to, in a stream that has none. Else the session, the peer's address and `alive`
  -- stay, and the state stays or goes from accepting or connecting to established. A packet from
  -- another address, or of another session once one is open, changes nothing.
  pub input-Handled :
      (s : InnerStream) (now : ℕ) (packet : UcpPacket) (addr : SocketAddr)
      → IsArrived packet
      → (s' : InnerStream) × (input crc s now packet addr ≡ some s') × Handled s packet addr s'
  unfolding input
  input-Handled s now packet addr p =
      returned (input crc s now packet addr) (elim (Bool-cases (addr_eq s.remote_addr addr)) [
        | inl peer ↦
            rw (input, peer)
              (also (Answered s packet) (Handled s packet addr) _
                (λ s' t. (t, λ other. absurd (cc (peer, other))))
                (input_in-Answered s.state s now packet refl p))
        | inr other ↦ rw (input, other) ((inl (stepped s s (same s)), λ h o. refl), λ o. refl)
      ])
    where
      returned :
          (o : Option InnerStream)
          → Returns (Handled s packet addr) o
          → (s' : InnerStream) × (o ≡ some s') × Handled s packet addr s'
      returned none r = absurd r
      returned (some s') r = (s', refl, r)

  -- A datagram of at most 1400 bytes that `parse` accepts never makes `input` panic, whatever the
  -- state of the stream. It opens a session only with the command to, in a stream that has none.
  -- Else the session, the peer's address and `alive` stay, and the state stays or goes from
  -- accepting or connecting to established. From another address, or of another session once one is
  -- open, it changes nothing.
  pub input-parse :
      (s : InnerStream) (now : ℕ) (w : Bytes) (addr : SocketAddr)
      → length w ≤ buf_size
      → (parse crc (received w)).1 ≡ true
      → let packet = (parse crc (received w)).0 in
        (s' : InnerStream) × (input crc s now packet addr ≡ some s') × Handled s packet addr s'
  input-parse s now w addr fits accepted =
      input-Handled s now (parse crc (received w)).0 addr (parse-IsArrived crc w fits accepted)
