-- ===== src/Ucp/Session/Datagrams.antt =====
-- src/ucp/stream.rs, src/ucp/listener.rs, src/ucp/internal.rs: the first two datagrams with which `connect` and a
-- listener open a session.
use stunnel.Base.{
  ℕ, ◌<◌, ◌≡◌, refl, sym, ap, subst, true, Bytes, IsU32, length-replicate, add_u32, SocketAddr,
  millis_since, arith,
}
use stunnel.Ucp.{cmd_syn, cmd_syn_ack, heartbeat_interval_millis}
use stunnel.Ucp.State.{UcpState}
use stunnel.Ucp.Packet.{UcpPacket, IsWellFormed, buf_size, new as new_ucp_packet, parse, received}
use stunnel.Ucp.Packet.Payload.{IsReadable}
use stunnel.Ucp.Packet.RoundTrip.{Carries}
use stunnel.Ucp.Stream.{InnerStream, new, new_metrics, new_packet, send_packet}
use stunnel.Ucp.Stream.Output.{stamped, output}
use stunnel.Ucp.Stream.Machine.{connecting, accepting}
use stunnel.Ucp.Session.{waiting, Sent, output-Sent}
use stunnel.Ucp.Session.Arrives.{sent, sent_arrives}
use stunnel.Ucp.Session.Replies.{replying, Replies, replying-Replies}

-- The packet that is made of a datagram that came.
abbrev pub arrived : (Bytes → ℕ) → Bytes → UcpPacket
arrived crc w = (parse crc (received w)).0

abbrev pub Accepted : (Bytes → ℕ) → Bytes → Type 0
Accepted crc w = (parse crc (received w)).1 ≡ true

-- `UcpStream::connect`, as far as its first datagram.
abbrev pub client_opening : (Bytes → ℕ) → SocketAddr → ℕ → ℕ → ℕ → ℕ → InnerStream
client_opening crc server random created opened sent_at =
    output crc (connecting (new server new_metrics created) opened random) sent_at

-- The client's stream and the first packet that waits in it.
module _ (server : SocketAddr) (random created opened : ℕ) where
  abbrev pub start : InnerStream
  start = record (new server new_metrics created) {
    state = UcpState.connecting;
    session_id = random;
  }

  abbrev pub client_stream : InnerStream
  client_stream = (new_packet start opened cmd_syn).1

  abbrev pub syn : UcpPacket
  syn = (new_packet start opened cmd_syn).0

  connecting-waiting :
      connecting (new server new_metrics created) opened random ≡ waiting client_stream syn
  unfolding connecting send_packet new new_packet
  connecting-waiting = refl

-- The server's stream and the answer that waits in it.
module _ (client : SocketAddr) (created came : ℕ) (q : UcpPacket) where
  abbrev accepting_start : InnerStream
  accepting_start = record (new client new_metrics created) {
    state = UcpState.accepting;
    session_id = q.session_id;
    una = add_u32 q.seq 1;
    remote_window = q.window;
  }

  abbrev pub server_stream : InnerStream
  server_stream = (new_packet accepting_start came cmd_syn_ack).1

  abbrev pub answer : UcpPacket
  answer = replying q.seq q.timestamp (new_packet accepting_start came cmd_syn_ack).0

  accepting-waiting :
      accepting (new client new_metrics created) came q ≡ waiting server_stream answer
  unfolding accepting send_packet new new_packet
  accepting-waiting = refl

  pub answer-Replies :
      Replies (new_packet accepting_start came cmd_syn_ack).0 q.seq q.timestamp answer
  unfolding new_packet new_ucp_packet
  answer-Replies =
      replying-Replies (new_packet accepting_start came cmd_syn_ack).0 q.seq q.timestamp
        (length-replicate {A = ℕ} buf_size 0) refl

-- The first datagram.
module _ (crc : Bytes → ℕ) (crc_u32 : (b : Bytes) → IsU32 (crc b)) (server : SocketAddr)
    (random created opened sent_at : ℕ) (random_u32 : IsU32 random) where
  abbrev pub first : UcpPacket
  first =
      stamped (client_stream server random created opened) sent_at
        (syn server random created opened)

  pub first-Sent :
      millis_since sent_at created < heartbeat_interval_millis
      → Sent crc
          (client_stream server random created opened)
          sent_at
          (syn server random created opened)
          (client_opening crc server random created opened sent_at)
  unfolding new new_packet
  first-Sent soon =
      subst
        (λ s.
          Sent crc (client_stream server random created opened) sent_at
            (syn server random created opened) (output crc s sent_at))
        (sym (connecting-waiting server random created opened))
        (output-Sent crc (client_stream server random created opened) sent_at
          (syn server random created opened) soon (omega (arith, soon)) (omega arith))

  first-IsWellFormed : IsWellFormed first
  unfolding new new_packet new_ucp_packet
  first-IsWellFormed = record {
    buf_full = length-replicate {A = ℕ} buf_size 0;
    payload_fits = omega arith;
    session_id_u32 = random_u32;
    timestamp_u32 = omega arith;
    window_u32 = omega arith;
    xmit_u32 = omega arith;
    una_u32 = omega arith;
    seq_u32 = omega arith;
    cmd_u8 = omega arith;
  }

  abbrev pub first_arrived : UcpPacket
  first_arrived = arrived crc (sent crc first)

  pub first_arrives :
      Carries first first_arrived × Accepted crc (sent crc first) × IsReadable first_arrived
  unfolding new_packet
  first_arrives = sent_arrives crc crc_u32 first first-IsWellFormed refl

-- The second, of a server that got the first one as `q`.
module _ (crc : Bytes → ℕ) (crc_u32 : (b : Bytes) → IsU32 (crc b)) (client : SocketAddr)
    (created came sent_at : ℕ) (q : UcpPacket) (window_u32 : IsU32 q.window) (room : 0 < q.window)
    (session_u32 : IsU32 q.session_id) where
  abbrev pub second : UcpPacket
  second = stamped (server_stream client created came q) sent_at (answer client created came q)

  abbrev server_answering : InnerStream
  server_answering = output crc (accepting (new client new_metrics created) came q) sent_at

  pub second-Sent :
      millis_since sent_at created < heartbeat_interval_millis
      → Sent crc
          (server_stream client created came q)
          sent_at
          (answer client created came q)
          server_answering
  unfolding new new_packet
  second-Sent soon =
      subst
        (λ s.
          Sent crc (server_stream client created came q) sent_at (answer client created came q)
            (output crc s sent_at))
        (sym (accepting-waiting client created came q))
        (output-Sent crc (server_stream client created came q) sent_at
          (answer client created came q) soon (omega (arith, soon)) room)

  second_is :
      second
      ≡ record (stamped
          (server_stream client created came q)
          sent_at
          (new_packet (accepting_start client created came q) came cmd_syn_ack).0) {
            buf = second.buf;
            payload = 8;
          }
  second_is =
      ap (stamped (server_stream client created came q) sent_at)
        (answer-Replies client created came q).is_written

  second-IsWellFormed : IsWellFormed second
  unfolding new new_packet new_ucp_packet
  second-IsWellFormed = subst IsWellFormed (sym second_is) (record {
    buf_full = (answer-Replies client created came q).buf_full;
    payload_fits = omega arith;
    session_id_u32 = session_u32;
    timestamp_u32 = omega arith;
    window_u32 = omega arith;
    xmit_u32 = omega arith;
    una_u32 = omega arith;
    seq_u32 = omega arith;
    cmd_u8 = omega arith;
  })

  abbrev second_arrived : UcpPacket
  second_arrived = arrived crc (sent crc second)

  pub second_fields :
      (second.session_id ≡ q.session_id)
      × (second.seq ≡ 1)
      × (second.cmd ≡ cmd_syn_ack)
      × (second.payload ≡ 8)
  unfolding new new_packet
  second_fields = (
    ap (λ p. p.session_id) second_is,
    ap (λ p. p.seq) second_is,
    ap (λ p. p.cmd) second_is,
    ap (λ p. p.payload) second_is,
  )

  pub second_arrives :
      Carries second second_arrived × Accepted crc (sent crc second) × IsReadable second_arrived
  second_arrives = sent_arrives crc crc_u32 second second-IsWellFormed (rw second_fields.2 refl)
