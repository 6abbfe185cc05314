-- ===== src/Ucp/Session/Opening.antt =====
-- src/ucp/stream.rs, src/ucp/listener.rs, src/ucp/internal.rs: the three datagrams open a session at both ends.
use stunnel.Base.{
  ℕ, ◌<◌, ◌≡◌, refl, sym, ap, subst, ◌∙◌, some, [], ◌∷◌, ◌++◌, Bytes, IsU32, be_u32, add_u32,
  SocketAddr, millis_since, arith,
}
use stunnel.Ucp.{default_window, cmd_syn, cmd_syn_ack, cmd_ack, heartbeat_interval_millis}
use stunnel.Ucp.Packet.{UcpPacket, unread, payload_read_u32}
use stunnel.Ucp.Packet.Payload.{IsReadable}
use stunnel.Ucp.Packet.RoundTrip.{Carries}
use stunnel.Ucp.Session.{Sent}
use stunnel.Ucp.Stream.{update_rto, send_packet_directly, InnerStream, new, new_metrics, new_packet}
use stunnel.Ucp.Stream.Output.{output}
use stunnel.Ucp.Stream.Machine.{accepting, input}
use stunnel.Ucp.Session.Run.{Times, Opened, InSession, connecting_stream}
use stunnel.Ucp.Session.Datagrams.{
  arrived, Accepted, syn as syn_packet, client_stream as client_start,
  server_stream as server_start, answer, answer-Replies, first, first-Sent, first_arrived,
  first_arrives, second, second-Sent, second_arrives, second_fields,
}
use stunnel.Ucp.Session.Acknowledges.{third, third-Replies, third_arrives, third_fields}
use stunnel.Ucp.Session.Arrives.{sent}
use stunnel.Ucp.Session.Replies.{reads_reply}
use stunnel.Ucp.Session.Steps.{client_then, server_then, input-client, input-server, input-opens}

module _ (crc : Bytes → ℕ) (crc_u32 : (b : Bytes) → IsU32 (crc b)) (client server : SocketAddr)
    (random : ℕ) (random_u32 : IsU32 random) (c s : Times)
    (soon : millis_since c.sent_at c.created < heartbeat_interval_millis)
    (soon' : millis_since s.sent_at s.created < heartbeat_interval_millis) where
  abbrev p1 : UcpPacket
  p1 = first crc crc_u32 server random c.created c.begun c.sent_at random_u32

  abbrev q1 : UcpPacket
  q1 = first_arrived crc crc_u32 server random c.created c.begun c.sent_at random_u32

  abbrev c1 : InnerStream
  c1 = connecting_stream crc client server random c s

  c1-Sent :
      Sent crc
        (client_start server random c.created c.begun)
        c.sent_at
        (syn_packet server random c.created c.begun)
        c1
  c1-Sent = first-Sent crc crc_u32 server random c.created c.begun c.sent_at random_u32 soon

  q1_arrives : Carries p1 q1 × Accepted crc (sent crc p1) × IsReadable q1
  q1_arrives = first_arrives crc crc_u32 server random c.created c.begun c.sent_at random_u32

  q1_fields :
      (q1.session_id ≡ random)
      × (q1.seq ≡ 1)
      × (q1.window ≡ default_window)
      × (q1.cmd ≡ cmd_syn)
      × IsU32 q1.timestamp
  unfolding new new_packet
  q1_fields =
      let carries = q1_arrives.0 in
      (
        carries.session_id_is,
        carries.seq_is,
        carries.window_is,
        carries.cmd_is,
        rw carries.timestamp_is (omega arith),
      )

  q1-window-IsU32 : IsU32 q1.window
  q1-window-IsU32 = rw q1_fields.2 (omega arith)

  q1_room : 0 < q1.window
  q1_room = rw q1_fields.2 (omega arith)

  q1-session-IsU32 : IsU32 q1.session_id
  q1-session-IsU32 = rw q1_fields.0 random_u32

  abbrev s0 : InnerStream
  s0 = new client new_metrics s.created

  abbrev s1 : InnerStream
  s1 = accepting s0 s.begun q1

  abbrev s2 : InnerStream
  s2 = output crc s1 s.sent_at

  input_syn : input crc s0 s.begun q1 client ≡ some s1
  unfolding new
  input_syn = input-opens crc s0 s.begun q1 refl q1_fields.3

  abbrev p2 : UcpPacket
  p2 =
      second crc crc_u32 client s.created s.begun s.sent_at q1 q1-window-IsU32 q1_room
        q1-session-IsU32

  abbrev q2 : UcpPacket
  q2 = arrived crc (sent crc p2)

  s2-Sent :
      Sent crc
        (server_start client s.created s.begun q1)
        s.sent_at
        (answer client s.created s.begun q1)
        s2
  s2-Sent =
      second-Sent crc crc_u32 client s.created s.begun s.sent_at q1 q1-window-IsU32 q1_room
        q1-session-IsU32 soon'

  q2_arrives : Carries p2 q2 × Accepted crc (sent crc p2) × IsReadable q2
  q2_arrives =
      second_arrives crc crc_u32 client s.created s.begun s.sent_at q1 q1-window-IsU32 q1_room
        q1-session-IsU32

  q2_fields :
      (q2.session_id ≡ random)
      × (q2.seq ≡ 1)
      × (q2.cmd ≡ cmd_syn_ack)
      × (q2.payload ≡ 8)
      × IsU32 q2.timestamp
  q2_fields =
      let (carries, legal, ok) = q2_arrives in
      let fields =
        second_fields crc crc_u32 client s.created s.begun s.sent_at q1 q1-window-IsU32 q1_room
          q1-session-IsU32 in
      (
        carries.session_id_is ∙ fields.0 ∙ q1_fields.0,
        carries.seq_is ∙ fields.1,
        carries.cmd_is ∙ fields.2,
        carries.payload_is ∙ fields.3,
        rw carries.timestamp_is (omega arith),
      )

  q2_unread : unread q2 ≡ be_u32 p1.seq ++ be_u32 q1.timestamp
  q2_unread =
      q2_arrives.0.unread_is
      ∙ (answer-Replies client s.created s.begun q1).bytes_are
      ∙ ap (λ n. be_u32 n ++ be_u32 q1.timestamp) q1_arrives.0.seq_is

  q2_read :
      (q' : UcpPacket) × (q'' : UcpPacket) × (payload_read_u32 q2 ≡ some (p1.seq, q'))
      × (payload_read_u32 q' ≡ some (q1.timestamp, q''))
  unfolding new_packet new
  q2_read = reads_reply q2 p1.seq q1.timestamp q2_arrives.2 (omega arith) q1_fields.4 q2_unread

  c1_session : c1.session_id ≡ random
  unfolding new_packet
  c1_session = c1-Sent.session_id_is

  abbrev c2 : InnerStream
  c2 =
      client_then crc c1 c.ended q2 p1 q1.timestamp q2_read.0 q2_read.1
        (c1_session ∙ sym q2_fields.0) c1-Sent.send_queue_is q2_fields.3 q2_read.2 q2_read.3

  input_syn_ack : input crc c1 c.ended q2 server ≡ some c2
  unfolding new_packet new
  input_syn_ack =
      subst (λ a. input crc c1 c.ended q2 a ≡ some c2) c1-Sent.remote_addr_is
        (input-client crc c1 c.ended q2 p1 q1.timestamp q2_read.0 q2_read.1
          (c1_session ∙ sym q2_fields.0) c1-Sent.send_queue_is q2_fields.3 q2_read.2 q2_read.3
          c1-Sent.state_is q2_fields.2)

  c2_is : InSession random c2
  unfolding update_rto send_packet_directly
  c2_is = record {
    state_is = refl;
    session_id_is = c1_session;
    una_is = ap (λ n. add_u32 n 1) q2_fields.1;
    send_queue_is = refl;
  }

  c1-session-IsU32 : IsU32 c1.session_id
  c1-session-IsU32 = rw c1_session random_u32

  c1-window-IsU32 : IsU32 c1.local_window
  unfolding new new_packet
  c1-window-IsU32 = rw c1-Sent.local_window_is (omega arith)

  c1-una-IsU32 : IsU32 c1.una
  unfolding new new_packet
  c1-una-IsU32 = rw c1-Sent.una_is (omega arith)

  abbrev p3 : UcpPacket
  p3 = third crc crc_u32 c1 c.ended q2 c1-session-IsU32 c1-window-IsU32 c1-una-IsU32

  abbrev q3 : UcpPacket
  q3 = arrived crc (sent crc p3)

  q3_arrives : Carries p3 q3 × Accepted crc (sent crc p3) × IsReadable q3
  q3_arrives = third_arrives crc crc_u32 c1 c.ended q2 c1-session-IsU32 c1-window-IsU32 c1-una-IsU32

  c1_socket : c1.socket ≡ (sent crc p1, server) ∷ []
  unfolding new new_packet
  c1_socket = c1-Sent.socket_is

  c2_socket : c2.socket ≡ (sent crc p1, server) ∷ (sent crc p3, server) ∷ []
  unfolding update_rto send_packet_directly new new_packet
  c2_socket =
      ap (λ a. c1.socket ++ (sent crc p3, a) ∷ []) c1-Sent.remote_addr_is
      ∙ ap (λ l. l ++ (sent crc p3, server) ∷ []) c1_socket

  q3_fields : (q3.session_id ≡ random) × (q3.cmd ≡ cmd_ack) × (q3.payload ≡ 8)
  q3_fields =
      let (carries, legal, ok) = q3_arrives in
      let fields =
        third_fields crc crc_u32 c1 c.ended q2 c1-session-IsU32 c1-window-IsU32 c1-una-IsU32 in
      (
        carries.session_id_is ∙ fields.0 ∙ c1_session,
        carries.cmd_is ∙ fields.1,
        carries.payload_is ∙ fields.2,
      )

  q3_unread : unread q3 ≡ be_u32 p2.seq ++ be_u32 q2.timestamp
  q3_unread =
      q3_arrives.0.unread_is
      ∙ (third-Replies crc crc_u32 c1 c.ended q2 c1-session-IsU32 c1-window-IsU32
          c1-una-IsU32).bytes_are
      ∙ ap (λ n. be_u32 n ++ be_u32 q2.timestamp) q2_arrives.0.seq_is

  p2_seq : p2.seq ≡ 1
  p2_seq = sym q2_arrives.0.seq_is ∙ q2_fields.1

  q3_read :
      (q' : UcpPacket) × (q'' : UcpPacket) × (payload_read_u32 q3 ≡ some (p2.seq, q'))
      × (payload_read_u32 q' ≡ some (q2.timestamp, q''))
  q3_read =
      reads_reply q3 p2.seq q2.timestamp q3_arrives.2 (rw p2_seq (omega arith)) q2_fields.4
        q3_unread

  s2_session : s2.session_id ≡ random
  unfolding new_packet
  s2_session = s2-Sent.session_id_is ∙ q1_fields.0

  abbrev s3 : InnerStream
  s3 =
      server_then crc s2 s.ended q3 p2 q2.timestamp q3_read.0 q3_read.1
        (s2_session ∙ sym q3_fields.0) s2-Sent.send_queue_is q3_fields.2 q3_read.2 q3_read.3

  input_ack : input crc s2 s.ended q3 client ≡ some s3
  unfolding new_packet new
  input_ack =
      subst (λ a. input crc s2 s.ended q3 a ≡ some s3) s2-Sent.remote_addr_is
        (input-server crc s2 s.ended q3 p2 q2.timestamp q3_read.0 q3_read.1
          (s2_session ∙ sym q3_fields.0) s2-Sent.send_queue_is q3_fields.2 q3_read.2 q3_read.3
          s2-Sent.state_is q3_fields.1)

  s2_una : s2.una ≡ 2
  unfolding new_packet
  s2_una = s2-Sent.una_is ∙ ap (λ n. add_u32 n 1) q1_fields.1

  s3_is : InSession random s3
  unfolding update_rto
  s3_is = record {
    state_is = refl;
    session_id_is = s2_session;
    una_is = s2_una;
    send_queue_is = refl;
  }

  s2_socket : s2.socket ≡ (sent crc p2, client) ∷ []
  unfolding new new_packet
  s2_socket = s2-Sent.socket_is

  -- In the handshake each end sends what the other takes: with a checksum of 32 bits and a first
  -- output within the heartbeat's interval at each end, the client's first output is one datagram,
  -- which makes a new stream of the server accept; the first output of that is one datagram, which
  -- establishes the client's stream and makes it send one more, which establishes the server's. Both
  -- streams have the client's random session id then, expect the packet 2, and have nothing left to
  -- send again.
  pub opens_session : Opened crc client server random c s
  opens_session = record {
    syn = sent crc p1;
    syn_ack = sent crc p2;
    ack = sent crc p3;
    accepting_stream = s1;
    client_stream = c2;
    server_stream = s3;
    sends_syn = c1_socket;
    takes_syn = (q1_arrives.1, input_syn);
    sends_syn_ack = s2_socket;
    takes_syn_ack = (q2_arrives.1, input_syn_ack);
    sends_ack = c2_socket;
    takes_ack = (q3_arrives.1, input_ack);
    client_is = c2_is;
    server_is = s3_is;
  }
