-- ===== src/Ucp/Stream.antt =====
-- src/ucp/internal.rs: the state of a UCP connection, `InnerStream`, and its small operations.
-- An operation holds the stream's lock from its first to its last step, so it is a function from
-- state to state. The clock is an argument, read once for each operation.
pub mod Recv
pub mod Send
pub mod Ack
pub mod Output
pub mod Machine
use stunnel.Base.{
  ℕ, ◌+◌, ◌-◌, ◌*◌, ◌/◌, ◌%◌, ◌^◌, Bool, true, false, not, Option, none, some, List, [], ◌∷◌, ◌++◌,
  Bytes, length, leb, ltb, ◌==◌, if◌then◌else◌, add_u32, sub_u32, mul_u32, is_negative_i32,
  SocketAddr, millis_since,
}
use stunnel.Ucp.{default_window, default_rto, ucp_stream_broken_millis}
use stunnel.Ucp.State.{UcpState}
use stunnel.Ucp.Packet.{UcpPacket, new as new_ucp_packet, pack, packed_buffer}

-- `UcpStreamMetrics`: what the stream publishes for the HTTP status page.
pub record UcpStreamMetrics : Type 0 where
  pub send_queue : ℕ
  pub recv_queue : ℕ
  pub send_buffer : ℕ
  pub una : ℕ
  pub rto : ℕ
  pub srtt : ℕ
  pub rttvar : ℕ
  pub rx_seq : ℕ

-- `socket` lists the datagrams handed to the UDP socket so far, and `woken` the wakers called so far.
pub record InnerStream : Type 0 where
  pub socket : List (Bytes × SocketAddr)
  pub woken : List ℕ
  pub alive : Bool
  pub metrics : UcpStreamMetrics
  pub remote_addr : SocketAddr
  pub initial_time : ℕ
  pub alive_time : ℕ
  pub heartbeat : ℕ
  pub state : UcpState
  pub send_queue : List UcpPacket
  pub recv_queue : List UcpPacket
  pub send_buffer : List UcpPacket
  pub read_waker : Option ℕ
  pub write_waker : Option ℕ
  pub ack_list : List (ℕ × ℕ)
  pub session_id : ℕ
  pub local_window : ℕ
  pub remote_window : ℕ
  pub seq : ℕ
  pub una : ℕ
  pub rto : ℕ
  pub srtt : ℕ
  pub rttvar : ℕ

unfoldable pub new_metrics : UcpStreamMetrics
new_metrics = record {
  send_queue = 0;
  recv_queue = 0;
  send_buffer = 0;
  una = 0;
  rto = 0;
  srtt = 0;
  rttvar = 0;
  rx_seq = 0;
}

unfoldable pub new : SocketAddr → UcpStreamMetrics → ℕ → InnerStream
new remote_addr metrics now = record {
  socket = [];
  woken = [];
  alive = true;
  metrics = metrics;
  remote_addr = remote_addr;
  initial_time = now;
  alive_time = now;
  heartbeat = now;
  state = UcpState.none;
  send_queue = [];
  recv_queue = [];
  send_buffer = [];
  read_waker = none;
  write_waker = none;
  ack_list = [];
  session_id = 0;
  local_window = default_window;
  remote_window = default_window;
  seq = 0;
  una = 0;
  rto = default_rto;
  srtt = 0;
  rttvar = 0;
}

abbrev pub called : Option ℕ → List ℕ
called none = []
called (some waker) = waker ∷ []

-- `if let Some(w) = self.read_waker.take() { w.wake() }`
abbrev pub wake_reader : InnerStream → InnerStream
wake_reader s = record s { read_waker = none; woken = s.woken ++ called s.read_waker }

abbrev pub wake_writer : InnerStream → InnerStream
wake_writer s = record s { write_waker = none; woken = s.woken ++ called s.write_waker }

unfoldable pub die : InnerStream → InnerStream
die s = wake_writer (wake_reader (record s { alive = false }))

abbrev pub shutdown : InnerStream → InnerStream
shutdown s = die s

abbrev pub timestamp : InnerStream → ℕ → ℕ
timestamp s now = millis_since now s.initial_time % 2 ^ 32

-- `*seq += 1; *seq`
abbrev pub next_seq : InnerStream → ℕ × InnerStream
next_seq s = (add_u32 s.seq 1, record s { seq = add_u32 s.seq 1 })

unfoldable pub new_packet : InnerStream → ℕ → ℕ → UcpPacket × InnerStream
new_packet s now cmd =
    let (seq, s') = next_seq s in
    (
      record new_ucp_packet {
        session_id = s.session_id;
        timestamp = timestamp s now;
        window = s.local_window;
        seq = seq;
        una = s'.una;
        cmd = cmd;
      },
      s',
    )

unfoldable pub new_noseq_packet : InnerStream → ℕ → ℕ → UcpPacket
new_noseq_packet s now cmd = record new_ucp_packet {
  session_id = s.session_id;
  timestamp = timestamp s now;
  window = s.local_window;
  una = s.una;
  cmd = cmd;
}

unfoldable pub send_packet : InnerStream → UcpPacket → InnerStream
send_packet s packet = record s { send_buffer = s.send_buffer ++ packet ∷ [] }

-- The result of `send_to` is ignored: a datagram that is not sent is one that is lost.
unfoldable pub send_packet_directly : (Bytes → ℕ) → InnerStream → UcpPacket → InnerStream
send_packet_directly crc s packet = record s {
  socket = s.socket ++ (packed_buffer (pack crc packet), s.remote_addr) ∷ [];
}

abbrev pub is_send_buffer_overflow : InnerStream → Bool
is_send_buffer_overflow s = leb s.remote_window (length s.send_buffer)

abbrev pub check_if_alive : InnerStream → ℕ → Bool
check_if_alive s now = ltb (millis_since now s.alive_time) ucp_stream_broken_millis

unfoldable pub try_wake_writer : InnerStream → InnerStream
try_wake_writer s = if not (is_send_buffer_overflow s) then wake_writer s else s

abbrev rx_seq : List UcpPacket → ℕ
rx_seq [] = 0
rx_seq (packet ∷ _) = packet.seq

unfoldable pub update_metrics : InnerStream → InnerStream
update_metrics s = record s {
  metrics = record {
    send_queue = length s.send_queue;
    recv_queue = length s.recv_queue;
    send_buffer = length s.send_buffer;
    una = s.una;
    rto = s.rto;
    srtt = s.srtt;
    rttvar = s.rttvar;
    rx_seq = rx_seq s.recv_queue;
  };
}

-- The smoothed round trip time, in u32 arithmetic.
unfoldable pub update_rto : InnerStream → ℕ → InnerStream
update_rto s rtt =
    let srtt0 = if s.srtt == 0 then rtt else s.srtt in
    let srtt = add_u32 (mul_u32 srtt0 9) rtt / 10 in
    let delta = if ltb srtt rtt then sub_u32 rtt srtt else sub_u32 srtt rtt in
    let rttvar = add_u32 (mul_u32 s.rttvar 3) delta / 4 in
    let rto = add_u32 srtt (mul_u32 4 rttvar) in
    record s { rto = rto; srtt = srtt; rttvar = rttvar }
