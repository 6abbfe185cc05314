-- ===== src/Ucp/Stream/Machine.antt =====
-- src/ucp/internal.rs: the state machine of a connection, `connecting`, `accepting`, `processing` and the
-- entry points `input`, `poll_read` and `poll_write`. An `Option` is `none` where the source panics.
pub mod Keeps
pub mod Safety
pub mod Polls
use stunnel.Base.{
  ◌>>=◌, ℕ, not, ◌&&◌, Option, some, Bytes, length, ◌==◌, if◌then◌else◌, add_u32, SocketAddr,
  addr_eq,
}
use stunnel.Ucp.{cmd_syn, cmd_syn_ack, cmd_ack, cmd_data, cmd_heartbeat, cmd_heartbeat_ack}
use stunnel.Ucp.State.{UcpState}
use stunnel.Ucp.Packet.{UcpPacket, is_syn, payload_read_u32, payload_write_u32}
use stunnel.Ucp.Stream.{
  InnerStream, new_packet, new_noseq_packet, send_packet, send_packet_directly,
  is_send_buffer_overflow,
}
use stunnel.Ucp.Stream.Recv.{process_data, recv}
use stunnel.Ucp.Stream.Send.{send}
use stunnel.Ucp.Stream.Ack.{process_una, process_an_ack, process_ack}

-- `random` is the session id that the random number generator gives.
unfoldable pub connecting : InnerStream → ℕ → ℕ → InnerStream
connecting s now random =
    let s' = record s { state = UcpState.connecting; session_id = random } in
    let (syn, s'') = new_packet s' now cmd_syn in send_packet s'' syn

unfoldable pub accepting : InnerStream → ℕ → UcpPacket → InnerStream
accepting s now packet =
    let s' = record s {
      state = UcpState.accepting;
      session_id = packet.session_id;
      una = add_u32 packet.seq 1;
      remote_window = packet.window;
    } in
    let (syn_ack, s'') = new_packet s' now cmd_syn_ack in
    send_packet s'' (payload_write_u32 (payload_write_u32 syn_ack packet.seq).0 packet.timestamp).0

unfoldable pub process_state_accepting : InnerStream → ℕ → UcpPacket → Option InnerStream
process_state_accepting s now packet =
    if packet.cmd == cmd_ack && packet.payload == 8
    then (do
      (seq, packet') ← payload_read_u32 packet
      (acked, packet'') ← payload_read_u32 packet'
      let (s', found) = process_an_ack s now seq acked
      some (if found then record s' { state = UcpState.established } else s'))
    else some s

-- What `process_syn_ack` does in a state, behind the acknowledgement that it sends.
unfoldable pub establish : UcpState → InnerStream → ℕ → UcpPacket → ℕ → ℕ → InnerStream
establish UcpState.connecting s now packet seq acked =
    let (s', found) = process_an_ack s now seq acked in
    if found then record s' { state = UcpState.established; una = add_u32 packet.seq 1 } else s'
establish _ s now packet seq acked = s

unfoldable pub process_syn_ack : (Bytes → ℕ) → InnerStream → ℕ → UcpPacket → Option InnerStream
process_syn_ack crc s now packet =
    if packet.cmd == cmd_syn_ack && packet.payload == 8
    then (do
      (seq, packet') ← payload_read_u32 packet
      (acked, packet'') ← payload_read_u32 packet'
      let ack = new_noseq_packet s now cmd_ack
      let ack' = (payload_write_u32 (payload_write_u32 ack packet.seq).0 packet.timestamp).0
      some (establish s.state (send_packet_directly crc s ack') now packet seq acked))
    else some s

abbrev pub process_heartbeat : (Bytes → ℕ) → InnerStream → ℕ → InnerStream
process_heartbeat crc s now = send_packet_directly crc s (new_noseq_packet s now cmd_heartbeat_ack)

abbrev pub process_heartbeat_ack : InnerStream → ℕ → InnerStream
process_heartbeat_ack s now = record s { alive_time = now }

unfoldable pub process_state_established :
    (Bytes → ℕ) → InnerStream → ℕ → UcpPacket → Option InnerStream
process_state_established crc s now packet =
    let s' = process_una s packet.una in
    if packet.cmd == cmd_ack
    then process_ack s' now packet
    else if packet.cmd == cmd_data
    then some (process_data s' packet)
    else if packet.cmd == cmd_syn_ack
    then process_syn_ack crc s' now packet
    else if packet.cmd == cmd_heartbeat
    then some (process_heartbeat crc s' now)
    else if packet.cmd == cmd_heartbeat_ack
    then some (process_heartbeat_ack s' now)
    else some s'

unfoldable pub process_state :
    UcpState → (Bytes → ℕ) → InnerStream → ℕ → UcpPacket → Option InnerStream
process_state UcpState.accepting crc s now packet = process_state_accepting s now packet
process_state UcpState.connecting crc s now packet = process_syn_ack crc s now packet
process_state UcpState.established crc s now packet = process_state_established crc s now packet
process_state UcpState.none crc s now packet = some s

unfoldable pub processing : (Bytes → ℕ) → InnerStream → ℕ → UcpPacket → Option InnerStream
processing crc s now packet =
    if s.session_id == packet.session_id
    then process_state s.state crc (record s { alive_time = now; remote_window = packet.window })
        now packet
    else some s

unfoldable pub input_in : UcpState → (Bytes → ℕ) → InnerStream → ℕ → UcpPacket → Option InnerStream
input_in UcpState.none crc s now packet = some (if is_syn packet then accepting s now packet else s)
input_in _ crc s now packet = processing crc s now packet

unfoldable pub input : (Bytes → ℕ) → InnerStream → ℕ → UcpPacket → SocketAddr → Option InnerStream
input crc s now packet remote_addr =
    if addr_eq s.remote_addr remote_addr then input_in s.state crc s now packet else some s

pub data Poll : Type 0 where
  pending : Poll
  failed : Poll
  ready : Bytes → Poll
  written : ℕ → Poll

-- A read of 0 bytes waits, and leaves the caller's waker.
unfoldable pub poll_read : InnerStream → ℕ → ℕ → Poll × InnerStream
poll_read s waker room =
    let (bs, s') = recv s room in
    if not s.alive
    then (failed, s)
    else if length bs == 0
    then (pending, record s' { read_waker = some waker })
    else (ready bs, s')

-- The source's `Poll::Ready(Ok(buf.len()))` is `written (length buf)`.
unfoldable pub poll_write : InnerStream → ℕ → ℕ → Bytes → Poll × InnerStream
poll_write s now waker buf =
    if not s.alive
    then (failed, s)
    else if is_send_buffer_overflow s
    then (pending, record s { write_waker = some waker })
    else (written (length buf), send s now buf)
