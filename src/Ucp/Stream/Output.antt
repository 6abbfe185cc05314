-- ===== src/Ucp/Stream/Output.antt =====
-- src/ucp/internal.rs: what a stream sends every 10 milliseconds, `output` and its steps.
pub mod Window
pub mod Resend
pub mod Alive
use stunnel.Base.{
  ℕ, zero, suc, ◌+◌, ◌-◌, Bool, true, false, not, ◌&&◌, ◌||◌, Option, none, some, List, [], ◌∷◌,
  ◌++◌, Bytes, length, ltb, leb, ◌==◌, if◌then◌else◌, add_u32, sub_u32, millis_since,
}
use stunnel.Ucp.{cmd_heartbeat, heartbeat_interval_millis, skip_resend_times}
use stunnel.Ucp.Packet.{UcpPacket}
use stunnel.Ucp.Stream.{
  InnerStream, timestamp, new_noseq_packet, send_packet_directly, check_if_alive, die,
  try_wake_writer, update_metrics,
}
use stunnel.Ucp.Stream.Ack.{send_ack_list}

unfoldable pub do_heartbeat : (Bytes → ℕ) → InnerStream → ℕ → InnerStream
do_heartbeat crc s now =
    if leb heartbeat_interval_millis (millis_since now s.heartbeat)
    then record (send_packet_directly crc s (new_noseq_packet s now cmd_heartbeat)) {
      heartbeat = now;
    }
    else s

-- `send_packet_directly` on each packet of a list.
unfoldable pub send_all : (Bytes → ℕ) → InnerStream → List UcpPacket → InnerStream
send_all crc s [] = s
send_all crc s (packet ∷ packets) = send_all crc (send_packet_directly crc s packet) packets

-- The test of `timeout_resend`.
abbrev pub is_due : InnerStream → ℕ → UcpPacket → Bool
is_due s now packet =
    leb s.rto (sub_u32 (timestamp s now) packet.timestamp)
    || leb skip_resend_times packet.skip_times

-- A packet as it is sent again.
abbrev pub refreshed : InnerStream → ℕ → UcpPacket → UcpPacket
refreshed s now packet = record packet {
  skip_times = 0;
  window = s.local_window;
  una = s.una;
  timestamp = timestamp s now;
  xmit = add_u32 packet.xmit 1;
}

-- The loop over the send queue: the queue then, and the packets to send again.
unfoldable pub resend_scan : InnerStream → ℕ → List UcpPacket → List UcpPacket × List UcpPacket
resend_scan s now [] = ([], [])
resend_scan s now (packet ∷ queue) =
    let (later, resend) = resend_scan s now queue in
    if is_due s now packet
    then (refreshed s now packet ∷ later, refreshed s now packet ∷ resend)
    else (packet ∷ later, resend)

unfoldable pub timeout_resend : (Bytes → ℕ) → InnerStream → ℕ → InnerStream
timeout_resend crc s now =
    let (queue, resend) = resend_scan s now s.send_queue in
    send_all crc (record s { send_queue = queue }) resend

-- A packet as it is sent the first time.
abbrev pub stamped : InnerStream → ℕ → UcpPacket → UcpPacket
stamped s now packet = record packet {
  window = s.local_window;
  una = s.una;
  timestamp = timestamp s now;
}

-- The test by which a packet at the front of the send buffer waits: too far ahead of the oldest
-- packet that is not acknowledged.
abbrev pub too_far : ℕ → List UcpPacket → UcpPacket → Bool
too_far window [] packet = false
too_far window (oldest ∷ _) packet = leb window (sub_u32 packet.seq oldest.seq)

pub record Pending : Type 0 where
  pub queue : List UcpPacket
  pub buffer : List UcpPacket
  pub pending : List UcpPacket

-- The loop of `send_pending_packets` over the send buffer.
unfoldable pub pending_scan : InnerStream → ℕ → Pending → List UcpPacket → Pending
pending_scan s now p [] = record p { buffer = [] }
pending_scan s now p (packet ∷ buffer) =
    let moved = record p {
      queue = p.queue ++ stamped s now packet ∷ [];
      pending = p.pending ++ stamped s now packet ∷ [];
    } in
    let later = pending_scan s now moved buffer in
    if ltb (length p.queue) s.remote_window && not (too_far s.remote_window p.queue packet)
    then later
    else record p { buffer = packet ∷ buffer }

unfoldable pub send_pending_packets : (Bytes → ℕ) → InnerStream → ℕ → InnerStream
send_pending_packets crc s now =
    let start : Pending = record { queue = s.send_queue; buffer = []; pending = [] } in
    let p = pending_scan s now start s.send_buffer in
    let s' = record s { send_queue = p.queue; send_buffer = p.buffer } in
    try_wake_writer (send_all crc s' p.pending)

unfoldable pub output : (Bytes → ℕ) → InnerStream → ℕ → InnerStream
output crc s now =
    let beaten = do_heartbeat crc s now in
    let acked = send_ack_list crc beaten now in
    let resent = timeout_resend crc acked now in
    update_metrics (if check_if_alive s now then send_pending_packets crc resent now else die s)
