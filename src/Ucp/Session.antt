-- ===== src/Ucp/Session.antt =====
-- src/ucp/internal.rs, src/ucp/listener.rs, src/ucp/stream.rs: how two streams open a session, by three datagrams.
pub mod Replies
pub mod Steps
pub mod Arrives
pub mod Datagrams
pub mod Acknowledges
pub mod Run
pub mod Opening
use stunnel.Base.{
  ℕ, ◌+◌, ◌-◌, ◌<◌, ◌≤◌, ◌≡◌, refl, sym, ap, ◌∙◌, subst, not, ◌&&◌, Bool, true, false, Option, none,
  some, List, [], ◌∷◌, ◌++◌, Bytes, length, leb, ltb, lt→leb, lt→ltb, if◌then◌else◌, if_then,
  if_else, add_u32, SocketAddr, millis_since, arith,
}
use stunnel.Ucp.{heartbeat_interval_millis, ucp_stream_broken_millis}
use stunnel.Ucp.State.{UcpState}
use stunnel.Ucp.Packet.{UcpPacket, pack, packed_buffer}
use stunnel.Ucp.Stream.{
  InnerStream, timestamp, send_packet_directly, try_wake_writer, wake_writer, check_if_alive, die,
  update_metrics,
}
use stunnel.Ucp.Stream.Ack.{send_ack_list, send_taken}
use stunnel.Ucp.Stream.Output.{
  do_heartbeat, send_all, resend_scan, timeout_resend, stamped, Pending, pending_scan,
  send_pending_packets, output,
}

-- A stream with nothing in its queues but one packet that waits.
abbrev pub waiting : InnerStream → UcpPacket → InnerStream
waiting s p = record s { send_queue = []; send_buffer = p ∷ []; ack_list = [] }

-- The datagram of the packet as it is sent.
abbrev pub datagram : (Bytes → ℕ) → InnerStream → ℕ → UcpPacket → Bytes
datagram crc s now p = packed_buffer (pack crc (stamped s now p))

pub record Sent (crc : Bytes → ℕ) (s : InnerStream) (now : ℕ) (p : UcpPacket) (s' : InnerStream)
    : Type 0 where
  pub socket_is : s'.socket ≡ s.socket ++ (datagram crc s now p, s.remote_addr) ∷ []
  pub send_queue_is : s'.send_queue ≡ stamped s now p ∷ []
  pub send_buffer_is : s'.send_buffer ≡ []
  pub state_is : s'.state ≡ s.state
  pub session_id_is : s'.session_id ≡ s.session_id
  pub remote_addr_is : s'.remote_addr ≡ s.remote_addr
  pub una_is : s'.una ≡ s.una
  pub local_window_is : s'.local_window ≡ s.local_window

module _ (crc : Bytes → ℕ) (s : InnerStream) (now : ℕ) (p : UcpPacket) where
  abbrev gone_out : InnerStream
  gone_out = record s {
    send_queue = stamped s now p ∷ [];
    send_buffer = [];
    ack_list = [];
    socket = s.socket ++ (datagram crc s now p, s.remote_addr) ∷ [];
  }

  do_heartbeat-waiting :
      millis_since now s.heartbeat < heartbeat_interval_millis
      → do_heartbeat crc (waiting s p) now ≡ waiting s p
  unfolding do_heartbeat
  do_heartbeat-waiting calm =
      if_else _ _ _ (lt→leb heartbeat_interval_millis (millis_since now s.heartbeat) calm)

  send_ack_list-waiting : send_ack_list crc (waiting s p) now ≡ waiting s p
  unfolding send_ack_list send_taken
  send_ack_list-waiting = refl

  timeout_resend-waiting : timeout_resend crc (waiting s p) now ≡ waiting s p
  unfolding timeout_resend resend_scan send_all
  timeout_resend-waiting = refl

  pending_scan-waiting :
      0 < s.remote_window
      → pending_scan (waiting s p) now (record { queue = []; buffer = []; pending = [] }) (p ∷ [])
        ≡ record { queue = stamped s now p ∷ []; buffer = []; pending = stamped s now p ∷ [] }
  unfolding pending_scan
  pending_scan-waiting room = if_then _ _ _ (both (lt→ltb 0 s.remote_window room))
    where
      both : {b : Bool} → b ≡ true → (b && not false) ≡ true
      both e = rw e refl

  try_wake_writer-gone_out : 0 < s.remote_window → try_wake_writer gone_out ≡ wake_writer gone_out
  unfolding try_wake_writer
  try_wake_writer-gone_out room = if_then _ _ _ (ap not (lt→leb s.remote_window 0 room))

  send_pending_packets-waiting :
      0 < s.remote_window → send_pending_packets crc (waiting s p) now ≡ wake_writer gone_out
  unfolding send_pending_packets send_all send_packet_directly
  send_pending_packets-waiting room =
      ap
        (λ (q : Pending). try_wake_writer (
          send_all crc (record (waiting s p) { send_queue = q.queue; send_buffer = q.buffer })
            q.pending))
        (pending_scan-waiting room)
      ∙ try_wake_writer-gone_out room

  -- What `output` does with a stream after `timeout_resend`.
  finish : InnerStream → InnerStream
  finish resent = update_metrics (
      if check_if_alive (waiting s p) now
      then send_pending_packets crc resent now
      else die (waiting s p))

  output-waiting :
      millis_since now s.heartbeat < heartbeat_interval_millis
      → millis_since now s.alive_time < ucp_stream_broken_millis
      → 0 < s.remote_window
      → output crc (waiting s p) now ≡ update_metrics (wake_writer gone_out)
  unfolding output finish
  output-waiting calm alive room =
      ap (λ x. finish (timeout_resend crc (send_ack_list crc x now) now))
        (do_heartbeat-waiting calm)
      ∙ ap (λ x. finish (timeout_resend crc x now)) send_ack_list-waiting
      ∙ ap finish timeout_resend-waiting
      ∙ ap update_metrics (
          if_then _ _ _ (lt→ltb (millis_since now s.alive_time) ucp_stream_broken_millis alive)
          ∙ send_pending_packets-waiting room)

  went : Sent crc s now p (update_metrics (wake_writer gone_out))
  unfolding update_metrics
  went = record {
    socket_is = refl;
    send_queue_is = refl;
    send_buffer_is = refl;
    state_is = refl;
    session_id_is = refl;
    remote_addr_is = refl;
    una_is = refl;
    local_window_is = refl;
  }

  -- An output sends the packet, if the stream is not due for a heartbeat and is not silent for long.
  pub output-Sent :
      millis_since now s.heartbeat < heartbeat_interval_millis
      → millis_since now s.alive_time < ucp_stream_broken_millis
      → 0 < s.remote_window
      → Sent crc s now p (output crc (waiting s p) now)
  output-Sent calm alive room = subst (Sent crc s now p) (sym (output-waiting calm alive room)) went
