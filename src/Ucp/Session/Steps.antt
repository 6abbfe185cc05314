-- ===== src/Ucp/Session/Steps.antt =====
-- src/ucp/internal.rs: what `input` does with each of the three datagrams that open a session.
use stunnel.Base.{
  ℕ, ◌≡◌, ◌≢◌, refl, ap, ◌∙◌, true, ◌&&◌, some, [], ◌∷◌, Bytes, ◌==◌, ==-self, if_then, add_u32,
  sub_u32, arith,
}
use stunnel.Ucp.{cmd_syn, cmd_syn_ack, cmd_ack}
use stunnel.Ucp.State.{UcpState}
use stunnel.Ucp.Packet.{UcpPacket, payload_read_u32}
use stunnel.Ucp.Stream.{InnerStream, timestamp, update_rto, new_noseq_packet, send_packet_directly}
use stunnel.Ucp.Stream.Ack.{ack_scan, process_an_ack}
use stunnel.Ucp.Stream.Machine.{
  accepting, process_state_accepting, establish, process_syn_ack, process_state, processing,
  input_in, input,
}
use stunnel.Ucp.Listener.Addresses.{addr_eq_self}
use stunnel.Ucp.Session.Replies.{replying}

-- The only packet of the send queue is acknowledged.
abbrev pub acked_only : InnerStream → ℕ → ℕ → InnerStream
acked_only s now acked = record (update_rto s (sub_u32 (timestamp s now) acked)) { send_queue = [] }

process_an_ack_only :
    (s : InnerStream) (now acked : ℕ) (p : UcpPacket)
    → s.send_queue ≡ p ∷ []
    → process_an_ack s now p.seq acked ≡ (acked_only s now acked, true)
unfolding process_an_ack ack_scan update_rto
process_an_ack_only s now acked p e = rw (e, ==-self p.seq) refl

-- The stream has a session with the peer, and nothing to send again.
pub record Established (s : InnerStream) (una : ℕ) (s' : InnerStream) : Type 0 where
  pub state_is : s'.state ≡ UcpState.established
  pub session_id_is : s'.session_id ≡ s.session_id
  pub una_is : s'.una ≡ una
  pub send_queue_is : s'.send_queue ≡ []

module _ (crc : Bytes → ℕ) (s : InnerStream) (now : ℕ) (q p : UcpPacket) (acked : ℕ)
    (q' q'' : UcpPacket) (same_session : s.session_id ≡ q.session_id)
    (queued : s.send_queue ≡ p ∷ []) (whole : q.payload ≡ 8)
    (read : payload_read_u32 q ≡ some (p.seq, q'))
    (read' : payload_read_u32 q' ≡ some (acked, q'')) where
  abbrev touched : InnerStream
  touched = record s { alive_time = now; remote_window = q.window }

  abbrev pub ack : UcpPacket
  ack = replying q.seq q.timestamp (new_noseq_packet s now cmd_ack)

  input_in-busy :
      (state : UcpState)
      → state ≢ UcpState.none
      → input_in state crc s now q ≡ processing crc s now q
  unfolding input_in
  input_in-busy UcpState.none busy = absurd (busy refl)
  input_in-busy UcpState.accepting busy = refl
  input_in-busy UcpState.connecting busy = refl
  input_in-busy UcpState.established busy = refl

  -- The packet is of the session, and goes to what the state does with it.
  input-state :
      (state : UcpState)
      → s.state ≡ state
      → state ≢ UcpState.none
      → input crc s now q s.remote_addr ≡ process_state state crc touched now q
  unfolding input processing
  input-state state at busy =
      if_then _ _ _ (addr_eq_self s.remote_addr)
      ∙ ap (λ st. input_in st crc s now q) at
      ∙ input_in-busy state busy
      ∙ if_then (s.session_id == q.session_id) _ (some s) (rw same_session (==-self q.session_id))
      ∙ ap (λ st. process_state st crc touched now q) at

  -- A connecting stream is answered: it is established, and acknowledges the answer.
  abbrev pub client_then : InnerStream
  client_then = record (acked_only (send_packet_directly crc touched ack) now acked) {
    state = UcpState.established;
    una = add_u32 q.seq 1;
  }

  abbrev pub server_then : InnerStream
  server_then = record (acked_only touched now acked) { state = UcpState.established }

  establish-then :
      establish UcpState.connecting (send_packet_directly crc touched ack) now q p.seq acked
      ≡ client_then
  unfolding establish send_packet_directly
  establish-then =
      rw (process_an_ack_only (send_packet_directly crc touched ack) now acked p queued) refl

  process_syn_ack-then :
      s.state ≡ UcpState.connecting
      → q.cmd ≡ cmd_syn_ack
      → process_syn_ack crc touched now q ≡ some client_then
  unfolding process_syn_ack new_noseq_packet
  process_syn_ack-then at is_cmd =
      let test : (q.cmd == cmd_syn_ack && q.payload == 8) ≡ true = ground (arith, is_cmd, whole) in
      rw (test, read, read')
        (ap some (
          ap (λ st. establish st (send_packet_directly crc touched ack) now q p.seq acked) at
          ∙ establish-then))

  pub input-client :
      s.state ≡ UcpState.connecting
      → q.cmd ≡ cmd_syn_ack
      → input crc s now q s.remote_addr ≡ some client_then
  unfolding process_state
  input-client at is_cmd =
      input-state UcpState.connecting at (λ e. cc e) ∙ process_syn_ack-then at is_cmd

  process_state_accepting-then :
      q.cmd ≡ cmd_ack → process_state_accepting touched now q ≡ some server_then
  unfolding process_state_accepting
  process_state_accepting-then is_cmd =
      let test : (q.cmd == cmd_ack && q.payload == 8) ≡ true = ground (arith, is_cmd, whole) in
      rw (test, read, read', process_an_ack_only touched now acked p queued) refl

  pub input-server :
      s.state ≡ UcpState.accepting
      → q.cmd ≡ cmd_ack
      → input crc s now q s.remote_addr ≡ some server_then
  unfolding process_state
  input-server at is_cmd =
      input-state UcpState.accepting at (λ e. cc e) ∙ process_state_accepting-then is_cmd

-- A stream without a session takes that of a packet that opens one.
pub input-opens :
    (crc : Bytes → ℕ) (s : InnerStream) (now : ℕ) (q : UcpPacket)
    → s.state ≡ UcpState.none
    → q.cmd ≡ cmd_syn
    → input crc s now q s.remote_addr ≡ some (accepting s now q)
unfolding input input_in
input-opens crc s now q at is_cmd = rw (addr_eq_self s.remote_addr, at, is_cmd) refl
