-- ===== src/Ucp/Session/Acknowledges.antt =====
-- src/ucp/internal.rs: the third datagram of a handshake, the client's acknowledgement.
use stunnel.Base.{ℕ, ◌≡◌, refl, sym, ap, subst, Bytes, IsU32, length-replicate, arith}
use stunnel.Ucp.{cmd_ack}
use stunnel.Ucp.Packet.{UcpPacket, IsWellFormed, buf_size, new as new_ucp_packet}
use stunnel.Ucp.Packet.Payload.{IsReadable}
use stunnel.Ucp.Packet.RoundTrip.{Carries}
use stunnel.Ucp.Stream.{InnerStream, new_noseq_packet}
use stunnel.Ucp.Session.Datagrams.{arrived, Accepted}
use stunnel.Ucp.Session.Arrives.{sent, sent_arrives}
use stunnel.Ucp.Session.Replies.{replying, Replies, replying-Replies}

-- The third, of a client that got the second one as `q`.
module _ (crc : Bytes → ℕ) (crc_u32 : (b : Bytes) → IsU32 (crc b)) (s : InnerStream) (now : ℕ)
    (q : UcpPacket) (session_u32 : IsU32 s.session_id) (window_u32 : IsU32 s.local_window)
    (una_u32 : IsU32 s.una) where
  abbrev pub third : UcpPacket
  third = replying q.seq q.timestamp (new_noseq_packet s now cmd_ack)

  pub third-Replies : Replies (new_noseq_packet s now cmd_ack) q.seq q.timestamp third
  unfolding new_noseq_packet new_ucp_packet
  third-Replies =
      replying-Replies (new_noseq_packet s now cmd_ack) q.seq q.timestamp
        (length-replicate {A = ℕ} buf_size 0) refl

  third_is : third ≡ record (new_noseq_packet s now cmd_ack) { buf = third.buf; payload = 8 }
  third_is = third-Replies.is_written

  third-IsWellFormed : IsWellFormed third
  unfolding new_noseq_packet new_ucp_packet
  third-IsWellFormed = subst IsWellFormed (sym third_is) (record {
    buf_full = third-Replies.buf_full;
    payload_fits = omega arith;
    session_id_u32 = session_u32;
    timestamp_u32 = omega arith;
    window_u32 = window_u32;
    xmit_u32 = omega arith;
    una_u32 = una_u32;
    seq_u32 = omega arith;
    cmd_u8 = omega arith;
  })

  pub third_fields : (third.session_id ≡ s.session_id) × (third.cmd ≡ cmd_ack) × (third.payload ≡ 8)
  unfolding new_noseq_packet
  third_fields =
      (ap (λ p. p.session_id) third_is, ap (λ p. p.cmd) third_is, ap (λ p. p.payload) third_is)

  pub third_arrives :
      let r = arrived crc (sent crc third) in
      Carries third r × Accepted crc (sent crc third) × IsReadable r
  third_arrives = sent_arrives crc crc_u32 third third-IsWellFormed (rw third_fields.1 refl)
