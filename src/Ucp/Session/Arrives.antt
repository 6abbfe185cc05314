-- ===== src/Ucp/Session/Arrives.antt =====
-- src/ucp/packet.rs, src/ucp/internal.rs: a packet as it is stamped, sent and parsed.
use stunnel.Base.{
  ℕ, ◌≤◌, ◌≡◌, ◌∙◌, true, ◌&&◌, Bytes, IsU32, length, leb, be_u32, length-append, length-be_u32,
  arith,
}
use stunnel.Ucp.{cmd_syn, cmd_heartbeat_ack}
use stunnel.Ucp.Packet.{UcpPacket, IsWellFormed, buf_size, pack, packed_buffer, parse, received}
use stunnel.Ucp.Packet.Wire.{body, length-body, packed_buffer-pack}
use stunnel.Ucp.Packet.RoundTrip.{Carries, parse-pack}
use stunnel.Ucp.Packet.Arrival.{parse-IsArrived}
use stunnel.Ucp.Packet.Payload.{IsReadable}

abbrev pub sent : (Bytes → ℕ) → UcpPacket → Bytes
sent crc p = packed_buffer (pack crc p)

module _ (crc : Bytes → ℕ) (crc_u32 : (b : Bytes) → IsU32 (crc b)) (p : UcpPacket)
    (wf : IsWellFormed p) where
  sent_fits : length (sent crc p) ≤ buf_size
  sent_fits = rw (packed_buffer-pack crc p wf.buf_full wf.payload_fits) (
      omega (
        arith,
        length-append (be_u32 (crc (body p))) (body p),
        length-be_u32 (crc (body p)),
        length-body p wf.buf_full wf.payload_fits,
        wf.payload_fits,
      ))

  -- A packet with a command is accepted, with its fields and its payload.
  pub sent_arrives :
      (leb cmd_syn p.cmd && leb p.cmd cmd_heartbeat_ack) ≡ true
      → let r = parse crc (received (sent crc p)) in Carries p r.0 × (r.1 ≡ true) × IsReadable r.0
  sent_arrives known =
      let (carries, legal) = parse-pack crc crc_u32 p wf in
      (
        carries,
        legal ∙ known,
        (parse-IsArrived crc (sent crc p) sent_fits (legal ∙ known)).readable,
      )
