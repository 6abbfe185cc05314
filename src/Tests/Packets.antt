-- ===== src/Tests/Packets.antt =====
-- src/ucp/packet.rs: the theorems on packets, applied to a packet and a datagram.
use stunnel.Base.{
  ℕ, ◌+◌, ◌≤◌, ◌<◌, min, ◌≡◌, refl, ◌⊎◌, true, false, ◌&&◌, [], ◌∷◌, ◌++◌, ◌∙◌, from_be, Bytes,
  length, leb, be_u32, replicate, splice, length-splice, length-replicate, arith,
}
use stunnel.Ucp.{cmd_syn, cmd_data, cmd_heartbeat_ack, ucp_packet_meta_size}
use stunnel.Ucp.Packet.{
  UcpPacket, IsWellFormed, new, buf_size, is_legal, parse, parse_header, pack, packed_buffer,
  received, payload_bytes, payload_write_slice, payload_read_slice, unread,
}
use stunnel.Ucp.Packet.Wire.{body}
use stunnel.Ucp.Packet.RoundTrip.{Carries, parse-pack}
use stunnel.Ucp.Packet.Accepts.{parse_accepts}
use stunnel.Ucp.Packet.Payload.{
  IsReadable, payload_bytes-payload_write_slice, payload_read_slice_lem,
}

-- A data packet with the payload 65, 66, before it is packed.
abbrev letter : UcpPacket
letter = record new {
  buf = splice 29 (65 ∷ 66 ∷ []) (replicate buf_size 0);
  payload = 2;
  session_id = 9;
  seq = 4294967295;
  una = 3;
  window = 512;
  cmd = cmd_data;
}

letter-IsWellFormed : IsWellFormed letter
unfolding new
letter-IsWellFormed = record {
  buf_full =
      length-splice 29 (65 ∷ 66 ∷ []) (replicate buf_size 0) ∙ length-replicate {A = ℕ} buf_size 0;
  payload_fits = omega arith;
  session_id_u32 = omega arith;
  timestamp_u32 = omega arith;
  window_u32 = omega arith;
  xmit_u32 = omega arith;
  una_u32 = omega arith;
  seq_u32 = omega arith;
  cmd_u8 = omega arith;
}

parse-pack_example :
    let r = parse (λ _. 7) (received (packed_buffer (pack (λ _. 7) letter))) in
    Carries letter r.0 × (r.1 ≡ (leb cmd_syn letter.cmd && leb letter.cmd cmd_heartbeat_ack))
parse-pack_example = parse-pack (λ _. 7) (λ _. omega arith) letter letter-IsWellFormed

-- A heartbeat of session 9 with the checksum 7.
abbrev datagram : Bytes
datagram =
    0 ∷ 0 ∷ 0 ∷ 7 ∷ 0 ∷ 0 ∷ 0 ∷ 9 ∷ 0 ∷ 0 ∷ 1 ∷ 0 ∷ 0 ∷ 0 ∷ 2 ∷ 0 ∷ 0 ∷ 0 ∷ 0 ∷ 0 ∷ 0 ∷ 0 ∷ 0 ∷ 3
    ∷ 0 ∷ 0 ∷ 0 ∷ 0 ∷ 132 ∷ []

datagram_accepted : (parse (λ _. 7) (received datagram)).1 ≡ true
unfolding parse is_legal parse_header from_be received new replicate
datagram_accepted = refl

parse_accepts_example :
    let q = (parse (λ _. 7) (received datagram)).0 in
    (datagram ≡ be_u32 7 ++ body q)
    × (cmd_syn ≤ q.cmd)
    × (q.cmd ≤ cmd_heartbeat_ack)
    × (length datagram ≡ ucp_packet_meta_size + q.payload)
parse_accepts_example =
    parse_accepts (λ _. 7) datagram (omega arith) (omega arith) datagram_accepted

payload_bytes-payload_write_slice_example :
    let (q, done) = payload_write_slice letter (67 ∷ 68 ∷ []) in
    ((4 ≤ 1371)
      × (done ≡ true)
      × (payload_bytes q ≡ payload_bytes letter ++ 67 ∷ 68 ∷ [])
      × (q.payload ≡ 4)
      × (length q.buf ≡ buf_size))
    ⊎ ((1371 < 4) × (done ≡ false) × (q ≡ letter))
payload_bytes-payload_write_slice_example =
    payload_bytes-payload_write_slice letter letter-IsWellFormed.buf_full
      letter-IsWellFormed.payload_fits (67 ∷ 68 ∷ [])

-- The packet as it arrived.
abbrev arrived : UcpPacket
arrived = record letter { read_pos = 29; size = 31 }

arrived-IsReadable : IsReadable arrived
arrived-IsReadable = record {
  pos_within = omega arith;
  size_within = omega (arith, letter-IsWellFormed.buf_full);
  buf_full = letter-IsWellFormed.buf_full;
}

payload_read_slice_lem_example :
    let (bs, q) = payload_read_slice arrived 1 in
    (unread arrived ≡ bs ++ unread q) × (length bs ≡ min (length (unread arrived)) 1) × IsReadable q
payload_read_slice_lem_example = payload_read_slice_lem arrived arrived-IsReadable 1
