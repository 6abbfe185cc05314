-- ===== src/Ucp/Packet.antt =====
-- src/ucp/packet.rs: the datagram of the UCP protocol, a buffer of 1400 bytes with a header of 29.
-- `crc` stands for `crc32::checksum_ieee` of the crate `crc`.
pub mod Wire
pub mod RoundTrip
pub mod Accepts
pub mod Payload
pub mod Arrival
use stunnel.Base.{
  ℕ, ◌+◌, ◌-◌, ◌%◌, ◌^◌, ◌≤◌, ◌<◌, min, ◌≡◌, Bool, true, false, ◌&&◌, Option, none, some, List, [],
  ◌∷◌, Bytes, IsByte, IsU32, length, replicate, take, slice, splice, All, leb, ltb, ◌==◌,
  if◌then◌else◌, sub_usize, be_u32, from_be,
}
use stunnel.Ucp.{cmd_syn, cmd_heartbeat_ack, ucp_packet_meta_size}

abbrev pub buf_size : ℕ
buf_size = 1400

pub record UcpPacket : Type 0 where
  pub read_pos : ℕ
  pub buf : Bytes
  pub size : ℕ
  pub payload : ℕ
  pub skip_times : ℕ
  pub session_id : ℕ
  pub timestamp : ℕ
  pub window : ℕ
  pub xmit : ℕ
  pub una : ℕ
  pub seq : ℕ
  pub cmd : ℕ

unfoldable pub new : UcpPacket
new = record {
  buf = replicate buf_size 0;
  read_pos = 0;
  size = 0;
  payload = 0;
  skip_times = 0;
  session_id = 0;
  timestamp = 0;
  window = 0;
  xmit = 0;
  una = 0;
  seq = 0;
  cmd = 0;
}

-- A read gives the value and the moved offset.
abbrev pub parse_u32 : UcpPacket → ℕ → ℕ × ℕ
parse_u32 p offset = (from_be (slice offset 4 p.buf), offset + 4)

-- The offset is 28 in the only call, inside the buffer.
abbrev pub parse_u8 : UcpPacket → ℕ → ℕ × ℕ
parse_u8 p offset = (from_be (slice offset 1 p.buf), offset + 1)

-- A write gives the packet and the moved offset.
abbrev pub write_u32 : UcpPacket → ℕ → ℕ → UcpPacket × ℕ
write_u32 p offset u = (record p { buf = splice offset (be_u32 u) p.buf }, offset + 4)

abbrev pub write_u8 : UcpPacket → ℕ → ℕ → UcpPacket × ℕ
write_u8 p offset u = (record p { buf = splice offset (u ∷ []) p.buf }, offset + 1)

-- The first disjunct of `is_legal` guards the range `4..size`.
unfoldable pub is_crc32_correct : (Bytes → ℕ) → UcpPacket → Bool
is_crc32_correct crc p =
    let (digest, offset) = parse_u32 p 0 in crc (slice 4 (p.size - 4) p.buf) == digest

unfoldable pub is_legal : (Bytes → ℕ) → UcpPacket → Bool
unfolding is_crc32_correct
is_legal crc p = leb ucp_packet_meta_size p.size && is_crc32_correct crc p

-- The reads of `parse`, behind the test of `is_legal`.
unfoldable pub parse_header : UcpPacket → UcpPacket
parse_header p =
    let (session_id, o1) = parse_u32 p 4 in
    let (timestamp, o2) = parse_u32 p o1 in
    let (window, o3) = parse_u32 p o2 in
    let (xmit, o4) = parse_u32 p o3 in
    let (una, o5) = parse_u32 p o4 in
    let (seq, o6) = parse_u32 p o5 in
    let (cmd, o7) = parse_u8 p o6 in
    record p {
      payload = sub_usize p.size ucp_packet_meta_size % 2 ^ 16;
      read_pos = ucp_packet_meta_size;
      session_id = session_id;
      timestamp = timestamp;
      window = window;
      xmit = xmit;
      una = una;
      seq = seq;
      cmd = cmd;
    }

unfoldable pub parse : (Bytes → ℕ) → UcpPacket → UcpPacket × Bool
parse crc p =
    if is_legal crc p
    then (let q = parse_header p in (q, leb cmd_syn q.cmd && leb q.cmd cmd_heartbeat_ack))
    else (p, false)

-- The seven writes of `pack` before the checksum.
unfoldable pub pack_header : UcpPacket → UcpPacket
pack_header p =
    let (p1, o1) = write_u32 p 4 p.session_id in
    let (p2, o2) = write_u32 p1 o1 p.timestamp in
    let (p3, o3) = write_u32 p2 o2 p.window in
    let (p4, o4) = write_u32 p3 o3 p.xmit in
    let (p5, o5) = write_u32 p4 o4 p.una in
    let (p6, o6) = write_u32 p5 o5 p.seq in
    let (p7, o7) = write_u8 p6 o6 p.cmd in record p7 { size = p.payload + ucp_packet_meta_size }

unfoldable pub pack : (Bytes → ℕ) → UcpPacket → UcpPacket
pack crc p =
    let q = pack_header p in
    let digest = crc (slice 4 (q.size - 4) q.buf) in (write_u32 q 0 digest).0

abbrev pub packed_buffer : UcpPacket → Bytes
packed_buffer p = slice 0 p.size p.buf

abbrev pub is_syn : UcpPacket → Bool
is_syn p = p.cmd == cmd_syn

abbrev pub remaining_load : UcpPacket → ℕ
remaining_load p = sub_usize (sub_usize (length p.buf) p.payload) ucp_packet_meta_size

abbrev pub payload_offset : UcpPacket → ℕ
payload_offset p = p.payload + ucp_packet_meta_size

unfoldable pub payload_write_u32 : UcpPacket → ℕ → UcpPacket × Bool
payload_write_u32 p u =
    if leb 4 (remaining_load p)
    then (let (q, offset) = write_u32 p (payload_offset p) u in
        (record q { payload = (p.payload + 4) % 2 ^ 16 }, true))
    else (p, false)

unfoldable pub payload_write_slice : UcpPacket → Bytes → UcpPacket × Bool
payload_write_slice p bs =
    if leb (length bs) (remaining_load p)
    then (
      record p {
        buf = splice (payload_offset p) bs p.buf;
        payload = (p.payload + length bs % 2 ^ 16) % 2 ^ 16;
      },
      true,
    )
    else (p, false)

abbrev pub payload_remaining : UcpPacket → ℕ
payload_remaining p = sub_usize p.size p.read_pos

-- `none` is the panic on a read past the end.
unfoldable pub payload_read_u32 : UcpPacket → Option (ℕ × UcpPacket)
payload_read_u32 p =
    if ltb p.size (p.read_pos + 4)
    then none
    else (let (u, offset) = parse_u32 p p.read_pos in some (u, record p { read_pos = offset }))

-- Reads into a buffer of `n` bytes: the bytes copied, whose number the source returns.
unfoldable pub payload_read_slice : UcpPacket → ℕ → Bytes × UcpPacket
payload_read_slice p n =
    let size = min (payload_remaining p) n in
    let end_pos = p.read_pos + size in
    if ltb 0 size then (slice p.read_pos size p.buf, record p { read_pos = end_pos }) else ([], p)

-- `recv_from(&mut packet.buf)` on a new packet, and `packet.size = size`: a datagram that is longer
-- than the buffer is cut by the socket.
unfoldable pub received : Bytes → UcpPacket
unfolding new
received datagram =
    let got = take buf_size datagram in record new { buf = splice 0 got new.buf; size = length got }

-- The ranges that the Rust types give, and the room that the writes leave.
pub record IsWellFormed (p : UcpPacket) : Type 0 where
  pub buf_full : length p.buf ≡ buf_size
  pub payload_fits : p.payload + ucp_packet_meta_size ≤ buf_size
  pub session_id_u32 : IsU32 p.session_id
  pub timestamp_u32 : IsU32 p.timestamp
  pub window_u32 : IsU32 p.window
  pub xmit_u32 : IsU32 p.xmit
  pub una_u32 : IsU32 p.una
  pub seq_u32 : IsU32 p.seq
  pub cmd_u8 : IsByte p.cmd

-- The bytes of the payload that is being written.
abbrev pub payload_bytes : UcpPacket → Bytes
payload_bytes p = slice ucp_packet_meta_size p.payload p.buf

-- The bytes of the payload that are still to be read.
abbrev pub unread : UcpPacket → Bytes
unread p = slice p.read_pos (p.size - p.read_pos) p.buf
