-- ===== src/Ucp/Packet/RoundTrip.antt =====
-- src/ucp/packet.rs: `parse` of a datagram that arrived undoes `pack`, and accepts nothing else.
use stunnel.Base.{
  ℕ, ◌+◌, ◌-◌, ◌≤◌, ◌≡◌, refl, ◌∙◌, true, ◌&&◌, [], ◌∷◌, ◌++◌, Bytes, IsU32, length, replicate,
  take, slice, overlay, leb, ==-self, le→leb, be_u32, from_be, from_be-be_u32, length-append,
  length-slice, length-replicate, length-be_u32, slice-overlay, take_all, arith,
}
use stunnel.Ucp.{cmd_syn, cmd_heartbeat_ack, ucp_packet_meta_size}
use stunnel.Ucp.Packet.{
  UcpPacket, IsWellFormed, new, buf_size, is_crc32_correct, is_legal, parse_header, parse, pack,
  packed_buffer, payload_bytes, unread, received,
}
use stunnel.Ucp.Packet.Wire.{header, body, length-body, packed_buffer-pack}

module _ (w : Bytes) (fits : length w ≤ buf_size) where
  pub received-size : (received w).size ≡ length w
  unfolding received
  received-size = rw (take_all buf_size w fits) refl

  pub received-buf : (received w).buf ≡ overlay w new.buf
  unfolding received
  received-buf = rw (take_all buf_size w fits) refl

  pub received-slice : (i n : ℕ) → i + n ≤ length w → slice i n (received w).buf ≡ slice i n w
  unfolding new
  received-slice i n h = rw received-buf (
      slice-overlay i n w (replicate buf_size 0) h
        (omega (arith, fits, length-replicate {A = ℕ} buf_size 0)))

-- What arrives: the fields that travel, and the payload, ready to be read.
pub record Carries (p q : UcpPacket) : Type 0 where
  pub session_id_is : q.session_id ≡ p.session_id
  pub timestamp_is : q.timestamp ≡ p.timestamp
  pub window_is : q.window ≡ p.window
  pub xmit_is : q.xmit ≡ p.xmit
  pub una_is : q.una ≡ p.una
  pub seq_is : q.seq ≡ p.seq
  pub cmd_is : q.cmd ≡ p.cmd
  pub payload_is : q.payload ≡ p.payload
  pub unread_is : unread q ≡ payload_bytes p

module _ (d : ℕ) (p : UcpPacket) where
  abbrev wire : Bytes
  wire = be_u32 d ++ body p

  wire_fields :
      (slice 0 4 wire ≡ be_u32 d)
      × (slice 4 4 wire ≡ be_u32 p.session_id)
      × (slice 8 4 wire ≡ be_u32 p.timestamp)
      × (slice 12 4 wire ≡ be_u32 p.window)
      × (slice 16 4 wire ≡ be_u32 p.xmit)
      × (slice 20 4 wire ≡ be_u32 p.una)
      × (slice 24 4 wire ≡ be_u32 p.seq)
      × (slice 28 1 wire ≡ p.cmd ∷ [])
  unfolding be_u32 header
  wire_fields = (refl, refl, refl, refl, refl, refl, refl, refl)

  wire-body : (n : ℕ) → slice 4 n wire ≡ take n (body p)
  unfolding be_u32
  wire-body n = refl

  wire_payload : (n : ℕ) → slice 29 n wire ≡ take n (payload_bytes p)
  unfolding be_u32 header
  wire_payload n = refl

  length-wire :
      length p.buf ≡ buf_size
      → p.payload + ucp_packet_meta_size ≤ buf_size
      → length wire ≡ 29 + p.payload
  length-wire full room =
      omega (arith, length-append (be_u32 d) (body p), length-be_u32 d, length-body p full room)

module _ (crc : Bytes → ℕ) (crc_u32 : (b : Bytes) → IsU32 (crc b)) (p : UcpPacket)
    (wf : IsWellFormed p) where
  abbrev digest : ℕ
  digest = crc (body p)

  abbrev arrived : UcpPacket
  arrived = received (wire digest p)

  arrived-length : length (wire digest p) ≡ 29 + p.payload
  arrived-length = length-wire digest p wf.buf_full wf.payload_fits

  arrived_fits : length (wire digest p) ≤ buf_size
  arrived_fits = omega (arith, arrived-length, wf.payload_fits)

  arrived-size : arrived.size ≡ 29 + p.payload
  arrived-size = received-size (wire digest p) arrived_fits ∙ arrived-length

  arrived-slice :
      (i n : ℕ) → i + n ≤ 29 + p.payload → slice i n arrived.buf ≡ slice i n (wire digest p)
  arrived-slice i n h =
      received-slice (wire digest p) arrived_fits i n (omega (arith, arrived-length))

  -- A field of the header is read back.
  read_back :
      (i v : ℕ)
      → i + 4 ≤ 29
      → slice i 4 (wire digest p) ≡ be_u32 v
      → IsU32 v
      → from_be (slice i 4 arrived.buf) ≡ v
  read_back i v h e small = rw (arrived-slice i 4 (omega arith), e) (from_be-be_u32 v small)

  arrived-body : slice 4 (arrived.size - 4) arrived.buf ≡ body p
  arrived-body = rw (arrived-size) (
      arrived-slice 4 _ (omega arith)
      ∙ wire-body digest p _
      ∙ take_all _ (body p) (omega (arith, length-body p wf.buf_full wf.payload_fits)))

  arrived-is_legal : is_legal crc arrived ≡ true
  unfolding is_legal is_crc32_correct
  arrived-is_legal =
      rw
        (
          arrived-body,
          read_back 0 digest (omega arith) (wire_fields digest p).0 (crc_u32 _),
          arrived-size,
          le→leb 29 (29 + p.payload) (omega arith),
        )
        (==-self digest)

  parse_header-Carries : Carries p (parse_header arrived)
  unfolding parse_header from_be
  parse_header-Carries =
      let fields = wire_fields digest p in
      record {
        session_id_is = read_back 4 p.session_id (omega arith) fields.1 wf.session_id_u32;
        timestamp_is = read_back 8 p.timestamp (omega arith) fields.2 wf.timestamp_u32;
        window_is = read_back 12 p.window (omega arith) fields.3 wf.window_u32;
        xmit_is = read_back 16 p.xmit (omega arith) fields.4 wf.xmit_u32;
        una_is = read_back 20 p.una (omega arith) fields.5 wf.una_u32;
        seq_is = read_back 24 p.seq (omega arith) fields.6 wf.seq_u32;
        cmd_is = rw (arrived-slice 28 1 (omega arith), fields.7) (omega arith);
        payload_is = omega (arith, arrived-size, wf.payload_fits);
        unread_is = rw arrived-size (
            arrived-slice 29 _ (omega arith)
            ∙ wire_payload digest p _
            ∙ take_all _ (payload_bytes p)
                (omega (arith, length-slice 29 p.payload p.buf, wf.payload_fits, wf.buf_full)));
      }

  -- A well-formed packet that is packed, sent and received is parsed to the fields and the payload
  -- it had, for any checksum of 32 bits, and it is accepted exactly when its command is one of the
  -- six commands.
  pub parse-pack :
      let r = parse crc (received (packed_buffer (pack crc p))) in
      Carries p r.0 × (r.1 ≡ (leb cmd_syn p.cmd && leb p.cmd cmd_heartbeat_ack))
  unfolding parse
  parse-pack =
      rw (packed_buffer-pack crc p wf.buf_full wf.payload_fits, arrived-is_legal)
        (parse_header-Carries, rw parse_header-Carries.cmd_is refl)
