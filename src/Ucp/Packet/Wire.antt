-- ===== src/Ucp/Packet/Wire.antt =====
-- src/ucp/packet.rs: `pack` and `parse` against the wire format, a checksum, a header and the payload.
use stunnel.Base.{
  ℕ, ◌+◌, ◌-◌, ◌≤◌, ◌≡◌, refl, ◌∙◌, [], ◌∷◌, ◌++◌, Bytes, length, slice, splice, be_u32,
  length-append, length-splice, length-slice, slice_split, slice-splice_after, splice-splice_at,
  slice-splice_at, length-be_u32, arith,
}
use stunnel.Ucp.{ucp_packet_meta_size}
use stunnel.Ucp.Packet.{UcpPacket, buf_size, pack_header, pack, packed_buffer, payload_bytes}

-- The 25 bytes of the header behind the checksum.
unfoldable pub header : UcpPacket → Bytes
header p =
    be_u32 p.session_id
    ++ be_u32 p.timestamp
    ++ be_u32 p.window
    ++ be_u32 p.xmit
    ++ be_u32 p.una
    ++ be_u32 p.seq
    ++ (p.cmd ∷ [])

length-header : (p : UcpPacket) → length (header p) ≡ 25
unfolding header be_u32
length-header p = refl

-- Adjacent writes join into one write of the header.
pack_header-buf : (p : UcpPacket) → (pack_header p).buf ≡ splice 4 (header p) p.buf
unfolding pack_header header
pack_header-buf p =
    let h2 = be_u32 p.session_id ++ be_u32 p.timestamp in
    let h3 = h2 ++ be_u32 p.window in
    let h4 = h3 ++ be_u32 p.xmit in
    let h5 = h4 ++ be_u32 p.una in
    let h6 = h5 ++ be_u32 p.seq in
    rw
      (
        splice-splice_at 4 4 (be_u32 p.session_id) (be_u32 p.timestamp) p.buf (length-be_u32 _),
        splice-splice_at 4 8 h2 (be_u32 p.window) p.buf (simp (length-append, length-be_u32)),
        splice-splice_at 4 12 h3 (be_u32 p.xmit) p.buf (simp (length-append, length-be_u32)),
        splice-splice_at 4 16 h4 (be_u32 p.una) p.buf (simp (length-append, length-be_u32)),
        splice-splice_at 4 20 h5 (be_u32 p.seq) p.buf (simp (length-append, length-be_u32)),
        splice-splice_at 4 24 h6 (p.cmd ∷ []) p.buf (simp (length-append, length-be_u32)),
      )
      refl

pack_header-length : (p : UcpPacket) → length (pack_header p).buf ≡ length p.buf
pack_header-length p = rw (pack_header-buf p) (length-splice 4 (header p) p.buf)

-- What `pack` covers by the checksum: the header and the payload.
abbrev pub body : UcpPacket → Bytes
body p = header p ++ payload_bytes p

pack_header-body :
    (p : UcpPacket)
    → length p.buf ≡ buf_size
    → p.payload + ucp_packet_meta_size ≤ buf_size
    → slice 4 (25 + p.payload) (pack_header p).buf ≡ body p
pack_header-body p full fits = rw (pack_header-buf p) (
    slice_split 4 25 p.payload (splice 4 (header p) p.buf)
    ∙ rw
        (
          slice-splice_at 4 25 (header p) p.buf (length-header p) (omega arith),
          slice-splice_after 29 p.payload 4 (header p) p.buf (omega (arith, length-header p)),
        )
        refl)

pub length-body :
    (p : UcpPacket)
    → length p.buf ≡ buf_size
    → p.payload + ucp_packet_meta_size ≤ buf_size
    → length (body p) ≡ 25 + p.payload
length-body p full fits = omega (
  arith,
  length-append (header p) (payload_bytes p),
  length-header p,
  length-slice 29 p.payload p.buf,
)

-- The datagram that `pack` leaves: the checksum of what follows it, the header and the payload.
pub packed_buffer-pack :
    (crc : Bytes → ℕ) (p : UcpPacket)
    → length p.buf ≡ buf_size
    → p.payload + ucp_packet_meta_size ≤ buf_size
    → packed_buffer (pack crc p) ≡ be_u32 (crc (body p)) ++ body p
unfolding pack
packed_buffer-pack crc p full fits =
    rw (size_is, behind, body_is)
      (slice_split 0 4 (25 + p.payload) (splice 0 (be_u32 (crc (body p))) (pack_header p).buf)
        ∙ rw
            (
              slice-splice_at 0 4 (be_u32 (crc (body p))) (pack_header p).buf (length-be_u32 _)
                  (omega (arith, pack_header-length p)),
              slice-splice_after 4 (25 + p.payload) 0 (be_u32 (crc (body p))) (pack_header p).buf
                  (omega (arith, length-be_u32 (crc (body p)))),
              body_is,
            )
            refl)
  where
    size_is : (pack_header p).size ≡ 4 + (25 + p.payload)
    size_is = unfold pack_header in omega arith

    behind : 4 + (25 + p.payload) - 4 ≡ 25 + p.payload
    behind = omega arith

    body_is : slice 4 (25 + p.payload) (pack_header p).buf ≡ body p
    body_is = pack_header-body p full fits
