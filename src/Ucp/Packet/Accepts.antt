-- ===== src/Ucp/Packet/Accepts.antt =====
-- src/ucp/packet.rs: what `parse` accepts is the wire form of the packet that it gives.
use stunnel.Base.{
  ℕ, ◌+◌, ◌-◌, ◌≤◌, ◌≡◌, refl, sym, ap, true, [], ◌∷◌, ◌++◌, inl, inr, Bool-cases, Bytes, IsByte,
  length, drop, slice, All, All-take, All-drop, be_u32, from_be, be_u32-from_be, from_be-singleton,
  length-slice, slice_split, take_all, arith,
}
use stunnel.Ucp.{cmd_syn, cmd_heartbeat_ack, ucp_packet_meta_size}
use stunnel.Ucp.Packet.{
  UcpPacket, buf_size, is_crc32_correct, is_legal, parse_header, parse, payload_bytes, received,
}
use stunnel.Ucp.Packet.Wire.{header, body}
use stunnel.Ucp.Packet.RoundTrip.{received-size, received-slice}

module _ (crc : Bytes → ℕ) (w : Bytes) (bytes : All IsByte w) (fits : length w ≤ buf_size) where
  abbrev came : UcpPacket
  came = received w

  came_long : is_legal crc came ≡ true → 29 ≤ length w
  unfolding is_legal
  came_long h = ground (arith, received-size w fits)

  came_crc :
      is_legal crc came ≡ true
      → crc (slice 4 (came.size - 4) came.buf) ≡ from_be (slice 0 4 came.buf)
  unfolding is_legal is_crc32_correct
  came_crc h = ground arith

  came_digest : is_legal crc came ≡ true → crc (slice 4 (length w - 4) w) ≡ from_be (slice 0 4 w)
  came_digest h =
      let long = came_long h in
      rw
        (
          received-size w fits,
          received-slice w fits 4 (length w - 4) (omega arith),
          received-slice w fits 0 4 (omega arith),
        )
        at (came_crc h)

  module _ (long : 29 ≤ length w) where
    -- A field read from the datagram is written as it stood.
    written_back : (i : ℕ) → i + 4 ≤ 29 → be_u32 (from_be (slice i 4 came.buf)) ≡ slice i 4 w
    written_back i h = rw (received-slice w fits i 4 (omega arith)) (
        be_u32-from_be (slice i 4 w) (length-slice i 4 w (omega arith))
          (All-take IsByte 4 (drop i w) (All-drop IsByte i w bytes)))

    cmd_back : from_be (slice 28 1 came.buf) ∷ [] ≡ slice 28 1 w
    cmd_back =
        rw (received-slice w fits 28 1 (omega arith))
          (from_be-singleton (slice 28 1 w) (length-slice 28 1 w (omega arith)))

    header_back : header (parse_header came) ≡ slice 4 25 w
    unfolding header parse_header
    header_back =
        rw
          (
            written_back 4 (omega arith),
            written_back 8 (omega arith),
            written_back 12 (omega arith),
            written_back 16 (omega arith),
            written_back 20 (omega arith),
            written_back 24 (omega arith),
            cmd_back,
            ← slice_split 4 4 4 w,
            ← slice_split 4 8 4 w,
            ← slice_split 4 12 4 w,
            ← slice_split 4 16 4 w,
            ← slice_split 4 20 4 w,
            ← slice_split 4 24 1 w,
          )
          refl

    payload_back : (parse_header came).payload ≡ length w - 29
    unfolding parse_header
    payload_back = omega (arith, received-size w fits)

    buf_back : (parse_header came).buf ≡ came.buf
    unfolding parse_header
    buf_back = refl

    payload_bytes_back : payload_bytes (parse_header came) ≡ slice 29 (length w - 29) w
    payload_bytes_back = rw (payload_back, buf_back) (received-slice w fits 29 _ (omega arith))

    body_back : body (parse_header came) ≡ slice 4 (length w - 4) w
    body_back =
        rw (header_back, payload_bytes_back, ← slice_split 4 25 (length w - 29) w)
          (ap (λ n. slice 4 n w) (omega arith))

    whole :
        is_legal crc came ≡ true
        → w ≡ be_u32 (crc (body (parse_header came))) ++ body (parse_header came)
    whole h =
        rw
          (
            body_back,
            came_digest h,
            be_u32-from_be (slice 0 4 w) (length-slice 0 4 w (omega arith))
                (All-take IsByte 4 w bytes),
            ← slice_split 0 4 (length w - 4) w,
          )
          (sym (take_all _ w (omega arith)))

  -- A datagram of at most 1400 bytes that `parse` accepts holds the checksum of what follows it, the
  -- header and the payload of the packet that `parse` gives, and nothing else; its command is known.
  pub parse_accepts :
      (parse crc (received w)).1 ≡ true
      → let q = (parse crc (received w)).0 in
        (w ≡ be_u32 (crc (body q)) ++ body q)
        × (cmd_syn ≤ q.cmd)
        × (q.cmd ≤ cmd_heartbeat_ack)
        × (length w ≡ ucp_packet_meta_size + q.payload)
  unfolding parse
  parse_accepts h = elim (Bool-cases (is_legal crc came)) [
    | inl legal ↦
        let long = came_long legal in
        let known = rw legal at h in
        rw legal
          (whole long legal, (ground arith), (ground arith), omega (arith, payload_back long))
    | inr refused ↦ cc (rw refused at h)
  ]
