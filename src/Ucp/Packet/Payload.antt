-- ===== src/Ucp/Packet/Payload.antt =====
-- src/ucp/packet.rs: writing and reading the payload of a packet.
use stunnel.Base.{
  ℕ, ◌+◌, ◌-◌, ◌≤◌, ◌<◌, min, ◌≡◌, refl, sym, ap, ◌∙◌, true, false, none, some, ◌++◌, Bytes, IsU32,
  ◌⊎◌, inl, inr, length, slice, splice, le→ltb, lt→ltb, be_u32, from_be-be_u32, length-be_u32,
  from_be, length-append, length-slice, length-splice, slice_split, slice-splice_at,
  slice-splice_before, append-injective, arith,
}
use native.Mathlib.Decide.{dec_le, dec_lt}
use native.Mathlib.Nat.{add_comm}
use stunnel.Ucp.{ucp_packet_meta_size}
use stunnel.Ucp.Packet.{
  UcpPacket, buf_size, remaining_load, payload_bytes, unread, payload_remaining,
  payload_write_slice, payload_write_u32, payload_read_slice, payload_read_u32,
}

module _ (p : UcpPacket) (full : length p.buf ≡ buf_size)
    (room : p.payload + ucp_packet_meta_size ≤ buf_size) where
  pub remaining_load_lem : remaining_load p ≡ 1371 - p.payload
  remaining_load_lem = omega arith

  -- The packet after `bs` is written behind its payload.
  abbrev pub appended : Bytes → UcpPacket
  appended bs = record p { buf = splice (p.payload + 29) bs p.buf; payload = p.payload + length bs }

  pub payload_bytes-appended :
      (bs : Bytes)
      → p.payload + length bs ≤ 1371
      → payload_bytes (appended bs) ≡ payload_bytes p ++ bs
  payload_bytes-appended bs h =
      slice_split 29 p.payload (length bs) (appended bs).buf
      ∙ rw (slice-splice_before 29 p.payload (p.payload + 29) bs p.buf (omega arith)) (
          ap (◌++◌ (payload_bytes p)) (
            rw (add_comm 29 p.payload)
              (slice-splice_at (p.payload + 29) (length bs) bs p.buf refl (omega arith))))

  pub payload_write_slice_fits :
      (bs : Bytes) → p.payload + length bs ≤ 1371 → payload_write_slice p bs ≡ (appended bs, true)
  unfolding payload_write_slice
  payload_write_slice_fits bs h = ground arith

  pub payload_write_slice_full :
      (bs : Bytes) → 1371 < p.payload + length bs → payload_write_slice p bs ≡ (p, false)
  unfolding payload_write_slice
  payload_write_slice_full bs h = ground arith

  pub payload_write_u32_fits :
      (u : ℕ) → p.payload + 4 ≤ 1371 → payload_write_u32 p u ≡ (appended (be_u32 u), true)
  unfolding payload_write_u32
  payload_write_u32_fits u h = ground (arith, length-be_u32 u)

  pub payload_write_u32_full : (u : ℕ) → 1371 < p.payload + 4 → payload_write_u32 p u ≡ (p, false)
  unfolding payload_write_u32
  payload_write_u32_full u h = ground arith

  -- In a packet with a whole buffer and a payload that fits, a slice is written whole behind the
  -- payload if there is room for it, and else nothing changes.
  pub payload_bytes-payload_write_slice :
      (bs : Bytes)
      → let (q, done) = payload_write_slice p bs in
        ((p.payload + length bs ≤ 1371)
          × (done ≡ true)
          × (payload_bytes q ≡ payload_bytes p ++ bs)
          × (q.payload ≡ p.payload + length bs)
          × (length q.buf ≡ buf_size))
        ⊎ ((1371 < p.payload + length bs) × (done ≡ false) × (q ≡ p))
  payload_bytes-payload_write_slice bs = elim (dec_le (p.payload + length bs) 1371) [
    | yes h ↦
        rw (payload_write_slice_fits bs h)
          (inl (h, refl, payload_bytes-appended bs h, refl, length-splice _ bs p.buf ∙ full))
    | no h ↦ rw (payload_write_slice_full bs (omega arith)) (inr (omega arith, refl, refl))
  ]

-- A packet that has arrived: the position of reads stays inside the datagram.
pub record IsReadable (p : UcpPacket) : Type 0 where
  pub pos_within : p.read_pos ≤ p.size
  pub size_within : p.size ≤ length p.buf
  pub buf_full : length p.buf ≡ buf_size

module _ (p : UcpPacket) (ok : IsReadable p) where
  pub length-unread : length (unread p) ≡ p.size - p.read_pos
  length-unread = length-slice p.read_pos _ p.buf (omega arith)

  pub payload_remaining_lem : payload_remaining p ≡ length (unread p)
  payload_remaining_lem = omega (arith, length-unread)

  -- The unread bytes fall apart at `n`.
  unread_split :
      (n : ℕ)
      → n ≤ length (unread p)
      → unread p ≡ slice p.read_pos n p.buf ++ unread (record p { read_pos = p.read_pos + n })
  unread_split n h =
      let room : p.size - p.read_pos ≡ n + (p.size - (p.read_pos + n)) =
        omega (arith, length-unread) in
      rw room (slice_split p.read_pos n (p.size - (p.read_pos + n)) p.buf)

  -- A read from a packet that has arrived copies the front of what is unread, as much as there is
  -- room for, leaves the rest, and stays within the packet.
  pub payload_read_slice_lem :
      (n : ℕ)
      → let (bs, q) = payload_read_slice p n in
        (unread p ≡ bs ++ unread q) × (length bs ≡ min (length (unread p)) n) × IsReadable q
  unfolding payload_read_slice
  payload_read_slice_lem n = elim (dec_lt 0 k) [
    | yes some_left ↦ rw (lt→ltb 0 k some_left) (
      unread_split k (omega (arith, payload_remaining_lem, length-unread)),
      length-slice p.read_pos k p.buf (omega (arith, payload_remaining_lem, length-unread))
          ∙ (omega (arith, payload_remaining_lem, length-unread)),
      omega (arith, payload_remaining_lem, length-unread),
    )
    | no nothing ↦
        rw (le→ltb 0 k (omega arith))
          (refl, omega (arith, payload_remaining_lem, length-unread), ok)
  ]
    where
      k : ℕ
      k = min (payload_remaining p) n

  -- A u32 that stands at the front of what is unread is read; with fewer than 4 bytes left the read
  -- panics.
  pub payload_read_u32_lem :
      (v : ℕ) (rest : Bytes)
      → IsU32 v
      → unread p ≡ be_u32 v ++ rest
      → (q : UcpPacket) × (payload_read_u32 p ≡ some (v, q))
        × (unread q ≡ rest)
        × IsReadable q
        × (q ≡ record p { read_pos = p.read_pos + 4 })
  unfolding payload_read_u32
  payload_read_u32_lem v rest h e = (
    record p { read_pos = p.read_pos + 4 },
    rw
        (
          le→ltb p.size (p.read_pos + 4) (omega (arith, enough, length-unread)),
          halves.0,
          from_be-be_u32 v h,
        )
        refl,
    halves.1,
    omega (arith, enough, length-unread),
    refl,
  )
    where
      enough : 4 ≤ length (unread p)
      enough = rw e (omega (arith, length-append (be_u32 v) rest, length-be_u32 v))

      halves :
          (slice p.read_pos 4 p.buf ≡ be_u32 v)
          × (unread (record p { read_pos = p.read_pos + 4 }) ≡ rest)
      halves =
          append-injective _ (be_u32 v) _ rest
            (omega (arith, length-slice p.read_pos 4 p.buf, enough, length-unread, length-be_u32 v))
            (sym (unread_split 4 enough) ∙ e)

  pub payload_read_u32_short : length (unread p) < 4 → payload_read_u32 p ≡ none
  unfolding payload_read_u32
  payload_read_u32_short h = ground (arith, length-unread)

-- With 4 bytes left a read does not panic.
pub payload_read_u32_enough :
    (p : UcpPacket)
    → IsReadable p
    → 4 ≤ length (unread p)
    → (v : ℕ) × (q : UcpPacket) × (payload_read_u32 p ≡ some (v, q))
      × IsReadable q
      × (length (unread p) ≡ 4 + length (unread q))
unfolding payload_read_u32
payload_read_u32_enough p ok h =
    let q : UcpPacket = record p { read_pos = p.read_pos + 4 } in
    let ok' : IsReadable q = omega (arith, length-unread p ok) in
    (
      from_be (slice p.read_pos 4 p.buf),
      q,
      rw (le→ltb p.size (p.read_pos + 4) (omega (arith, length-unread p ok))) refl,
      ok',
      omega (arith, length-unread p ok, length-unread q ok'),
    )

-- A packet as `parse` leaves it.
pub record IsArrived (p : UcpPacket) : Type 0 where
  pub readable : IsReadable p
  pub payload_is : p.payload ≡ length (unread p)
