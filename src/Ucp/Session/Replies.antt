-- ===== src/Ucp/Session/Replies.antt =====
-- src/ucp/packet.rs: the payload of 8 bytes with which a packet is answered, its number and its time stamp.
use stunnel.Base.{
  ℕ, ◌+◌, ◌≡◌, refl, sym, ap, subst, ◌∙◌, some, [], ◌++◌, IsU32, length, splice, be_u32,
  length-be_u32, length-splice, slice_split, slice-splice_at, slice-splice_before, append-nil,
  arith,
}
use stunnel.Ucp.Packet.{
  UcpPacket, buf_size, payload_bytes, payload_write_u32, payload_read_u32, unread,
}
use stunnel.Ucp.Packet.Payload.{payload_read_u32_lem, IsReadable}

-- The packet with the two numbers in its payload.
abbrev pub replying : ℕ → ℕ → UcpPacket → UcpPacket
replying a b p = (payload_write_u32 (payload_write_u32 p a).0 b).0

pub record Replies (p : UcpPacket) (a b : ℕ) (r : UcpPacket) : Type 0 where
  pub is_written : r ≡ record p { buf = r.buf; payload = 8 }
  pub buf_full : length r.buf ≡ buf_size
  pub bytes_are : payload_bytes r ≡ be_u32 a ++ be_u32 b

module _ (p : UcpPacket) (a b : ℕ) (full : length p.buf ≡ buf_size) (empty : p.payload ≡ 0) where
  abbrev first : UcpPacket
  first = record p { buf = splice (p.payload + 29) (be_u32 a) p.buf; payload = 4 }

  abbrev second : UcpPacket
  second = record p { buf = splice 33 (be_u32 b) first.buf; payload = 8 }

  first-full : length first.buf ≡ buf_size
  first-full = length-splice (p.payload + 29) (be_u32 a) p.buf ∙ full

  written_first : (payload_write_u32 p a).0 ≡ first
  unfolding payload_write_u32
  written_first = ground (arith, length-be_u32 a)

  written_second : (payload_write_u32 first b).0 ≡ second
  unfolding payload_write_u32
  written_second = ground (arith, length-be_u32 b, first-full)

  bytes_first : payload_bytes first ≡ be_u32 a
  bytes_first =
      rw empty (slice-splice_at 29 4 (be_u32 a) p.buf (length-be_u32 a) (omega (arith, full)))

  bytes_second : payload_bytes second ≡ be_u32 a ++ be_u32 b
  bytes_second =
      slice_split 29 4 4 second.buf
      ∙ rw (slice-splice_before 29 4 33 (be_u32 b) first.buf (omega arith), bytes_first)
          (ap (◌++◌ (be_u32 a)) (
            slice-splice_at 33 4 (be_u32 b) first.buf (length-be_u32 b)
              (omega (arith, first-full))))

  pub replying-Replies : Replies p a b (replying a b p)
  replying-Replies =
      subst (Replies p a b)
        (sym (ap (λ x. (payload_write_u32 x b).0) written_first ∙ written_second))
        (record {
          is_written = refl;
          buf_full = length-splice 33 (be_u32 b) first.buf ∙ first-full;
          bytes_are = bytes_second;
        })

-- The two reads of a reply.
pub reads_reply :
    (q : UcpPacket) (a b : ℕ)
    → IsReadable q
    → IsU32 a
    → IsU32 b
    → unread q ≡ be_u32 a ++ be_u32 b
    → (q' : UcpPacket) × (q'' : UcpPacket) × (payload_read_u32 q ≡ some (a, q'))
      × (payload_read_u32 q' ≡ some (b, q''))
reads_reply q a b ok small small' e =
    let (q', read, left, ok', moved) = payload_read_u32_lem q ok a (be_u32 b) small e in
    let (q'', read', left', ok'', moved') =
      payload_read_u32_lem q' ok' b [] small' (left ∙ sym (append-nil (be_u32 b))) in
    (q', q'', read, read')
