-- ===== src/Ucp/Stream/Ack/Encoding.antt =====
-- src/ucp/internal.rs: a list of acknowledgements in the payload of a packet, read by `process_ack` and
-- written by `send_ack_list`.
use stunnel.Base.{
  ℕ, zero, suc, ◌*◌, ◌%◌, ◌≤◌, ◌<◌, ◌≡◌, refl, ap, true, ◌&&◌, some, List, [], ◌∷◌, ◌++◌,
  append_assoc, All, Bytes, IsU32, length, length-append, ◌==◌, lt→ltb, be_u32, length-be_u32,
  arith,
}
use stunnel.Ucp.{cmd_ack}
use stunnel.Ucp.Packet.{UcpPacket, unread, payload_remaining}
use stunnel.Ucp.Packet.Payload.{IsReadable, payload_remaining_lem, payload_read_u32_lem}
use stunnel.Ucp.Stream.{InnerStream}
use stunnel.Ucp.Stream.Ack.{process_an_ack, process_acks, process_ack}

-- An acknowledgement: a sequence number and the time stamp of the packet with it.
abbrev pub IsAck : ℕ × ℕ → Type 0
IsAck a = IsU32 a.0 × IsU32 a.1

abbrev pub encode : List (ℕ × ℕ) → Bytes
encode [] = []
encode (a ∷ acks) = be_u32 a.0 ++ (be_u32 a.1 ++ encode acks)

pub length-encode : (acks : List (ℕ × ℕ)) → length (encode acks) ≡ 8 * length acks
length-encode [] = omega arith
length-encode (a ∷ acks) = omega (
  arith,
  length-append (be_u32 a.0) (be_u32 a.1 ++ encode acks),
  length-append (be_u32 a.1) (encode acks),
  length-be_u32 a.0,
  length-be_u32 a.1,
  length-encode acks,
)

pub encode-append : (xs ys : List (ℕ × ℕ)) → encode (xs ++ ys) ≡ encode xs ++ encode ys
encode-append [] ys = refl
encode-append (a ∷ xs) ys =
    rw (encode-append xs ys, append_assoc (be_u32 a.0), append_assoc (be_u32 a.1)) refl

-- `process_an_ack` for each acknowledgement of a list.
unfoldable pub ack_all : InnerStream → ℕ → List (ℕ × ℕ) → InnerStream
ack_all s now [] = s
ack_all s now (a ∷ acks) = ack_all (process_an_ack s now a.0 a.1).0 now acks

pub ack_all-append :
    (s : InnerStream) (now : ℕ) (xs ys : List (ℕ × ℕ))
    → ack_all s now (xs ++ ys) ≡ ack_all (ack_all s now xs) now ys
unfolding ack_all
ack_all-append s now [] ys = refl
ack_all-append s now (a ∷ xs) ys = ack_all-append (process_an_ack s now a.0 a.1).0 now xs ys

process_acks-ack_all :
    (fuel : ℕ) (s : InnerStream) (now : ℕ) (packet : UcpPacket) (acks : List (ℕ × ℕ))
    → length acks ≤ fuel
    → All IsAck acks
    → IsReadable packet
    → unread packet ≡ encode acks
    → process_acks fuel s now packet ≡ some (ack_all s now acks)
unfolding process_acks ack_all
process_acks-ack_all zero s now packet [] h all ok e = refl
process_acks-ack_all zero s now packet (a ∷ acks) h all ok e = absurd (omega arith)
process_acks-ack_all (suc fuel) s now packet [] h all ok e =
    rw (payload_remaining_lem packet ok, e) refl
process_acks-ack_all (suc fuel) s now packet (a ∷ acks) h (small, all) ok e =
    let (packet', read, left, ok', _) =
      payload_read_u32_lem packet ok a.0 (be_u32 a.1 ++ encode acks) small.0 e in
    let (packet'', read', left', ok'', _) =
      payload_read_u32_lem packet' ok' a.1 (encode acks) small.1 left in
    let some_left : 0 < payload_remaining packet =
      omega (arith, payload_remaining_lem packet ok, ap length e, length-encode (a ∷ acks)) in
    rw (lt→ltb 0 (payload_remaining packet) some_left, read, read')
      (process_acks-ack_all fuel (process_an_ack s now a.0 a.1).0 now packet'' acks (omega arith)
        all ok'' left')

-- A packet of acknowledgements that arrives whole has the effect of `process_an_ack` on each of
-- them, in order, and does not panic.
pub process_ack-ack_all :
    (s : InnerStream) (now : ℕ) (packet : UcpPacket) (acks : List (ℕ × ℕ))
    → packet.cmd ≡ cmd_ack
    → packet.payload ≡ 8 * length acks
    → All IsAck acks
    → IsReadable packet
    → unread packet ≡ encode acks
    → process_ack s now packet ≡ some (ack_all s now acks)
unfolding process_ack
process_ack-ack_all s now packet acks is_ack whole all ok e =
    let test : (packet.cmd == cmd_ack && packet.payload % 8 == 0) ≡ true = ground arith in
    rw test (
      process_acks-ack_all (payload_remaining packet) s now packet acks
        (omega (arith, payload_remaining_lem packet ok, ap length e, length-encode acks)) all ok e)
