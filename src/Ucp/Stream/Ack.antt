-- ===== src/Ucp/Stream/Ack.antt =====
-- src/ucp/internal.rs: acknowledgements, those received (`process_una`, `process_an_ack`, `process_ack`)
-- and those sent (`send_ack_list`). An `Option` is `none` where the source panics.
pub mod Removal
pub mod Rto
pub mod Encoding
pub mod Sending
use stunnel.Base.{
  ◌>>=◌, ℕ, zero, suc, ◌+◌, ◌-◌, ◌/◌, ◌%◌, Bool, true, false, not, ◌&&◌, Option, none, some, List,
  [], ◌∷◌, ◌++◌, Bytes, length, ltb, leb, ◌==◌, if◌then◌else◌, add_u32, sub_u32,
}
use stunnel.Ucp.{cmd_ack}
use stunnel.Ucp.Packet.{
  UcpPacket, remaining_load, payload_remaining, payload_read_u32, payload_write_u32,
}
use stunnel.Ucp.Stream.{InnerStream, timestamp, update_rto, new_noseq_packet, send_packet_directly}
use stunnel.Ucp.Stream.Recv.{precedes}

-- The packets that the peer has, all those before its `una`, leave the send queue.
unfoldable pub drop_acked : ℕ → List UcpPacket → List UcpPacket
drop_acked una [] = []
drop_acked una (packet ∷ queue) =
    let later = drop_acked una queue in if precedes packet.seq una then later else packet ∷ queue

abbrev pub process_una : InnerStream → ℕ → InnerStream
process_una s una = record s { send_queue = drop_acked una s.send_queue }

abbrev pub skip : UcpPacket → UcpPacket
skip packet = record packet { skip_times = add_u32 packet.skip_times 1 }

-- The scan of `process_an_ack`: the acknowledged packet is removed, and the packets before it that were
-- sent no later count one more skip.
unfoldable pub ack_scan : ℕ → ℕ → List UcpPacket → List UcpPacket × Bool
ack_scan seq timestamp [] = ([], false)
ack_scan seq timestamp (packet ∷ queue) =
    let (later, found) = ack_scan seq timestamp queue in
    if packet.seq == seq
    then (queue, true)
    else ((if leb packet.timestamp timestamp then skip packet else packet) ∷ later, found)

unfoldable pub process_an_ack : InnerStream → ℕ → ℕ → ℕ → InnerStream × Bool
process_an_ack s now seq acked =
    let s' = update_rto s (sub_u32 (timestamp s now) acked) in
    let (queue, found) = ack_scan seq acked s'.send_queue in
    (record s' { send_queue = queue }, found)

-- The loop of `process_ack`, with fuel.
unfoldable pub process_acks : ℕ → InnerStream → ℕ → UcpPacket → Option InnerStream
process_acks zero s now packet = some s
process_acks (suc fuel) s now packet =
    if ltb 0 (payload_remaining packet)
    then (do
      (seq, packet') ← payload_read_u32 packet
      (acked, packet'') ← payload_read_u32 packet'
      process_acks fuel (process_an_ack s now seq acked).0 now packet'')
    else some s

-- A round reads 8 bytes.
unfoldable pub process_ack : InnerStream → ℕ → UcpPacket → Option InnerStream
process_ack s now packet =
    if packet.cmd == cmd_ack && packet.payload % 8 == 0
    then process_acks (payload_remaining packet) s now packet
    else some s

-- An acknowledgement in a packet under way: a full packet is sent first.
unfoldable pub send_ack :
    (Bytes → ℕ) → ℕ → InnerStream × UcpPacket → ℕ × ℕ → InnerStream × UcpPacket
send_ack crc now (s, packet) a =
    let full = ltb (remaining_load packet) 8 in
    let s' = if full then send_packet_directly crc s packet else s in
    let packet' = if full then new_noseq_packet s' now cmd_ack else packet in
    (s', (payload_write_u32 (payload_write_u32 packet' a.0).0 a.1).0)

unfoldable pub send_acks : (Bytes → ℕ) → ℕ → InnerStream × UcpPacket → List (ℕ × ℕ) → InnerStream
send_acks crc now st [] = send_packet_directly crc st.0 st.1
send_acks crc now st (a ∷ acks) = send_acks crc now (send_ack crc now st a) acks

-- `send_ack_list` on the list that it took.
unfoldable pub send_taken : (Bytes → ℕ) → InnerStream → ℕ → List (ℕ × ℕ) → InnerStream
send_taken crc s now [] = s
send_taken crc s now (a ∷ acks) = send_acks crc now (s, new_noseq_packet s now cmd_ack) (a ∷ acks)

unfoldable pub send_ack_list : (Bytes → ℕ) → InnerStream → ℕ → InnerStream
send_ack_list crc s now = send_taken crc (record s { ack_list = [] }) now s.ack_list
