-- ===== src/Ucp/Stream/Recv.antt =====
-- src/ucp/internal.rs: the receiving side, `process_data`, `try_wake_reader` and `recv`.
-- The queue holds the packets that arrived, by sequence number; those below `una` can be read.
pub mod Order
pub mod Insert
pub mod Delivery
pub mod Runs
pub mod Read
use stunnel.Base.{
  ℕ, zero, suc, ◌+◌, ◌-◌, Bool, true, false, ◌&&◌, Option, none, some, List, [], ◌∷◌, ◌++◌, Bytes,
  length, ltb, ◌==◌, if◌then◌else◌, add_u32, sub_u32, is_negative_i32,
}
use stunnel.Ucp.Packet.{UcpPacket, payload_read_slice, payload_remaining}
use stunnel.Ucp.Stream.{InnerStream, wake_reader}

-- `((packet.seq - una) as i32) < 0`
abbrev pub precedes : ℕ → ℕ → Bool
precedes seq una = is_negative_i32 (sub_u32 seq una)

-- The scan for the place of a sequence number; `none` where the queue has it already.
unfoldable pub position : ℕ → ℕ → List UcpPacket → Option ℕ
position seq pos [] = some pos
position seq pos (packet ∷ rest) =
    let later = position seq (pos + 1) rest in
    if sub_u32 seq packet.seq == 0
    then none
    else if precedes seq packet.seq
    then some pos
    else later

-- `VecDeque::insert`
unfoldable pub insert_at : ℕ → UcpPacket → List UcpPacket → List UcpPacket
insert_at zero packet queue = packet ∷ queue
insert_at (suc pos) packet [] = packet ∷ []
insert_at (suc pos) packet (q ∷ queue) = q ∷ insert_at pos packet queue

-- The scan `for i in pos..recv_queue.len()` that moves `una` over what follows it without a gap.
unfoldable pub advance : ℕ → ℕ → List UcpPacket → ℕ
advance zero una [] = una
advance zero una (packet ∷ queue) =
    let next = advance zero (add_u32 una 1) queue in if packet.seq == una then next else una
advance (suc pos) una [] = una
advance (suc pos) una (packet ∷ queue) = advance pos una queue

unfoldable pub try_wake_reader : InnerStream → InnerStream
try_wake_reader s = elim s.recv_queue [
  | [] ↦ s
  | packet ∷ _ ↦ if precedes packet.seq s.una then wake_reader s else s
]

-- The part of `process_data` behind the scan.
unfoldable pub insert_data : InnerStream → UcpPacket → Option ℕ → InnerStream
insert_data s packet none = s
insert_data s packet (some pos) =
    let queue = insert_at pos packet s.recv_queue in
    try_wake_reader (record s { recv_queue = queue; una = advance pos s.una queue })

unfoldable pub process_data : InnerStream → UcpPacket → InnerStream
process_data s packet =
    let acked = record s { ack_list = s.ack_list ++ (packet.seq, packet.timestamp) ∷ [] } in
    if precedes packet.seq s.una
    then acked
    else insert_data acked packet (position packet.seq 0 s.recv_queue)

abbrev pub prepend : Bytes → Bytes × List UcpPacket → Bytes × List UcpPacket
prepend bs (later, queue) = (bs ++ later, queue)

-- The loop of `recv` over the queue and the room left in the buffer: the bytes copied, and the queue
-- left. Each round removes a packet or fills the buffer.
unfoldable pub recv_loop : ℕ → ℕ → ℕ → List UcpPacket → Bytes × List UcpPacket
recv_loop zero una room queue = ([], queue)
recv_loop (suc fuel) una room [] = ([], [])
recv_loop (suc fuel) una room (packet ∷ queue) = elim (ltb 0 room && precedes packet.seq una) [
  | true ↦
      let (bs, front) = payload_read_slice packet room in
      prepend bs (
        recv_loop fuel una (room - length bs)
          (if payload_remaining front == 0 then queue else front ∷ queue))
  | false ↦ ([], packet ∷ queue)
]

-- As many rounds as packets are enough, see the child `Read`.
unfoldable pub recv : InnerStream → ℕ → Bytes × InnerStream
recv s room =
    let (bs, queue) = recv_loop (length s.recv_queue) s.una room s.recv_queue in
    (bs, record s { recv_queue = queue })
