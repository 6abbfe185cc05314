-- ===== src/Tests/Streams.antt =====
-- src/ucp/internal.rs: the theorems on streams, applied to a stream with packets around the wrap-around of
-- sequence numbers.
use stunnel.Base.{
  ℕ, ◌+◌, ◌*◌, ◌-◌, ◌/◌, ◌≤◌, ◌<◌, min, max, ◌≡◌, refl, ◌⊎◌, inl, ◌≢◌, true, false, some, List, [],
  ◌∷◌, ◌++◌, ◌∙◌, map, Bytes, All, length, replicate, splice, length-splice, length-replicate,
  SocketAddr, v4, if◌then◌else◌, leb, be_u32, arith,
}
use stunnel.Ucp.{cmd_data, cmd_ack}
use stunnel.Ucp.Packet.{UcpPacket, new as new_ucp_packet, buf_size, unread, payload_read_slice}
use stunnel.Ucp.Packet.Payload.{IsReadable}
use stunnel.Ucp.Stream.{InnerStream, new, new_metrics, called, update_rto}
use stunnel.Ucp.Stream.Recv.{
  process_data, recv, recv_loop, insert_data, position, try_wake_reader, insert_at, advance,
}
use stunnel.Ucp.Stream.Recv.Order.{stream, IsData}
use stunnel.Ucp.Stream.Recv.Delivery.{
  Receives, Advances, Arrived, process_data-Advances, recv-Receives,
}
use stunnel.Ucp.Stream.Recv.Runs.{Event, packet, read, receive}
use stunnel.Ucp.Stream.Send.{send}
use stunnel.Ucp.Stream.Send.Queued.{Buffers, queued, send-Buffers}
use stunnel.Ucp.Stream.Ack.{ack_scan, process_una, process_ack, send_ack_list}
use stunnel.Ucp.Stream.Ack.Removal.{FoundAt, passed, past, GoesUp, ack_scan_lem, process_una_lem}
use stunnel.Ucp.Stream.Ack.Rto.{base_srtt, update_rto_exact}
use stunnel.Ucp.Stream.Ack.Encoding.{encode, ack_all, process_ack-ack_all}
use stunnel.Ucp.Stream.Ack.Sending.{Went, send_ack_list-Went}
use stunnel.Ucp.Stream.Output.{timeout_resend, Pending, send_pending_packets}
use stunnel.Ucp.Stream.Output.Resend.{Resends, timeout_resend_lem}
use stunnel.Ucp.Stream.Output.Window.{Moved, start, datagrams, send_pending_packets_lem}

abbrev peer : SocketAddr
peer = v4 2130706433 4000

-- A stream whose peer begins at the last but one sequence number.
abbrev fresh : InnerStream
fresh = record (new peer new_metrics 0) { una = 4294967294 }

-- The data packet that arrives for a place, with one byte.
abbrev content : ℕ → Bytes
content k = (65 + k) ∷ []

abbrev data_packet : ℕ → ℕ → UcpPacket
data_packet seq byte = record new_ucp_packet {
  buf = splice 29 (byte ∷ []) (replicate buf_size 0);
  read_pos = 29;
  size = 30;
  payload = 1;
  seq = seq;
  cmd = cmd_data;
}

data_packet-IsReadable : (seq byte : ℕ) → IsReadable (data_packet seq byte)
unfolding new_ucp_packet replicate
data_packet-IsReadable seq byte =
    let full =
      length-splice 29 (byte ∷ []) (replicate buf_size 0) ∙ length-replicate {A = ℕ} buf_size 0 in
    record { pos_within = omega arith; size_within = omega (arith, full); buf_full = full }

third-IsData : IsData 4294967294 content (data_packet 0 67)
unfolding new_ucp_packet replicate
third-IsData = record {
  seq_u32 = omega arith;
  near = omega arith;
  readable = data_packet-IsReadable 0 67;
  carries = refl;
}

abbrev run : List Event
run =
    packet (data_packet 0 67)
    ∷ read 5
    ∷ packet (data_packet 4294967295 66)
    ∷ packet (data_packet 4294967294 65)
    ∷ read 2
    ∷ packet (data_packet 0 67)
    ∷ read 8
    ∷ []

-- The reader of the run gets the three bytes.
run_reads : (receive fresh [] run).0 ≡ 65 ∷ 66 ∷ 67 ∷ []
unfolding receive process_data recv recv_loop insert_data position try_wake_reader insert_at advance
    payload_read_slice new new_ucp_packet replicate
run_reads = refl

fresh-Receives : Receives 4294967294 content fresh [] 0
unfolding new
fresh-Receives = record { una_is = refl; una_near = omega arith; first = 0; order = (refl, refl) }

process_data-Advances_example :
    Advances 4294967294
      (omega arith)
      content
      fresh
      (process_data fresh (data_packet 0 67))
      []
      0
      (data_packet 0 67)
process_data-Advances_example =
    process_data-Advances 4294967294 (omega arith) content fresh (data_packet 0 67) [] 0
      third-IsData fresh-Receives

-- The first packet has arrived and can be read.
abbrev ready : InnerStream
ready = record fresh { una = 4294967295; recv_queue = data_packet 4294967294 65 ∷ [] }

ready-Receives : Receives 4294967294 content ready [] 1
unfolding new_ucp_packet replicate
ready-Receives = record {
  una_is = refl;
  una_near = omega arith;
  first = 0;
  order = inl (refl, omega arith, omega arith, data_packet-IsReadable 4294967294 65, (refl, refl));
}

recv-Receives_example :
    let (bs, s') = recv ready 8 in
    Receives 4294967294 content s' ([] ++ bs) 1
    × (length bs ≤ 8)
    × ((length bs ≡ 8) ⊎ ([] ++ bs ≡ stream 4294967294 content 1))
    × ((j : ℕ) → Arrived 4294967294 content j 1 ready → Arrived 4294967294 content j 1 s')
recv-Receives_example = recv-Receives 4294967294 (omega arith) content ready [] 1 8 ready-Receives

fresh-Buffers : Buffers 1 [] fresh
unfolding new queued
fresh-Buffers = record { numbered = refl; bytes_are = refl }

send-Buffers_example : Buffers 1 (7 ∷ 8 ∷ 9 ∷ []) (send fresh 1000000 (7 ∷ 8 ∷ 9 ∷ []))
send-Buffers_example = send-Buffers fresh 1000000 (7 ∷ 8 ∷ 9 ∷ []) 1 [] fresh-Buffers

-- Three packets that were sent, around the wrap-around.
abbrev sent : List UcpPacket
sent = data_packet 4294967295 1 ∷ data_packet 0 2 ∷ data_packet 1 3 ∷ []

ack_scan_lem_example :
    let (result, found) = ack_scan 0 50 sent in
    ((found ≡ true) × FoundAt 0 50 sent result)
    ⊎ ((found ≡ false) × All (λ p. p.seq ≢ 0) sent × (result ≡ map (passed 50) sent))
ack_scan_lem_example = ack_scan_lem 0 50 sent

-- The numbers go up from the last one before the wrap-around.
sent-GoesUp : GoesUp 4294967295 sent
unfolding new_ucp_packet
sent-GoesUp = (
  omega arith,
  omega arith,
  (omega arith, (omega arith, tt)),
  (omega arith, omega arith, (omega arith, tt), (omega arith, omega arith, tt, tt)),
)

process_una_lem_example :
    let s' = process_una (record fresh { send_queue = sent }) 1 in
    (gone : List UcpPacket) × (sent ≡ gone ++ s'.send_queue)
    × All (λ p. past 4294967295 p.seq < past 4294967295 1) gone
    × All (λ p. past 4294967295 1 ≤ past 4294967295 p.seq) s'.send_queue
    × (s' ≡ record (record fresh { send_queue = sent }) { send_queue = s'.send_queue })
process_una_lem_example =
    process_una_lem 4294967295 1 (omega arith) (omega arith) (omega arith)
      (record fresh { send_queue = sent }) sent-GoesUp

update_rto_exact_example :
    let s' = update_rto fresh 40 in
    (s'.srtt ≡ (9 * base_srtt fresh 40 + 40) / 10)
    × (s'.rttvar ≡ (3 * fresh.rttvar + (max 40 s'.srtt - min 40 s'.srtt)) / 4)
    × (s'.rto ≡ s'.srtt + 4 * s'.rttvar)
    × (s'.srtt ≤ 1000)
    × (s'.rttvar ≤ 1000)
    × (min (base_srtt fresh 40) 40 ≤ s'.srtt)
    × (s'.srtt ≤ max (base_srtt fresh 40) 40)
unfolding new
update_rto_exact_example =
    update_rto_exact fresh 40 1000 (omega arith) (omega arith) (omega arith) (omega arith)

-- A packet with one acknowledgement, of number 0 with the time stamp 50.
abbrev ack_packet : UcpPacket
ack_packet = record new_ucp_packet {
  buf = splice 29 (0 ∷ 0 ∷ 0 ∷ 0 ∷ 0 ∷ 0 ∷ 0 ∷ 50 ∷ []) (replicate buf_size 0);
  read_pos = 29;
  size = 37;
  payload = 8;
  cmd = cmd_ack;
}

ack_packet-IsReadable : IsReadable ack_packet
ack_packet-IsReadable =
    let full =
      length-splice 29 (0 ∷ 0 ∷ 0 ∷ 0 ∷ 0 ∷ 0 ∷ 0 ∷ 50 ∷ []) (replicate buf_size 0)
      ∙ length-replicate {A = ℕ} buf_size 0 in
    record { pos_within = omega arith; size_within = omega (arith, full); buf_full = full }

ack_packet_holds : unread ack_packet ≡ encode ((0, 50) ∷ [])
unfolding be_u32 replicate
ack_packet_holds = refl

abbrev waiting : InnerStream
waiting = record fresh { send_queue = sent; ack_list = (7, 1) ∷ (8, 2) ∷ [] }

process_ack-ack_all_example :
    process_ack waiting 60000000 ack_packet ≡ some (ack_all waiting 60000000 ((0, 50) ∷ []))
process_ack-ack_all_example =
    process_ack-ack_all waiting 60000000 ack_packet ((0, 50) ∷ []) refl (omega arith)
      ((omega arith, omega arith), tt) ack_packet-IsReadable ack_packet_holds

send_ack_list-Went_example :
    Went
      (λ _. 7)
      (record waiting { ack_list = [] })
      waiting.ack_list
      (send_ack_list (λ _. 7) waiting 60000000)
send_ack_list-Went_example = send_ack_list-Went (λ _. 7) 60000000 waiting

abbrev buffered : InnerStream
buffered = record fresh { remote_window = 2; send_buffer = sent }

send_pending_packets_lem_example :
    let s' = send_pending_packets (λ _. 7) buffered 60000000 in
    (p : Pending) × Moved buffered 60000000 (start buffered) buffered.send_buffer p
    × (s'.send_queue ≡ p.queue)
    × (s'.send_buffer ≡ p.buffer)
    × (s'.socket ≡ buffered.socket ++ datagrams (λ _. 7) buffered.remote_addr p.pending)
    × (s'.woken ≡ (
        if leb buffered.remote_window (length p.buffer)
        then buffered.woken
        else buffered.woken ++ called buffered.write_waker))
send_pending_packets_lem_example = send_pending_packets_lem (λ _. 7) buffered 60000000

timeout_resend_lem_example :
    let s' = timeout_resend (λ _. 7) waiting 200000000 in
    (again : List UcpPacket) × Resends waiting 200000000 waiting.send_queue s'.send_queue again
    × (s' ≡ record waiting {
      send_queue = s'.send_queue;
      socket = waiting.socket ++ datagrams (λ _. 7) waiting.remote_addr again;
    })
    × (map (λ p. p.seq) s'.send_queue ≡ map (λ p. p.seq) waiting.send_queue)
timeout_resend_lem_example = timeout_resend_lem (λ _. 7) waiting 200000000
