-- ===== src/Tests/Machines.antt =====
-- src/ucp/internal.rs: the theorems on the state machine and on polls, applied to streams.
use stunnel.Base.{
  ◌≤◌, ◌<◌, ◌≡◌, refl, ◌⊎◌, true, false, some, [], ◌∷◌, Bytes, length, replicate, from_be,
  SocketAddr, v4, arith,
}
use stunnel.Ucp.Packet.{new as new_ucp_packet, is_legal, parse, parse_header, received}
use stunnel.Ucp.Stream.{InnerStream, new, new_metrics}
use stunnel.Ucp.Stream.Send.Queued.{Buffers, queued}
use stunnel.Ucp.Stream.Machine.{pending, failed, written, input, poll_write}
use stunnel.Ucp.Stream.Machine.Safety.{Handled, input-parse}
use stunnel.Ucp.Stream.Machine.Polls.{poll_write-Buffers}

abbrev pub peer : SocketAddr
peer = v4 2130706433 4000

-- A stream that waits for a session.
abbrev pub listening : InnerStream
listening = new peer new_metrics 0

-- The packet that opens session 9, with the checksum 7.
abbrev pub opening : Bytes
opening =
    0 ∷ 0 ∷ 0 ∷ 7 ∷ 0 ∷ 0 ∷ 0 ∷ 9 ∷ 0 ∷ 0 ∷ 1 ∷ 0 ∷ 0 ∷ 0 ∷ 2 ∷ 0 ∷ 0 ∷ 0 ∷ 0 ∷ 0 ∷ 0 ∷ 0 ∷ 0 ∷ 0
    ∷ 0 ∷ 0 ∷ 0 ∷ 1 ∷ 128 ∷ []

opening_accepted : (parse (λ _. 7) (received opening)).1 ≡ true
unfolding parse is_legal parse_header from_be received new_ucp_packet replicate
opening_accepted = refl

input-parse_example :
    let packet = (parse (λ _. 7) (received opening)).0 in
    (s' : InnerStream) × (input (λ _. 7) listening 5000000 packet peer ≡ some s')
    × Handled (λ _. 7) listening packet peer s'
input-parse_example =
    input-parse (λ _. 7) listening 5000000 opening peer (omega arith) opening_accepted

listening-Buffers : Buffers 1 [] listening
unfolding new queued
listening-Buffers = record { numbered = refl; bytes_are = refl }

poll_write-Buffers_example :
    let (r, s') = poll_write listening 5000000 3 (7 ∷ 8 ∷ []) in
    ((listening.alive ≡ true)
      × (length listening.send_buffer < listening.remote_window)
      × (r ≡ written 2)
      × Buffers 1 (7 ∷ 8 ∷ []) s')
    ⊎ ((listening.alive ≡ true)
        × (listening.remote_window ≤ length listening.send_buffer)
        × (r ≡ pending)
        × (s'.write_waker ≡ some 3)
        × Buffers 1 [] s')
    ⊎ ((listening.alive ≡ false) × (r ≡ failed) × (s' ≡ listening))
poll_write-Buffers_example =
    poll_write-Buffers listening 5000000 3 (7 ∷ 8 ∷ []) 1 [] listening-Buffers
