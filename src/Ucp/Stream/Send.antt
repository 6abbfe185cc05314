-- ===== src/Ucp/Stream/Send.antt =====
-- src/ucp/internal.rs: the sending side up to the send buffer, `send` and `make_packet_send`.
pub mod Queued
use stunnel.Base.{
  ℕ, zero, suc, ◌+◌, ◌-◌, min, Bool, true, false, not, Option, none, some, List, [], ◌∷◌, ◌++◌,
  Bytes, length, take, drop, slice, ltb, ◌==◌, if◌then◌else◌,
}
use stunnel.Ucp.{cmd_data}
use stunnel.Ucp.Packet.{UcpPacket, remaining_load, payload_write_slice}
use stunnel.Ucp.Stream.{InnerStream, new_packet, send_packet}

-- A round of `make_packet_send` on the bytes `buf` that are left: a packet with the front of them, and
-- how many bytes it took.
unfoldable pub make_packet : InnerStream → ℕ → Bytes → ℕ × InnerStream
make_packet s now buf =
    let (packet, s') = new_packet s now cmd_data in
    let size = min (remaining_load packet) (length buf) in
    (size, send_packet s' (payload_write_slice packet (take size buf)).0)

-- The loop of `make_packet_send`, with fuel.
unfoldable pub make_packets : ℕ → InnerStream → ℕ → Bytes → InnerStream
make_packets zero s now buf = s
make_packets (suc fuel) s now [] = s
make_packets (suc fuel) s now (b ∷ buf) =
    let (size, s') = make_packet s now (b ∷ buf) in make_packets fuel s' now (drop size (b ∷ buf))

-- Each round takes a byte at least.
unfoldable pub make_packet_send : InnerStream → ℕ → Bytes → InnerStream
make_packet_send s now buf = make_packets (length buf) s now buf

-- `send_buffer.back_mut()`: the bytes that are put into the last packet, and the buffer then.
unfoldable pub fill_back : List UcpPacket → Bytes → ℕ × List UcpPacket
fill_back [] buf = (0, [])
fill_back (packet ∷ []) buf =
    if packet.cmd == cmd_data
    then (let remain = min (remaining_load packet) (length buf) in
        if ltb 0 remain
        then (remain, (payload_write_slice packet (take remain buf)).0 ∷ [])
        else (remain, packet ∷ []))
    else (0, packet ∷ [])
fill_back (packet ∷ next ∷ rest) buf =
    let (pos, filled) = fill_back (next ∷ rest) buf in (pos, packet ∷ filled)

unfoldable pub send : InnerStream → ℕ → Bytes → InnerStream
send s now buf =
    let (pos, filled) = fill_back s.send_buffer buf in
    let s' = record s { send_buffer = filled } in
    if ltb pos (length buf) then make_packet_send s' now (drop pos buf) else s'
