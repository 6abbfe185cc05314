-- ===== src/Ucp/Stream/Output/Window.antt =====
-- src/ucp/internal.rs: `send_pending_packets` moves packets into the send queue within the peer's window.
use stunnel.Base.{
  ℕ, ◌+◌, ◌-◌, ◌%◌, ◌^◌, millis_since, ◌≤◌, ◌<◌, max, ◌≡◌, refl, sym, ap, subst, ◌∙◌, ◌⊎◌, inl, inr,
  true, false, not, ◌&&◌, Bool-cases, List, [], ◌∷◌, ◌++◌, append-nil, append_assoc, map, All,
  Bytes, length, length-append, ltb, leb, if◌then◌else◌, SocketAddr, arith,
}
use stunnel.Ucp.Packet.{UcpPacket, pack, packed_buffer}
use stunnel.Ucp.Stream.{InnerStream, called, send_packet_directly, try_wake_writer}
use stunnel.Ucp.Stream.Output.{
  stamped, too_far, Pending, pending_scan, send_all, send_pending_packets,
}

-- How many numbers a packet is ahead of the oldest one, over the wrap-around.
abbrev pub ahead : UcpPacket → UcpPacket → ℕ
ahead oldest packet = (packet.seq + 2 ^ 32 - oldest.seq) % 2 ^ 32

-- Why no more packets were moved: none is left, the queue is full, or the next one is too far ahead.
abbrev pub Stops : ℕ → List UcpPacket → List UcpPacket → Type 0
Stops window queue [] = Unit
Stops window [] (packet ∷ _) = window ≤ 0
Stops window (oldest ∷ queue) (packet ∷ _) =
    (window ≤ length (oldest ∷ queue)) ⊎ (window ≤ ahead oldest packet)

-- A list of packets within a window of the first of the queue.
abbrev pub Within : ℕ → List UcpPacket → List UcpPacket → Type 0
Within window [] moved = Unit
Within window (oldest ∷ _) moved = All (λ p. ahead oldest p < window) moved

-- A packet as it goes out the first time, with the time in milliseconds since the stream began.
abbrev pub going_out : InnerStream → ℕ → UcpPacket → UcpPacket
going_out s now packet = record packet {
  window = s.local_window;
  una = s.una;
  timestamp = millis_since now s.initial_time % 2 ^ 32;
}

-- From a start `p` and the send buffer, the packets that are moved.
pub record Moved (s : InnerStream) (now : ℕ) (p : Pending) (buffer : List UcpPacket) (p' : Pending)
    : Type 0 where
  pub moved : List UcpPacket
  pub splits : buffer ≡ moved ++ p'.buffer
  pub queue_is : p'.queue ≡ p.queue ++ map (going_out s now) moved
  pub pending_is : p'.pending ≡ p.pending ++ map (going_out s now) moved
  pub bounded : length p'.queue ≤ max (length p.queue) s.remote_window
  pub near : Within s.remote_window p'.queue moved
  pub stops : Stops s.remote_window p'.queue p'.buffer

none_moved : (window : ℕ) (queue : List UcpPacket) → Within window queue []
none_moved window [] = tt
none_moved window (q ∷ queue) = tt

module _ (s : InnerStream) (now : ℕ) where
  pending_scan-Moved :
      (p : Pending) (buffer : List UcpPacket) → Moved s now p buffer (pending_scan s now p buffer)
  unfolding pending_scan
  pending_scan-Moved p [] = record {
    moved = [];
    splits = refl;
    queue_is = sym (append-nil p.queue);
    pending_is = sym (append-nil p.pending);
    bounded = omega arith;
    near = none_moved s.remote_window p.queue;
    stops = tt;
  }
  pending_scan-Moved p (packet ∷ buffer) =
      elim (Bool-cases
        (ltb (length p.queue) s.remote_window && not (too_far s.remote_window p.queue packet))) [
          | inl room ↦
              let p1 : Pending = record p {
                queue = p.queue ++ stamped s now packet ∷ [];
                pending = p.pending ++ stamped s now packet ∷ [];
              } in
              let m = pending_scan-Moved p1 buffer in
              rw room (record {
                moved = packet ∷ m.moved;
                splits = ap (◌∷◌ packet) m.splits;
                queue_is = m.queue_is ∙ append_assoc p.queue (stamped s now packet ∷ []) _;
                pending_is = m.pending_is ∙ append_assoc p.pending (stamped s now packet ∷ []) _;
                bounded = omega (
                  arith,
                  m.bounded,
                  length-append p.queue (stamped s now packet ∷ []),
                  below room,
                );
                near =
                    subst (λ q. Within s.remote_window q (packet ∷ m.moved)) (sym m.queue_is)
                      (near_first p.queue _ m.moved (below room) (close room)
                        (subst (λ q. Within s.remote_window q m.moved) m.queue_is m.near));
                stops = m.stops;
              })
          | inr full ↦ rw full (record {
            moved = [];
            splits = refl;
            queue_is = sym (append-nil p.queue);
            pending_is = sym (append-nil p.pending);
            bounded = omega arith;
            near = none_moved s.remote_window p.queue;
            stops = refused p.queue full;
          })
        ]
    where
      below :
          (ltb (length p.queue) s.remote_window && not (too_far s.remote_window p.queue packet))
            ≡ true
          → length p.queue < s.remote_window
      below h = ground arith

      close :
          (ltb (length p.queue) s.remote_window && not (too_far s.remote_window p.queue packet))
            ≡ true
          → too_far s.remote_window p.queue packet ≡ false
      close h = ground arith

      refused :
          (queue : List UcpPacket)
          → (ltb (length queue) s.remote_window && not (too_far s.remote_window queue packet))
            ≡ false
          → Stops s.remote_window queue (packet ∷ buffer)
      refused [] h = ground arith
      refused (q ∷ queue) h = ground arith

      near_first :
          (queue rest moved : List UcpPacket)
          → length queue < s.remote_window
          → too_far s.remote_window queue packet ≡ false
          → Within s.remote_window ((queue ++ stamped s now packet ∷ []) ++ rest) moved
          → Within s.remote_window ((queue ++ stamped s now packet ∷ []) ++ rest) (packet ∷ moved)
      near_first [] rest moved h e all = (omega arith, all)
      near_first (q ∷ queue) rest moved h e all = (ground arith, all)

abbrev pub datagrams : (Bytes → ℕ) → SocketAddr → List UcpPacket → List (Bytes × SocketAddr)
datagrams crc addr = map (λ p. (packed_buffer (pack crc p), addr))

-- `send_all` touches the socket alone.
pub send_all_lem :
    (crc : Bytes → ℕ) (s : InnerStream) (packets : List UcpPacket)
    → send_all crc s packets ≡ record s { socket = s.socket ++ datagrams crc s.remote_addr packets }
unfolding send_all send_packet_directly
send_all_lem crc s [] = rw (append-nil s.socket) refl
send_all_lem crc s (p ∷ packets) =
    send_all_lem crc (send_packet_directly crc s p) packets ∙ rw (append_assoc s.socket) refl

abbrev pub start : InnerStream → Pending
start s = record { queue = s.send_queue; buffer = []; pending = [] }

-- `send_pending_packets` moves a front of the send buffer, in order and with the stream's window,
-- `una` and time, to the end of the send queue and to the socket, and the rest stays. The send queue
-- does not grow past the peer's window. Each packet that moves is ahead of the oldest one in the
-- queue by less than the window, over the wrap-around, and if packets stay, the queue is full or the
-- first of them is the window or more ahead. The writer is woken exactly if the send buffer has room
-- again.
pub send_pending_packets_lem :
    (crc : Bytes → ℕ) (s : InnerStream) (now : ℕ)
    → let s' = send_pending_packets crc s now in
      (p : Pending) × Moved s now (start s) s.send_buffer p
      × (s'.send_queue ≡ p.queue)
      × (s'.send_buffer ≡ p.buffer)
      × (s'.socket ≡ s.socket ++ datagrams crc s.remote_addr p.pending)
      × (s'.woken ≡ (
          if leb s.remote_window (length p.buffer)
          then s.woken
          else s.woken ++ called s.write_waker))
unfolding send_pending_packets try_wake_writer
send_pending_packets_lem crc s now =
    let p = pending_scan s now (start s) s.send_buffer in
    let sent =
      send_all_lem crc (record s { send_queue = p.queue; send_buffer = p.buffer }) p.pending in
    elim (Bool-cases (leb s.remote_window (length p.buffer))) [
      | inl full ↦ (
        p,
        pending_scan-Moved s now (start s) s.send_buffer,
        rw sent (rw full refl),
        rw sent (rw full refl),
        rw sent (rw full refl),
        rw sent (rw full refl),
      )
      | inr room ↦ (
        p,
        pending_scan-Moved s now (start s) s.send_buffer,
        rw sent (rw room refl),
        rw sent (rw room refl),
        rw sent (rw room refl),
        rw sent (rw room refl),
      )
    ]
