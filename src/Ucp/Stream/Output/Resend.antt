-- ===== src/Ucp/Stream/Output/Resend.antt =====
-- src/ucp/internal.rs: `timeout_resend` sends again what has waited too long or was passed over.
use stunnel.Base.{
  ℕ, ◌+◌, ◌-◌, ◌%◌, ◌^◌, ◌≤◌, ◌<◌, ◌⊎◌, ◌≡◌, refl, ap, true, inl, inr, Bool-cases, List, [], ◌∷◌,
  ◌++◌, map, Bytes, millis_since, arith,
}
use stunnel.Ucp.Packet.{UcpPacket}
use stunnel.Ucp.Stream.{InnerStream}
use stunnel.Ucp.Stream.Output.{is_due, resend_scan, timeout_resend}
use stunnel.Ucp.Stream.Output.Window.{datagrams, send_all_lem}

module _ (s : InnerStream) (now : ℕ) where
  -- The stream's time, in milliseconds since it began.
  abbrev time : ℕ
  time = millis_since now s.initial_time % 2 ^ 32

  -- How long ago a packet was sent, over the wrap-around.
  abbrev pub waited : UcpPacket → ℕ
  waited p = (time + 2 ^ 32 - p.timestamp) % 2 ^ 32

  -- A packet has waited for the timeout, or two acknowledgements at least have passed it over.
  abbrev pub IsLate : UcpPacket → Type 0
  IsLate p = (s.rto ≤ waited p) ⊎ (2 ≤ p.skip_times)

  -- A packet as it goes out again.
  abbrev pub renewed : UcpPacket → UcpPacket
  renewed p = record p {
    skip_times = 0;
    window = s.local_window;
    una = s.una;
    timestamp = time;
    xmit = (p.xmit + 1) % 2 ^ 32;
  }

  -- A queue, the queue then, and the packets that go out again: the late ones are renewed in both, the others stay.
  pub data Resends : List UcpPacket → List UcpPacket → List UcpPacket → Type 0 where
    done : Resends [] [] []
    late :
        {queue queue' again : List UcpPacket} (p : UcpPacket)
        → IsLate p
        → Resends queue queue' again
        → Resends (p ∷ queue) (renewed p ∷ queue') (renewed p ∷ again)
    early :
        {queue queue' again : List UcpPacket} (p : UcpPacket)
        → waited p < s.rto
        → p.skip_times < 2
        → Resends queue queue' again
        → Resends (p ∷ queue) (p ∷ queue') again

  resend_scan-Resends :
      (queue : List UcpPacket)
      → let (queue', again) = resend_scan s now queue in Resends queue queue' again
  unfolding resend_scan
  resend_scan-Resends [] = done
  resend_scan-Resends (p ∷ queue) = elim (Bool-cases (is_due s now p)) [
    | inl due ↦ rw due (late p (is_late due) (resend_scan-Resends queue))
    | inr well ↦ rw well (early p (ground arith) (ground arith) (resend_scan-Resends queue))
  ]
    where
      is_late : is_due s now p ≡ true → IsLate p
      is_late due = ground arith

  Resends-seq :
      {queue queue' again : List UcpPacket}
      → Resends queue queue' again
      → map (λ p. p.seq) queue' ≡ map (λ p. p.seq) queue
  Resends-seq done = refl
  Resends-seq (late p is_late rest) = ap (◌∷◌ p.seq) (Resends-seq rest)
  Resends-seq (early p young few rest) = ap (◌∷◌ p.seq) (Resends-seq rest)

-- Of the packets that are not acknowledged, `timeout_resend` sends again those that were sent the
-- timeout or longer ago, over the wrap-around, or passed over twice at least, and no others, in
-- order: with the stream's time, window and `una`, no skips and one more sending, and so they stand
-- in the queue too. The queue keeps its packets and their order, and nothing else of the stream
-- changes.
pub timeout_resend_lem :
    (crc : Bytes → ℕ) (s : InnerStream) (now : ℕ)
    → let s' = timeout_resend crc s now in
      (again : List UcpPacket) × Resends s now s.send_queue s'.send_queue again
      × (s' ≡ record s {
        send_queue = s'.send_queue;
        socket = s.socket ++ datagrams crc s.remote_addr again;
      })
      × (map (λ p. p.seq) s'.send_queue ≡ map (λ p. p.seq) s.send_queue)
unfolding timeout_resend
timeout_resend_lem crc s now =
    let (queue', again) = resend_scan s now s.send_queue in
    let resends = resend_scan-Resends s now s.send_queue in
    let whole = send_all_lem crc (record s { send_queue = queue' }) again in
    rw whole (again, resends, refl, Resends-seq s now resends)
