-- ===== src/Ucp/Stream/Recv/Read.antt =====
-- src/ucp/internal.rs: `recv` hands out the front of the receive queue, in order and without loss.
use stunnel.Base.{
  ℕ, zero, suc, ◌-◌, ◌≤◌, ◌<◌, ◌^◌, min, ◌≡◌, refl, ap, ◌∙◌, ◌⊎◌, inl, inr, true, false, ◌&&◌, List,
  [], ◌∷◌, ◌++◌, append-nil, append_assoc, Bytes, IsU32, length, length-append, ltb, ◌==◌,
  if◌then◌else◌, lt→ltb, le→ltb, sub_u32, arith,
}
use native.Mathlib.Decide.{ℕ_discrete, dec_lt}
use stunnel.Ucp.Packet.{UcpPacket, unread, payload_read_slice, payload_remaining}
use stunnel.Ucp.Packet.Payload.{IsReadable, payload_read_slice_lem, payload_remaining_lem}
use stunnel.Ucp.Stream.Recv.{precedes, recv_loop, prepend}
use stunnel.Ucp.Stream.Recv.Order.{off, stream, InOrder, Holds, place, precedes-lt}

seq-payload_read_slice : (p : UcpPacket) (n : ℕ) → (payload_read_slice p n).1.seq ≡ p.seq
unfolding payload_read_slice
seq-payload_read_slice p n = ground arith

length-eq-zero : (bs : Bytes) → length bs ≡ 0 → bs ≡ []
length-eq-zero [] h = refl
length-eq-zero (b ∷ bs) h = absurd (omega arith)

module _ (base : ℕ) (base_u32 : IsU32 base) (content : ℕ → Bytes) (u : ℕ) (small : u < 2 ^ 31) where
  pub precedes-place :
      (seq : ℕ)
      → IsU32 seq
      → sub_u32 seq base < 2 ^ 31
      → precedes seq (place base u) ≡ ltb (sub_u32 seq base) u
  precedes-place seq h near = ground (arith, precedes-lt seq (place base u) base)

  pub InOrder-end :
      (acc : Bytes) (queue : List UcpPacket)
      → InOrder base content u u acc queue
      → acc ≡ stream base content u
  InOrder-end acc [] (_, e) = e
  InOrder-end acc (q ∷ queue) (inl (_, h, _, _, _)) = absurd (omega arith)
  InOrder-end acc (q ∷ queue) (inr (_, e, _)) = e

  -- What a read leaves: it ends with the buffer full, or with nothing left below `una`.
  -- Of the queue `before` it removes places below `u` alone.
  abbrev pub Leaves : ℕ → Bytes → List UcpPacket → Bytes × List UcpPacket → Type 0
  Leaves room acc before (bs, queue) =
      (r : ℕ) × InOrder base content r u (acc ++ bs) queue
      × (length bs ≤ room)
      × ((length bs ≡ room) ⊎ (r ≡ u))
      × ((j : ℕ) → Holds base content j before → (j < u) ⊎ Holds base content j queue)

  Leaves-nothing :
      (r room : ℕ) (acc : Bytes) (queue : List UcpPacket)
      → InOrder base content r u acc queue
      → (0 ≡ room) ⊎ (r ≡ u)
      → Leaves room acc queue ([], queue)
  Leaves-nothing r room acc queue order done =
      (r, rw (append-nil acc) order, omega arith, done, λ j h. inr h)

  Leaves-prepend :
      (room : ℕ) (acc bs : Bytes) (before : List UcpPacket) (res : Bytes × List UcpPacket)
      → length bs ≤ room
      → Leaves (room - length bs) (acc ++ bs) before res
      → Leaves room acc before (prepend bs res)
  Leaves-prepend room acc bs before (later, queue) h (r, order, le, done, kept) = (
    r,
    rw (← append_assoc acc bs later) order,
    omega (arith, length-append bs later),
    ground (arith, length-append bs later),
    kept,
  )

  -- A queue that holds no more, but for places below `u`.
  Leaves-before :
      (room : ℕ) (acc : Bytes) (before more : List UcpPacket) (res : Bytes × List UcpPacket)
      → ((j : ℕ) → Holds base content j more → (j < u) ⊎ Holds base content j before)
      → Leaves room acc before res
      → Leaves room acc more res
  Leaves-before room acc before more (bs, queue) sub (r, order, le, done, kept) =
      (r, order, le, done, λ j h. elim (sub j h) [ inl below ↦ inl below | inr held ↦ kept j held ])

  -- The two ways in which a round goes.
  recv_stops :
      (fuel room : ℕ) (q : UcpPacket) (queue : List UcpPacket)
      → (ltb 0 room && precedes q.seq (place base u)) ≡ false
      → recv_loop (suc fuel) (place base u) room (q ∷ queue) ≡ ([], q ∷ queue)
  unfolding recv_loop
  recv_stops fuel room q queue e = rw (e, recv_loop) refl

  recv_takes :
      (fuel room : ℕ) (q : UcpPacket) (queue : List UcpPacket)
      → (ltb 0 room && precedes q.seq (place base u)) ≡ true
      → recv_loop (suc fuel) (place base u) room (q ∷ queue) ≡ (
          let (bs, front) = payload_read_slice q room in
          prepend bs (
            recv_loop fuel
              (place base u)
              (room - length bs)
              (if payload_remaining front == 0 then queue else front ∷ queue)))
  unfolding recv_loop
  recv_takes fuel room q queue e = rw (e, recv_loop) refl

  below_place :
      (q : UcpPacket) → IsU32 q.seq → off base content q < u → precedes q.seq (place base u) ≡ true
  below_place q h lt =
      rw (precedes-place q.seq h (omega arith), lt→ltb (off base content q) u lt) refl

  above_place :
      (q : UcpPacket)
      → IsU32 q.seq
      → off base content q < 2 ^ 31
      → u ≤ off base content q
      → precedes q.seq (place base u) ≡ false
  above_place q h near le = rw (precedes-place q.seq h near, le→ltb (off base content q) u le) refl

  -- A round on a packet below `una`, with the recursive call for what is left.
  module _ (fuel r room : ℕ) (acc : Bytes) (q : UcpPacket) (queue : List UcpPacket)
      (at_r : off base content q ≡ r) (below : r < u) (seq_u32 : IsU32 q.seq) (ok : IsReadable q)
      (order : InOrder base content (suc r) u (acc ++ unread q) queue)
      (enough : length queue ≤ fuel)
      (again : (r' room' : ℕ) (acc' : Bytes) (queue' : List UcpPacket)
        → (room' ≡ 0) ⊎ (length queue' ≤ fuel)
        → InOrder base content r' u acc' queue'
        → Leaves room' acc' queue' (recv_loop fuel (place base u) room' queue')) where
    abbrev bs : Bytes
    bs = (payload_read_slice q room).0

    abbrev front : UcpPacket
    front = (payload_read_slice q room).1

    read_lem :
        (unread q ≡ bs ++ unread front)
        × (length bs ≡ min (length (unread q)) room)
        × IsReadable front
    read_lem = payload_read_slice_lem q ok room

    rest-Leaves : Leaves (room - length bs) (acc ++ bs) (q ∷ queue) (
        recv_loop fuel
          (place base u)
          (room - length bs)
          (if payload_remaining front == 0 then queue else front ∷ queue))
    rest-Leaves = elim (ℕ_discrete (length (unread front)) 0) [
      | yes empty ↦
          let whole : unread q ≡ bs =
            read_lem.0 ∙ ap (◌++◌ bs) (length-eq-zero (unread front) empty) ∙ append-nil bs in
          rw (payload_remaining_lem front read_lem.2, empty)
            (Leaves-before _ _ queue (q ∷ queue) _
              (λ j. elim [ inl e ↦ inl (omega arith) | inr h ↦ inr h ])
              (again (suc r) (room - length bs) (acc ++ bs) queue (inr enough) (rw whole at order)))
      | no more ↦
          let test : (payload_remaining front == 0) ≡ false =
            rw (payload_remaining_lem front read_lem.2) (ground arith) in
          rw test (
            Leaves-before _ _ (front ∷ queue) (q ∷ queue) _
              (λ j. elim [
                | inl e ↦ inr (inl (rw (seq-payload_read_slice q room) e))
                | inr h ↦ inr (inr h)
              ])
              (again r (room - length bs) (acc ++ bs) (front ∷ queue)
                (inl (
                  omega (arith, read_lem.1, ap length read_lem.0, length-append bs (unread front))))
                (inl (
                  rw (seq-payload_read_slice q room) at_r,
                  below,
                  rw (seq-payload_read_slice q room) seq_u32,
                  read_lem.2,
                  rw (append_assoc acc bs (unread front), ← read_lem.0) order,
                ))))
    ]

    round-Leaves :
        0 < room
        → Leaves room acc (q ∷ queue) (recv_loop (suc fuel) (place base u) room (q ∷ queue))
    round-Leaves pos =
        rw
          (recv_takes fuel room q queue
            (rw (lt→ltb 0 room pos, below_place q seq_u32 (omega arith)) refl))
          (Leaves-prepend room acc bs (q ∷ queue) _ (omega (arith, read_lem.1)) rest-Leaves)

  -- With as many rounds as packets the loop ends by itself.
  pub recv_loop-Leaves :
      (fuel r room : ℕ) (acc : Bytes) (queue : List UcpPacket)
      → (room ≡ 0) ⊎ (length queue ≤ fuel)
      → InOrder base content r u acc queue
      → Leaves room acc queue (recv_loop fuel (place base u) room queue)
  recv_loop-Leaves zero r room acc [] enough order =
      unfold recv_loop in Leaves-nothing r room acc [] order (inr order.0)
  recv_loop-Leaves zero r room acc (q ∷ queue) enough order =
      unfold recv_loop in Leaves-nothing r room acc (q ∷ queue) order (inl (ground arith))
  recv_loop-Leaves (suc fuel) r room acc [] enough order =
      unfold recv_loop in Leaves-nothing r room acc [] order (inr order.0)
  recv_loop-Leaves (suc fuel) r room acc (q ∷ queue) enough (inl (at_r, below, small', ok, order)) =
      elim (dec_lt 0 room) [
        | yes pos ↦
            round-Leaves fuel r room acc q queue at_r below small' ok order (ground arith)
              (recv_loop-Leaves fuel) pos
        | no full ↦ rw (recv_stops fuel room q queue (rw (le→ltb 0 room (omega arith)) refl)) (
            Leaves-nothing r room acc (q ∷ queue) (inl (at_r, below, small', ok, order))
              (inl (omega arith)))
      ]
  recv_loop-Leaves (suc fuel) r room acc (q ∷ queue) enough (inr (e, all, (le, whole, rest))) =
      rw
        (recv_stops fuel room q queue (
          rw (above_place q whole.seq_u32 (omega (arith, whole.near)) (omega arith))
            (ground arith)))
        (Leaves-nothing r room acc (q ∷ queue) (inr (e, all, (le, whole, rest))) (inr e))
