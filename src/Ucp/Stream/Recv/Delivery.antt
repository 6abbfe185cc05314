-- ===== src/Ucp/Stream/Recv/Delivery.antt =====
-- src/ucp/internal.rs: the receiving side as a whole. Whatever the order, the repetition and the loss of the
-- datagrams, the reader gets what the sender wrote, in order.
use stunnel.Base.{
  ℕ, zero, suc, ◌≤◌, ◌<◌, ◌^◌, ◌≡◌, refl, ◌∙◌, ◌⊎◌, inl, inr, Option, none, some, List, [], ◌∷◌,
  ◌++◌, Bytes, IsU32, length, ltb, lt→ltb, le→ltb, arith,
}
use native.Mathlib.Decide.{dec_lt}
use stunnel.Ucp.Packet.{UcpPacket}
use stunnel.Ucp.Stream.{InnerStream}
use stunnel.Ucp.Stream.Recv.{
  precedes, insert_at, advance, try_wake_reader, insert_data, process_data, recv,
}
use stunnel.Ucp.Stream.Recv.Order.{off, stream, IsData, InOrder, Holds, place}
use stunnel.Ucp.Stream.Recv.Insert.{settle, Settled}
use stunnel.Ucp.Stream.Recv.Read.{recv_loop-Leaves, InOrder-end, precedes-place}

-- Waking the reader touches neither the queue nor `una`.
pub try_wake_reader_keeps :
    (s : InnerStream)
    → ((try_wake_reader s).una ≡ s.una) × ((try_wake_reader s).recv_queue ≡ s.recv_queue)
unfolding try_wake_reader
try_wake_reader_keeps s = ground arith

module _ (base : ℕ) (content : ℕ → Bytes) where
  -- The stream has received the places below `u`, and `out` has been read.
  pub record Receives (s : InnerStream) (out : Bytes) (u : ℕ) : Type 0 where
    pub una_is : s.una ≡ place base u
    pub una_near : u < 2 ^ 31
    pub first : ℕ
    pub order : InOrder base content first u out s.recv_queue

  -- Place `k` has arrived.
  abbrev pub Arrived : ℕ → ℕ → InnerStream → Type 0
  Arrived k u s = (k < u) ⊎ Holds base content k s.recv_queue

  Holds-insert_at :
      (k pos : ℕ) (new : UcpPacket) (queue : List UcpPacket)
      → Holds base content k queue
      → Holds base content k (insert_at pos new queue)
  unfolding insert_at
  Holds-insert_at k zero new queue h = inr h
  Holds-insert_at k (suc pos) new [] h = absurd h
  Holds-insert_at k (suc pos) new (q ∷ queue) (inl h) = inl h
  Holds-insert_at k (suc pos) new (q ∷ queue) (inr h) = inr (Holds-insert_at k pos new queue h)

  Holds-insert_at_new :
      (pos : ℕ) (new : UcpPacket) (queue : List UcpPacket)
      → Holds base content (off base content new) (insert_at pos new queue)
  unfolding insert_at
  Holds-insert_at_new zero new queue = inl refl
  Holds-insert_at_new (suc pos) new [] = inl refl
  Holds-insert_at_new (suc pos) new (q ∷ queue) = inr (Holds-insert_at_new pos new queue)

module _ (base : ℕ) (base_u32 : IsU32 base) (content : ℕ → Bytes) where
  -- What a data packet does: nothing is lost, and the packet has arrived.
  abbrev pub Advances : InnerStream → InnerStream → Bytes → ℕ → UcpPacket → Type 0
  Advances s s' out u new =
      (u' : ℕ) × (u ≤ u')
      × Receives base content s' out u'
      × Arrived base content (off base content new) u' s'
      × ((j : ℕ) → Arrived base content j u s → Arrived base content j u' s')

  module _ (s : InnerStream) (new : UcpPacket) (arrives : IsData base content new) (out : Bytes)
      (u : ℕ) (got : Receives base content s out u) where
    insert_data-Advances :
        (o : Option ℕ)
        → Settled base base_u32 content new arrives got.first u out s.recv_queue o
        → Advances s (insert_data s new o) out u new
    unfolding insert_data
    insert_data-Advances none held = (u, omega arith, got, inr held, λ j h. h)
    insert_data-Advances (some pos) (u', le, near, moved, order) =
        let queue = insert_at pos new s.recv_queue in
        let kept =
          try_wake_reader_keeps (record s { recv_queue = queue; una = advance pos s.una queue }) in
        (
          u',
          le,
          record {
            una_is = kept.0 ∙ rw got.una_is moved;
            una_near = near;
            first = got.first;
            order = rw kept.1 order;
          },
          inr (rw kept.1 (Holds-insert_at_new base content pos new s.recv_queue)),
          λ j. elim [
            | inl h ↦ inl (omega arith)
            | inr h ↦ inr (rw kept.1 (Holds-insert_at base content j pos new s.recv_queue h))
          ],
        )

  -- A whole data packet of the sender, whatever its place within 2 ^ 31 of the base and how often it
  -- came before, keeps the receiving side in order. `una` does not go back, the packet has arrived,
  -- and so have all that had.
  pub process_data-Advances :
      (s : InnerStream) (new : UcpPacket) (out : Bytes) (u : ℕ)
      → IsData base content new
      → Receives base content s out u
      → Advances s (process_data s new) out u new
  unfolding process_data
  process_data-Advances s new out u arrives got = elim (dec_lt (off base content new) u) [
    | yes old ↦
        rw (precedes_new, lt→ltb (off base content new) u old)
          (u, omega arith, got', inl old, λ j h. h)
    | no ahead ↦
        rw (precedes_new, le→ltb (off base content new) u (omega arith))
          (insert_data-Advances acked new arrives out u got' _ (
            settle base base_u32 content new arrives got.first u out s.recv_queue (omega arith)
              got.order))
  ]
    where
      acked : InnerStream
      acked = record s { ack_list = s.ack_list ++ (new.seq, new.timestamp) ∷ [] }

      got' : Receives base content acked out u
      got' = record {
        una_is = got.una_is;
        una_near = got.una_near;
        first = got.first;
        order = got.order;
      }

      precedes_new : precedes new.seq s.una ≡ ltb (off base content new) u
      precedes_new = rw got.una_is (
          precedes-place base base_u32 content u got.una_near new.seq arrives.seq_u32
            (omega (arith, arrives.near)))

  -- On a receiving side in order, a read gives the next bytes of what the sender wrote: as many as
  -- there is room for, or all those below `una`. It keeps the receiving side in order, and what had
  -- arrived has arrived still.
  pub recv-Receives :
      (s : InnerStream) (out : Bytes) (u room : ℕ)
      → Receives base content s out u
      → let (bs, s') = recv s room in
        Receives base content s' (out ++ bs) u
        × (length bs ≤ room)
        × ((length bs ≡ room) ⊎ (out ++ bs ≡ stream base content u))
        × ((j : ℕ) → Arrived base content j u s → Arrived base content j u s')
  unfolding recv
  recv-Receives s out u room got =
      let (r, order, le, done, kept) = rw (← got.una_is) at (
        recv_loop-Leaves base base_u32 content u got.una_near (length s.recv_queue) got.first room
          out s.recv_queue (inr (omega arith)) got.order) in
      (
        record { una_is = got.una_is; una_near = got.una_near; first = r; order = order },
        le,
        elim done [
          | inl full ↦ inl full
          | inr all ↦ inr (InOrder-end base base_u32 content u got.una_near _ _ (rw all at order))
        ],
        λ j. elim [ inl below ↦ inl below | inr held ↦ kept j held ],
      )
