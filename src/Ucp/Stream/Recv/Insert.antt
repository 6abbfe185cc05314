-- ===== src/Ucp/Stream/Recv/Insert.antt =====
-- src/ucp/internal.rs: `process_data` puts a packet at its place in the receive queue.
use stunnel.Base.{
  ℕ, zero, suc, ◌≤◌, ◌<◌, ◌^◌, ◌≡◌, refl, sym, inl, inr, Option, none, some, List, [], ◌∷◌, ◌++◌,
  Bytes, IsU32, arith,
}
use native.Mathlib.Decide.{ℕ_discrete, dec_lt}
use stunnel.Ucp.Packet.{UcpPacket, unread}
use stunnel.Ucp.Packet.Payload.{IsReadable}
use stunnel.Ucp.Stream.Recv.{position, insert_at, advance}
use stunnel.Ucp.Stream.Recv.Order.{
  off, stream, IsData, Ascending, InOrder, Holds, shift, place, position-cons, advance-Ascending,
  not_at_place,
}

module _ (base : ℕ) (base_u32 : IsU32 base) (content : ℕ → Bytes) where
  advance_stays :
      (u low pos : ℕ) (queue : List UcpPacket)
      → u < low
      → u < 2 ^ 31
      → Ascending base content low queue
      → advance pos (place base u) queue ≡ place base u
  unfolding advance
  advance_stays u low zero [] h small a = refl
  advance_stays u low (suc pos) [] h small a = refl
  advance_stays u low zero (q ∷ queue) h small (le, whole, rest) =
      rw (not_at_place base base_u32 content q.seq u whole.seq_u32 small (omega arith)) refl
  advance_stays u low (suc pos) (q ∷ queue) h small (le, whole, rest) =
      advance_stays u (suc (off base content q)) pos queue (omega arith) small rest

  InOrder-Ascending :
      (u : ℕ) (acc : Bytes) (queue : List UcpPacket)
      → acc ≡ stream base content u
      → Ascending base content (suc u) queue
      → InOrder base content u u acc queue
  InOrder-Ascending u acc [] e a = (refl, e)
  InOrder-Ascending u acc (q ∷ queue) e a = inr (refl, e, a)

  module _ (new : UcpPacket) (arrives : IsData base content new) where
    abbrev pub k : ℕ
    k = off base content new

    -- What the insertion leaves of an ascending queue.
    abbrev pub Inserted : ℕ → List UcpPacket → Option ℕ → Type 0
    Inserted low queue none = Holds base content k queue
    Inserted low queue (some pos) = Ascending base content low (insert_at pos new queue)

    Inserted-shift :
        (low : ℕ) (q : UcpPacket) (queue : List UcpPacket) (o : Option ℕ)
        → low ≤ off base content q
        → IsData base content q
        → Inserted (suc (off base content q)) queue o
        → Inserted low (q ∷ queue) (shift o)
    unfolding insert_at
    Inserted-shift low q queue none le whole h = inr h
    Inserted-shift low q queue (some pos) le whole h = (le, whole, h)

    position_same :
        (q : UcpPacket) (queue : List UcpPacket)
        → IsData base content q
        → k ≡ off base content q
        → position new.seq 0 (q ∷ queue) ≡ none
    position_same q queue whole e = ground (
      arith,
      position-cons base base_u32 content new q queue arrives.seq_u32 (omega (arith, arrives.near))
          whole.seq_u32 (omega (arith, whole.near)),
    )

    position_before :
        (q : UcpPacket) (queue : List UcpPacket)
        → IsData base content q
        → k < off base content q
        → position new.seq 0 (q ∷ queue) ≡ some 0
    position_before q queue whole h = ground (
      arith,
      position-cons base base_u32 content new q queue arrives.seq_u32 (omega (arith, arrives.near))
          whole.seq_u32 (omega (arith, whole.near)),
    )

    position_after :
        (q : UcpPacket) (queue : List UcpPacket)
        → IsU32 q.seq
        → off base content q < k
        → position new.seq 0 (q ∷ queue) ≡ shift (position new.seq 0 queue)
    position_after q queue small h = ground (
      arith,
      position-cons base base_u32 content new q queue arrives.seq_u32 (omega (arith, arrives.near))
          small (omega (arith, arrives.near)),
    )

    insert-Ascending :
        (low : ℕ) (queue : List UcpPacket)
        → low ≤ k
        → Ascending base content low queue
        → Inserted low queue (position new.seq 0 queue)
    unfolding insert_at
    insert-Ascending low [] h a = unfold position in (h, arrives, tt)
    insert-Ascending low (q ∷ queue) h (le, whole, rest) =
        elim (ℕ_discrete k (off base content q)) [
          | yes same ↦ rw (position_same q queue whole same) (inl (sym same))
          | no differ ↦ elim (dec_lt k (off base content q)) [
            | yes before ↦
                rw (position_before q queue whole before) (h, arrives, (before, whole, rest))
            | no after ↦ rw (position_after q queue whole.seq_u32 (omega arith)) (
                Inserted-shift low q queue _ le whole
                  (insert-Ascending (suc (off base content q)) queue (omega arith) rest))
          ]
        ]

    -- What the insertion leaves of a queue in order: the place was taken, or `una` moves to `u'`.
    abbrev pub Settled : ℕ → ℕ → Bytes → List UcpPacket → Option ℕ → Type 0
    Settled r u acc queue none = Holds base content k queue
    Settled r u acc queue (some pos) =
        (u' : ℕ) × (u ≤ u')
        × (u' < 2 ^ 31)
        × (advance pos (place base u) (insert_at pos new queue) ≡ place base u')
        × InOrder base content r u' acc (insert_at pos new queue)

    Settled-shift :
        (r u : ℕ) (acc : Bytes) (q : UcpPacket) (queue : List UcpPacket) (o : Option ℕ)
        → off base content q ≡ r
        → r < u
        → IsU32 q.seq
        → IsReadable q
        → Settled (suc r) u (acc ++ unread q) queue o
        → Settled r u acc (q ∷ queue) (shift o)
    unfolding insert_at advance
    Settled-shift r u acc q queue none e h small ok settled = inr settled
    Settled-shift r u acc q queue (some pos) e h small ok (u', le, lt, moved, order) =
        (u', le, lt, moved, inl (e, omega arith, small, ok, order))

    -- An insertion behind the gap leaves `una`.
    settle_far :
        (u : ℕ) (acc : Bytes) (queue : List UcpPacket) (o : Option ℕ)
        → u < 2 ^ 31
        → acc ≡ stream base content u
        → Inserted (suc u) queue o
        → Settled u u acc queue o
    settle_far u acc queue none small e inserted = inserted
    settle_far u acc queue (some pos) small e inserted = (
      u,
      omega arith,
      small,
      advance_stays u (suc u) pos (insert_at pos new queue) (omega arith) small inserted,
      InOrder-Ascending u acc (insert_at pos new queue) e inserted,
    )

    -- At the gap `una` moves over what follows.
    settle_here :
        (u : ℕ) (acc : Bytes) (queue : List UcpPacket)
        → k ≡ u
        → acc ≡ stream base content u
        → Ascending base content (suc u) queue
        → Settled u u acc queue (some 0)
    unfolding insert_at
    settle_here u acc queue same e a =
        advance-Ascending base base_u32 content u acc (new ∷ queue) (omega (arith, arrives.near)) e
          (omega arith, arrives, rw same a)

    settle_gap :
        (u : ℕ) (acc : Bytes) (queue : List UcpPacket)
        → u ≤ k
        → acc ≡ stream base content u
        → Ascending base content (suc u) queue
        → Settled u u acc queue (position new.seq 0 queue)
    settle_gap u acc queue h e a = elim (ℕ_discrete k u) [
      | yes same ↦ rw (position_first queue same a) (settle_here u acc queue same e a)
      | no differ ↦
          settle_far u acc queue _ (omega (arith, arrives.near)) e
            (insert-Ascending (suc u) queue (omega arith) a)
    ]
      where
        position_first :
            (queue : List UcpPacket)
            → k ≡ u
            → Ascending base content (suc u) queue
            → position new.seq 0 queue ≡ some 0
        position_first [] same a = unfold position in refl
        position_first (q ∷ rest) same (le, whole, _) = position_before q rest whole (omega arith)

    -- The scan, the insertion and the move of `una` keep the queue in order.
    pub settle :
        (r u : ℕ) (acc : Bytes) (queue : List UcpPacket)
        → u ≤ k
        → InOrder base content r u acc queue
        → Settled r u acc queue (position new.seq 0 queue)
    settle r u acc [] h (e, all) = rw e (settle_gap u acc [] h all tt)
    settle r u acc (q ∷ queue) h (inl (at_r, le, small, ok, order)) =
        rw (position_after q queue small (omega arith)) (
          Settled-shift r u acc q queue _ at_r le small ok
            (settle (suc r) u (acc ++ unread q) queue h order))
    settle r u acc (q ∷ queue) h (inr (e, all, rest)) =
        rw e (settle_gap u acc (q ∷ queue) h all rest)
