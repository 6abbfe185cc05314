-- ===== src/Ucp/Stream/Recv/Order.antt =====
-- src/ucp/internal.rs: the order of the receive queue. Sequence numbers are counted from a base, so that
-- the wrap-around of u32 does not show as long as the numbers alive span less than 2 ^ 31.
use stunnel.Base.{
  ℕ, zero, suc, ◌+◌, ◌^◌, ◌≤◌, ◌<◌, ◌≡◌, refl, ap, ◌∙◌, ◌⊎◌, inl, inr, ◌≢◌, true, false, Option,
  none, some, List, [], ◌∷◌, ◌++◌, Bytes, IsU32, ltb, ◌==◌, if◌then◌else◌, add_u32, sub_u32, arith,
}
use mathlib.Core.Path.{ap₂}
use native.Mathlib.Decide.{ℕ_discrete}
use stunnel.Ucp.Packet.{UcpPacket, unread}
use stunnel.Ucp.Packet.Payload.{IsReadable}
use stunnel.Ucp.Stream.Recv.{precedes, position, advance}

-- The signed test of the source is the order of the offsets from any base that both are near.
pub precedes-lt :
    (a b base : ℕ)
    → IsU32 a
    → IsU32 b
    → IsU32 base
    → sub_u32 a base < 2 ^ 31
    → sub_u32 b base < 2 ^ 31
    → precedes a b ≡ ltb (sub_u32 a base) (sub_u32 b base)
precedes-lt a b base ha hb hc hx hy = ground arith

pub sub_u32-eq :
    (a b base : ℕ)
    → IsU32 a
    → IsU32 b
    → IsU32 base
    → (sub_u32 a b == 0) ≡ (sub_u32 a base == sub_u32 b base)
sub_u32-eq a b base ha hb hc = ground arith

module _ (base : ℕ) (content : ℕ → Bytes) where
  -- The place of a packet, counted from the base.
  abbrev pub off : UcpPacket → ℕ
  off packet = sub_u32 packet.seq base

  -- What the sender wrote: the contents of the first `u` packets.
  abbrev pub stream : ℕ → Bytes
  stream zero = []
  stream (suc u) = stream u ++ content u

  -- A data packet as it arrives, whole.
  pub record IsData (packet : UcpPacket) : Type 0 where
    pub seq_u32 : IsU32 packet.seq
    pub near : off packet + 1 < 2 ^ 31
    pub readable : IsReadable packet
    pub carries : unread packet ≡ content (off packet)

  -- Whole data packets in strictly ascending places, from `low` on.
  abbrev pub Ascending : ℕ → List UcpPacket → Type 0
  Ascending low [] = Unit {0}
  Ascending low (packet ∷ queue) =
      (low ≤ off packet) × IsData packet × Ascending (suc (off packet)) queue

  -- The receive queue when `una` is at place `u`: first the places `r` to `u - 1`, with no gap and no
  -- repetition, then a gap at `u`, then ascending places. With `acc` handed to the reader before, what
  -- the first part still holds makes up the stream.
  abbrev pub InOrder : ℕ → ℕ → Bytes → List UcpPacket → Type 0
  InOrder r u acc [] = (r ≡ u) × (acc ≡ stream u)
  InOrder r u acc (packet ∷ queue) =
      ((off packet ≡ r)
        × (r < u)
        × IsU32 packet.seq
        × IsReadable packet
        × InOrder (suc r) u (acc ++ unread packet) queue)
      ⊎ ((r ≡ u) × (acc ≡ stream u) × Ascending (suc u) (packet ∷ queue))

  -- Place `k` is in the queue.
  abbrev pub Holds : ℕ → List UcpPacket → Type 0
  Holds k [] = ⊥
  Holds k (packet ∷ queue) = (off packet ≡ k) ⊎ Holds k queue

abbrev pub shift : Option ℕ → Option ℕ
shift none = none
shift (some pos) = some (suc pos)

position-shift :
    (seq pos : ℕ) (queue : List UcpPacket)
    → position seq (suc pos) queue ≡ shift (position seq pos queue)
unfolding position
position-shift seq pos [] = refl
position-shift seq pos (q ∷ queue) = ground (arith, position-shift seq (pos + 1) queue)

-- The sequence number at place `u`.
abbrev pub place : ℕ → ℕ → ℕ
place base u = add_u32 base u

module _ (base : ℕ) (base_u32 : IsU32 base) (content : ℕ → Bytes) where
  pub position-cons :
      (new q : UcpPacket) (queue : List UcpPacket)
      → IsU32 new.seq
      → off base content new < 2 ^ 31
      → IsU32 q.seq
      → off base content q < 2 ^ 31
      → position new.seq 0 (q ∷ queue) ≡ (
          if off base content new == off base content q
          then none
          else if ltb (off base content new) (off base content q)
          then some 0
          else shift (position new.seq 0 queue))
  unfolding position
  position-cons new q queue h1 h2 h3 h4 =
      rw
        (
          precedes-lt new.seq q.seq base h1 h3 base_u32 h2 h4,
          sub_u32-eq new.seq q.seq base h1 h3 base_u32,
          position-shift new.seq 0 queue,
        )
        refl

  at_place : (seq u : ℕ) → IsU32 seq → sub_u32 seq base ≡ u → (seq == place base u) ≡ true
  at_place seq u h e = ground arith

  pub not_at_place :
      (seq u : ℕ) → IsU32 seq → u < 2 ^ 31 → sub_u32 seq base ≢ u → (seq == place base u) ≡ false
  not_at_place seq u h small ne = ground arith

  place-suc : (u : ℕ) → add_u32 (place base u) 1 ≡ place base (suc u)
  place-suc u = omega arith

  -- The scan behind the insertion moves `una` over the places that follow without a gap.
  pub advance-Ascending :
      (u : ℕ) (acc : Bytes) (queue : List UcpPacket)
      → u < 2 ^ 31
      → acc ≡ stream base content u
      → Ascending base content u queue
      → (u' : ℕ) × (u ≤ u')
        × (u' < 2 ^ 31)
        × (advance 0 (place base u) queue ≡ place base u')
        × InOrder base content u u' acc queue
  unfolding advance
  advance-Ascending u acc [] h e a = (u, omega arith, h, refl, (refl, e))
  advance-Ascending u acc (q ∷ queue) h e (low, whole, rest) =
      elim (ℕ_discrete (off base content q) u) [
        | yes here ↦
            let rest' : Ascending base content (suc u) queue = rw here at rest in
            let longer : acc ++ unread q ≡ stream base content (suc u) =
              ap₂ ◌++◌ e (whole.carries ∙ ap content here) in
            let (u', le, lt, moved, order) =
              advance-Ascending (suc u) (acc ++ unread q) queue (omega (arith, whole.near)) longer
                rest' in
            (
              u',
              omega arith,
              lt,
              rw (at_place q.seq u whole.seq_u32 here, place-suc u) moved,
              inl (here, omega arith, whole.seq_u32, whole.readable, order),
            )
        | no gap ↦ (
          u,
          omega arith,
          h,
          rw (not_at_place q.seq u whole.seq_u32 h gap) refl,
          inr (refl, e, (omega arith, whole, rest)),
        )
      ]
