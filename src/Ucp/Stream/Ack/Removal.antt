-- ===== src/Ucp/Stream/Ack/Removal.antt =====
-- src/ucp/internal.rs: which packets leave the send queue on an acknowledgement.
use stunnel.Base.{
  ℕ, ◌+◌, ◌-◌, ◌%◌, ◌^◌, ◌<◌, ◌≤◌, IsU32, ◌≡◌, refl, ap, ◌∙◌, ◌⊎◌, inl, inr, ◌≢◌, true, false,
  Bool-cases, List, [], ◌∷◌, ◌++◌, map, All, leb, ltb, lt→ltb, le→ltb, ◌==◌, ==→eq, if◌then◌else◌,
  arith,
}
use native.Mathlib.Decide.{dec_lt}
use stunnel.Ucp.Packet.{UcpPacket}
use stunnel.Ucp.Stream.Recv.{precedes}
use stunnel.Ucp.Stream.Recv.Order.{precedes-lt}
use stunnel.Ucp.Stream.{InnerStream}
use stunnel.Ucp.Stream.Ack.{process_una, drop_acked, ack_scan}

-- A packet that an acknowledgement of a later packet passes over.
abbrev pub passed : ℕ → UcpPacket → UcpPacket
passed acked packet =
    if leb packet.timestamp acked
    then record packet { skip_times = (packet.skip_times + 1) % 2 ^ 32 }
    else packet

-- Of a queue: the packets before the first one with the number `seq`, that one, and those behind it.
pub record FoundAt (seq acked : ℕ) (queue result : List UcpPacket) : Type 0 where
  pub front : List UcpPacket
  pub hit : UcpPacket
  pub back : List UcpPacket
  pub splits : queue ≡ front ++ hit ∷ back
  pub front_others : All (λ p. p.seq ≢ seq) front
  pub is_hit : hit.seq ≡ seq
  pub leaves : result ≡ map (passed acked) front ++ back

-- An acknowledgement removes the first packet with its number, and reports it; the packets before it
-- stay, those whose time stamp is not above the acknowledged one with one added to their skips, in
-- u32 arithmetic, and those behind it stay as they are. If no packet has the number, none is
-- removed, and all count as passed.
pub ack_scan_lem :
    (seq acked : ℕ) (queue : List UcpPacket)
    → let (result, found) = ack_scan seq acked queue in
      ((found ≡ true) × FoundAt seq acked queue result)
      ⊎ ((found ≡ false) × All (λ p. p.seq ≢ seq) queue × (result ≡ map (passed acked) queue))
unfolding ack_scan
ack_scan_lem seq acked [] = inr (refl, tt, refl)
ack_scan_lem seq acked (p ∷ queue) = elim (Bool-cases (p.seq == seq)) [
  | inl same ↦ rw same (
      inl (
        refl,
        record {
          front = [];
          hit = p;
          back = queue;
          splits = refl;
          front_others = tt;
          is_hit = ==→eq p.seq seq same;
          leaves = refl;
        },
      ))
  | inr other ↦
      let differs : p.seq ≢ seq = ground arith in
      rw other (elim (ack_scan_lem seq acked queue) [
        | inl (found, f) ↦ inl (
          found,
          record {
            front = p ∷ f.front;
            hit = f.hit;
            back = f.back;
            splits = ap (◌∷◌ p) f.splits;
            front_others = (differs, f.front_others);
            is_hit = f.is_hit;
            leaves = ap (◌∷◌ (passed acked p)) f.leaves;
          },
        )
        | inr (missing, others, e) ↦ inr (missing, (differs, others), ap (◌∷◌ (passed acked p)) e)
      ])
]

-- How far a number is past a base, over the wrap-around.
abbrev pub past : ℕ → ℕ → ℕ
past base seq = (seq + 2 ^ 32 - base) % 2 ^ 32

-- A queue whose numbers go up from the base, within 2 ^ 31 of it.
abbrev pub GoesUp : ℕ → List UcpPacket → Type 0
GoesUp base [] = Unit
GoesUp base (p ∷ queue) =
    IsU32 p.seq
    × (past base p.seq < 2 ^ 31)
    × All (λ q. past base p.seq < past base q.seq) queue
    × GoesUp base queue

module _ (base una : ℕ) (base_u32 : IsU32 base) (una_u32 : IsU32 una)
    (near : past base una < 2 ^ 31) where
  later :
      (n u : ℕ) (queue : List UcpPacket)
      → u ≤ n
      → All (λ q. n < past base q.seq) queue
      → All (λ q. u ≤ past base q.seq) queue
  later n u [] h all = tt
  later n u (q ∷ queue) h (first, all) = (omega arith, later n u queue h all)

  -- If the numbers of the send queue go up from a base, within 2 ^ 31 of it over the wrap-around,
  -- and `una` is within 2 ^ 31 of it too, then `process_una` removes exactly the packets that are
  -- before `una`, which are a front of the queue, and changes nothing else of the stream.
  pub process_una_lem :
      (s : InnerStream)
      → GoesUp base s.send_queue
      → let s' = process_una s una in
        (gone : List UcpPacket) × (s.send_queue ≡ gone ++ s'.send_queue)
        × All (λ p. past base p.seq < past base una) gone
        × All (λ p. past base una ≤ past base p.seq) s'.send_queue
        × (s' ≡ record s { send_queue = s'.send_queue })
  unfolding drop_acked
  process_una_lem s up =
      let (gone, splits, before, behind) = dropped s.send_queue up in
      (gone, splits, before, behind, refl)
    where
      dropped :
          (queue : List UcpPacket)
          → GoesUp base queue
          → (gone : List UcpPacket) × (queue ≡ gone ++ drop_acked una queue)
            × All (λ p. past base p.seq < past base una) gone
            × All (λ p. past base una ≤ past base p.seq) (drop_acked una queue)
      dropped [] up = ([], refl, tt, tt)
      dropped (p ∷ queue) (small, p_near, above, up) =
          let order : precedes p.seq una ≡ ltb (past base p.seq) (past base una) =
            precedes-lt p.seq una base small una_u32 base_u32 p_near near in
          elim (dec_lt (past base p.seq) (past base una)) [
            | yes old ↦
                let (gone, splits, before, behind) = dropped queue up in
                rw (order ∙ lt→ltb _ _ old) (p ∷ gone, ap (◌∷◌ p) splits, (old, before), behind)
            | no new ↦ rw (order ∙ le→ltb (past base p.seq) (past base una) (omega arith)) (
              [],
              refl,
              tt,
              (omega arith, later (past base p.seq) (past base una) queue (omega arith) above),
            )
          ]
