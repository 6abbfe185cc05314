-- ===== src/Ucp/Stream/Ack/Sending.antt =====
-- src/ucp/internal.rs: `send_ack_list` sends every acknowledgement once, in order, in packets that fit.
use stunnel.Base.{
  ℕ, ◌+◌, ◌*◌, ◌≤◌, ◌<◌, ◌≡◌, refl, ap, ◌∙◌, List, [], ◌∷◌, ◌++◌, append_assoc, append-nil, All,
  Bytes, length, length-append, length-replicate, length-splice, lt→ltb, le→ltb, be_u32,
  length-be_u32, SocketAddr, arith,
}
use native.Mathlib.Decide.{dec_lt}
use stunnel.Ucp.{cmd_ack}
use stunnel.Ucp.Packet.{
  UcpPacket, buf_size, new as new_ucp_packet, payload_bytes, payload_write_u32, remaining_load,
  pack, packed_buffer,
}
use stunnel.Ucp.Packet.Payload.{
  remaining_load_lem, appended, payload_write_u32_fits, payload_bytes-appended,
}
use stunnel.Ucp.Stream.{InnerStream, new_noseq_packet, send_packet_directly}
use stunnel.Ucp.Stream.Send.Queued.{IsFull}
use stunnel.Ucp.Stream.Ack.{send_ack, send_acks, send_taken, send_ack_list}
use stunnel.Ucp.Stream.Ack.Encoding.{encode, encode-append}

-- A packet that holds these acknowledgements.
pub record Acks (session_id : ℕ) (p : UcpPacket) (acks : List (ℕ × ℕ)) : Type 0 where
  pub full : IsFull p
  pub is_ack : p.cmd ≡ cmd_ack
  pub session_is : p.session_id ≡ session_id
  pub payload_is : p.payload ≡ 8 * length acks
  pub holds : payload_bytes p ≡ encode acks

new_noseq_packet-Acks :
    (s : InnerStream) (now : ℕ) → Acks s.session_id (new_noseq_packet s now cmd_ack) []
unfolding new_noseq_packet new_ucp_packet
new_noseq_packet-Acks s now = record {
  full = record { buf_full = length-replicate {A = ℕ} buf_size 0; room = omega arith };
  is_ack = refl;
  session_is = refl;
  payload_is = omega arith;
  holds = refl;
}

-- The two writes of an acknowledgement behind those that a packet holds.
write_ack : UcpPacket → ℕ × ℕ → UcpPacket
write_ack p a = (payload_write_u32 (payload_write_u32 p a.0).0 a.1).0

write_ack-Acks :
    (id : ℕ) (p : UcpPacket) (acks : List (ℕ × ℕ)) (a : ℕ × ℕ)
    → Acks id p acks
    → p.payload + 8 ≤ 1371
    → Acks id (write_ack p a) (acks ++ a ∷ [])
unfolding write_ack be_u32
write_ack-Acks id p acks a h room = rw written (record {
  full = record {
    buf_full = length-splice (p1.payload + 29) (be_u32 a.1) p1.buf ∙ full1.buf_full;
    room = omega (arith, length-be_u32 a.0, length-be_u32 a.1);
  };
  is_ack = h.is_ack;
  session_is = h.session_is;
  payload_is =
      omega
        (arith, h.payload_is, length-be_u32 a.0, length-be_u32 a.1, length-append acks (a ∷ []));
  holds =
      payload_bytes-appended p1 full1.buf_full full1.room (be_u32 a.1)
        (omega (arith, length-be_u32 a.0, length-be_u32 a.1))
      ∙ ap (λ bs. bs ++ be_u32 a.1)
          (payload_bytes-appended p h.full.buf_full h.full.room (be_u32 a.0)
            (omega (arith, length-be_u32 a.0)))
      ∙ rw (h.holds, encode-append acks (a ∷ []), append-nil (be_u32 a.1))
          (append_assoc (encode acks) (be_u32 a.0) (be_u32 a.1));
})
  where
    p1 : UcpPacket
    p1 = appended p h.full.buf_full h.full.room (be_u32 a.0)

    full1 : IsFull p1
    full1 = record {
      buf_full = length-splice (p.payload + 29) (be_u32 a.0) p.buf ∙ h.full.buf_full;
      room = omega (arith, length-be_u32 a.0);
    }

    written : write_ack p a ≡ appended p1 full1.buf_full full1.room (be_u32 a.1)
    written =
        rw
          (
            write_ack,
            payload_write_u32_fits p h.full.buf_full h.full.room a.0 (omega arith),
            payload_write_u32_fits p1 full1.buf_full full1.room a.1
                (omega (arith, length-be_u32 a.0)),
          )
          refl

-- The acknowledgements of a group of packets, and the datagrams of them.
abbrev pub group_acks : List (UcpPacket × List (ℕ × ℕ)) → List (ℕ × ℕ)
group_acks [] = []
group_acks (g ∷ groups) = g.1 ++ group_acks groups

abbrev pub datagrams :
    (Bytes → ℕ) → SocketAddr → List (UcpPacket × List (ℕ × ℕ)) → List (Bytes × SocketAddr)
datagrams crc addr [] = []
datagrams crc addr (g ∷ groups) = (packed_buffer (pack crc g.0), addr) ∷ datagrams crc addr groups

-- What has gone out, with the state unchanged but for the socket.
pub record Went (crc : Bytes → ℕ) (s : InnerStream) (acks : List (ℕ × ℕ)) (s' : InnerStream)
    : Type 0 where
  pub groups : List (UcpPacket × List (ℕ × ℕ))
  pub each : All (λ g. Acks s.session_id g.0 g.1) groups
  pub all_acks : group_acks groups ≡ acks
  pub sent : s' ≡ record s { socket = s.socket ++ datagrams crc s.remote_addr groups }

module _ (crc : Bytes → ℕ) (now : ℕ) where
  send_ack_room :
      (s : InnerStream) (p : UcpPacket) (a : ℕ × ℕ)
      → 8 ≤ remaining_load p
      → send_ack crc now (s, p) a ≡ (s, write_ack p a)
  unfolding send_ack write_ack
  send_ack_room s p a h = rw (le→ltb (remaining_load p) 8 h) refl

  send_ack_full :
      (s : InnerStream) (p : UcpPacket) (a : ℕ × ℕ)
      → remaining_load p < 8
      → send_ack crc now (s, p) a ≡ (
          let s' = send_packet_directly crc s p in
          (s', write_ack (new_noseq_packet s' now cmd_ack) a))
  unfolding send_ack write_ack
  send_ack_full s p a h = rw (lt→ltb (remaining_load p) 8 h) refl

  after_full :
      (s s' : InnerStream) (p : UcpPacket) (done rest : List (ℕ × ℕ))
      → Acks s.session_id p done
      → Went crc (send_packet_directly crc s p) rest s'
      → Went crc s (done ++ rest) s'
  unfolding send_packet_directly
  after_full s s' p done rest h w = record {
    groups = (p, done) ∷ w.groups;
    each = (h, w.each);
    all_acks = ap (◌++◌ done) w.all_acks;
    sent = w.sent ∙ rw (append_assoc s.socket) refl;
  }

  send_acks-Went :
      (s : InnerStream) (p : UcpPacket) (done acks : List (ℕ × ℕ))
      → Acks s.session_id p done
      → Went crc s (done ++ acks) (send_acks crc now (s, p) acks)
  unfolding send_acks
  send_acks-Went s p done [] h = record {
    groups = (p, done) ∷ [];
    each = (h, tt);
    all_acks = refl;
    sent = unfold send_packet_directly in refl;
  }
  send_acks-Went s p done (a ∷ acks) h = elim (dec_lt (remaining_load p) 8) [
    | yes full ↦
        let s' = send_packet_directly crc s p in
        let empty = new_noseq_packet s' now cmd_ack in
        let holds =
          write_ack-Acks s'.session_id empty [] a (new_noseq_packet-Acks s' now)
            (omega (arith, (new_noseq_packet-Acks s' now).payload_is)) in
        rw (send_ack_full s p a full) (
          after_full s _ p done (a ∷ acks) h
            (send_acks-Went s' (write_ack empty a) (a ∷ []) acks holds))
    | no room ↦ rw (send_ack_room s p a (omega arith)) (
        rw (append_assoc done (a ∷ []) acks) at (
          send_acks-Went s (write_ack p a) (done ++ a ∷ []) acks (
            write_ack-Acks s.session_id p done a h
              (omega (arith, remaining_load_lem p h.full.buf_full h.full.room, h.full.room)))))
  ]

  send_taken-Went :
      (s : InnerStream) (acks : List (ℕ × ℕ)) → Went crc s acks (send_taken crc s now acks)
  unfolding send_taken
  send_taken-Went s [] = record {
    groups = [];
    each = tt;
    all_acks = refl;
    sent = rw (append-nil s.socket) refl;
  }
  send_taken-Went s (a ∷ acks) =
      send_acks-Went s (new_noseq_packet s now cmd_ack) [] (a ∷ acks) (new_noseq_packet-Acks s now)

  -- All acknowledgements that wait go out in one round, each once and in order, in packets of the
  -- stream's session that fit; the list is empty then, and nothing else of the stream changes.
  pub send_ack_list-Went :
      (s : InnerStream) → Went crc (record s { ack_list = [] }) s.ack_list (send_ack_list crc s now)
  unfolding send_ack_list
  send_ack_list-Went s = send_taken-Went (record s { ack_list = [] }) s.ack_list
