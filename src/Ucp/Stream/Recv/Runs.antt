-- ===== src/Ucp/Stream/Recv/Runs.antt =====
-- src/ucp/internal.rs: any run of the receiving side, data packets that arrive and reads, in any order.
use stunnel.Base.{ℕ, ◌≡◌, ◌⊎◌, List, [], ◌∷◌, ◌++◌, Bytes, IsU32}
use stunnel.Ucp.Packet.{UcpPacket}
use stunnel.Ucp.Stream.{InnerStream}
use stunnel.Ucp.Stream.Recv.{process_data, recv}
use stunnel.Ucp.Stream.Recv.Order.{off, IsData}

pub data Event : Type 0 where
  packet : UcpPacket → Event
  read : ℕ → Event

-- The stream and what was read from it.
unfoldable pub receive : InnerStream → Bytes → List Event → Bytes × InnerStream
receive s out [] = (out, s)
receive s out (packet p ∷ events) = receive (process_data s p) out events
receive s out (read room ∷ events) = let (bs, s') = recv s room in receive s' (out ++ bs) events

module _ (base : ℕ) (base_u32 : IsU32 base) (content : ℕ → Bytes) where
  abbrev pub IsArrival : Event → Type 0
  IsArrival (packet p) = IsData base content p
  IsArrival (read room) = Unit

  abbrev pub Carried : ℕ → List Event → Type 0
  Carried k [] = ⊥
  Carried k (packet p ∷ events) = (off base content p ≡ k) ⊎ Carried k events
  Carried k (read room ∷ events) = Carried k events
