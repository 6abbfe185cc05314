-- ===== src/Ucp/Stream/Machine/Keeps.antt =====
-- src/ucp/internal.rs: what the operations on a packet keep of a connection, and that they do not panic.
use stunnel.Base.{
  ℕ, zero, suc, ◌-◌, ◌*◌, ◌/◌, ◌%◌, ◌≡◌, refl, sym, ◌∙◌, Bool, true, false, Bool-cases, ◌&&◌, inl,
  inr, Option, none, some, ◌>>=◌, length, ltb, ltb→lt, ◌==◌, if◌then◌else◌, arith,
}
use stunnel.Ucp.{cmd_ack}
use stunnel.Ucp.State.{UcpState}
use stunnel.Ucp.Packet.{UcpPacket, unread, payload_remaining, payload_read_u32}
use stunnel.Ucp.Packet.Payload.{
  IsArrived, IsReadable, payload_remaining_lem, payload_read_u32_enough,
}
use stunnel.Ucp.Stream.{InnerStream, update_rto}
use stunnel.Ucp.Stream.Recv.{precedes, try_wake_reader, insert_data, process_data, position}
use stunnel.Ucp.Stream.Ack.{process_an_ack, process_acks, process_ack}

-- The steps of the state machine.
pub data Moves : UcpState → UcpState → Type 0 where
  stays : {a : UcpState} → Moves a a
  completes : Moves UcpState.accepting UcpState.established
  connects : Moves UcpState.connecting UcpState.established

-- What no packet changes once a session is open, and the steps it can take.
pub record Steps (s s' : InnerStream) : Type 0 where
  pub moves : Moves s.state s'.state
  pub session_id_is : s'.session_id ≡ s.session_id
  pub remote_addr_is : s'.remote_addr ≡ s.remote_addr
  pub alive_is : s'.alive ≡ s.alive

pub record Keeps (s s' : InnerStream) : Type 0 where
  pub state_is : s'.state ≡ s.state
  pub session_id_is : s'.session_id ≡ s.session_id
  pub remote_addr_is : s'.remote_addr ≡ s.remote_addr
  pub alive_is : s'.alive ≡ s.alive

-- An operation that does not panic.
abbrev pub Returns : (InnerStream → Type 0) → Option InnerStream → Type 0
Returns P none = ⊥
Returns P (some s) = P s

pub if_either {ℓ κ} :
    {A : Type ℓ} (P : A → Type κ) (b : Bool) (x y : A) → P x → P y → P (if b then x else y)
if_either P true x y px py = px
if_either P false x y px py = py

pub same : (s : InnerStream) → Keeps s s
same s = record { state_is = refl; session_id_is = refl; remote_addr_is = refl; alive_is = refl }

pub stepped : (s s' : InnerStream) → Keeps s s' → Steps s s'
stepped s s' k = record {
  moves = rw k.state_is stays;
  session_id_is = k.session_id_is;
  remote_addr_is = k.remote_addr_is;
  alive_is = k.alive_is;
}

joined : (a b d : InnerStream) → Keeps a b → Keeps b d → Keeps a d
joined a b d h k = record {
  state_is = k.state_is ∙ h.state_is;
  session_id_is = k.session_id_is ∙ h.session_id_is;
  remote_addr_is = k.remote_addr_is ∙ h.remote_addr_is;
  alive_is = k.alive_is ∙ h.alive_is;
}

pub process_an_ack-Keeps :
    (s : InnerStream) (now seq acked : ℕ) → Keeps s (process_an_ack s now seq acked).0
unfolding process_an_ack update_rto
process_an_ack-Keeps s now seq acked = record {
  state_is = refl;
  session_id_is = refl;
  remote_addr_is = refl;
  alive_is = refl;
}

try_wake_reader-Keeps : (s : InnerStream) → Keeps s (try_wake_reader s)
unfolding try_wake_reader
try_wake_reader-Keeps s = ground arith

insert_data-Keeps :
    (s : InnerStream) (packet : UcpPacket) (o : Option ℕ) → Keeps s (insert_data s packet o)
unfolding insert_data
insert_data-Keeps s packet none = same s
insert_data-Keeps s packet (some pos) =
    let k = try_wake_reader-Keeps _ in
    record {
      state_is = k.state_is;
      session_id_is = k.session_id_is;
      remote_addr_is = k.remote_addr_is;
      alive_is = k.alive_is;
    }

pub process_data-Keeps : (s : InnerStream) (packet : UcpPacket) → Keeps s (process_data s packet)
unfolding process_data
process_data-Keeps s packet =
    if_either (Keeps s) (precedes packet.seq s.una) _ _
      (record { state_is = refl; session_id_is = refl; remote_addr_is = refl; alive_is = refl })
      (let k = insert_data-Keeps _ packet (position packet.seq 0 s.recv_queue) in
        record {
          state_is = k.state_is;
          session_id_is = k.session_id_is;
          remote_addr_is = k.remote_addr_is;
          alive_is = k.alive_is;
        })

onward :
    (a b : InnerStream) (o : Option InnerStream)
    → Keeps a b
    → Returns (Keeps b) o
    → Returns (Keeps a) o
onward a b none h r = r
onward a b (some d) h k = joined a b d h k

process_acks-Keeps :
    (fuel : ℕ) (s : InnerStream) (now : ℕ) (packet : UcpPacket) (n : ℕ)
    → IsReadable packet
    → length (unread packet) ≡ 8 * n
    → Returns (Keeps s) (process_acks fuel s now packet)
unfolding process_acks
process_acks-Keeps zero s now packet n ok e = same s
process_acks-Keeps (suc fuel) s now packet n ok e =
    elim (Bool-cases (ltb 0 (payload_remaining packet))) [
      | inl more ↦
          let left = ltb→lt 0 (payload_remaining packet) more in
          let (seq, p1, read, ok1, len1) =
            payload_read_u32_enough packet ok
              (omega (arith, payload_remaining_lem packet ok, e, left)) in
          let (acked, p2, read', ok2, len2) =
            payload_read_u32_enough p1 ok1
              (omega (arith, payload_remaining_lem packet ok, e, left, len1)) in
          rw (more, read, read')
            (onward s (process_an_ack s now seq acked).0 _ (process_an_ack-Keeps s now seq acked) (
              process_acks-Keeps fuel (process_an_ack s now seq acked).0 now p2 (n - 1) ok2
                (omega (arith, payload_remaining_lem packet ok, e, left, len1, len2))))
      | inr none_left ↦ rw none_left (same s)
    ]

pub process_ack-Keeps :
    (s : InnerStream) (now : ℕ) (packet : UcpPacket)
    → IsArrived packet
    → Returns (Keeps s) (process_ack s now packet)
unfolding process_ack
process_ack-Keeps s now packet p =
    elim (Bool-cases (packet.cmd == cmd_ack && packet.payload % 8 == 0)) [
      | inl test ↦
          let whole : packet.payload % 8 ≡ 0 = ground (arith, test) in
          rw test (
            process_acks-Keeps (payload_remaining packet) s now packet (packet.payload / 8)
              p.readable (sym p.payload_is ∙ omega (arith, whole)))
      | inr other ↦ rw other (same s)
    ]

-- A packet with a payload of 8 bytes is read without a panic.
pub both_read :
    (packet : UcpPacket) (b : Bool) (P : InnerStream → Type 0) (s : InnerStream)
    (f : ℕ → ℕ → Option InnerStream)
    → IsArrived packet
    → P s
    → ((seq acked : ℕ) → Returns P (f seq acked))
    → Returns P (
        if b && packet.payload == 8
        then (payload_read_u32 packet >>= λ x. payload_read_u32 x.1 >>= λ y. f x.0 y.0)
        else some s)
both_read packet b P s f p base each = elim (Bool-cases (b && packet.payload == 8)) [
  | inl test ↦
      let whole : packet.payload ≡ 8 = ground (arith, test) in
      let (seq, p1, read, ok1, len1) =
        payload_read_u32_enough packet p.readable (omega (arith, p.payload_is, whole)) in
      let (acked, p2, read', ok2, len2) =
        payload_read_u32_enough p1 ok1 (omega (arith, p.payload_is, whole, len1)) in
      rw (test, read, read') (each seq acked)
  | inr other ↦ rw other base
]

pub Steps-on :
    (a b : InnerStream) (o : Option InnerStream)
    → Keeps a b
    → Returns (Steps b) o
    → Returns (Steps a) o
Steps-on a b none h r = r
Steps-on a b (some d) h t = record {
  moves = rw (← h.state_is) t.moves;
  session_id_is = t.session_id_is ∙ h.session_id_is;
  remote_addr_is = t.remote_addr_is ∙ h.remote_addr_is;
  alive_is = t.alive_is ∙ h.alive_is;
}

pub Keeps-Steps :
    (a : InnerStream) (o : Option InnerStream) → Returns (Keeps a) o → Returns (Steps a) o
Keeps-Steps a none r = r
Keeps-Steps a (some d) k = stepped a d k

pub also :
    (P Q : InnerStream → Type 0) (o : Option InnerStream)
    → ((s : InnerStream) → P s → Q s)
    → Returns P o
    → Returns Q o
also P Q none f r = r
also P Q (some d) f r = f d r
