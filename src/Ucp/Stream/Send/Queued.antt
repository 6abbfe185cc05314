-- ===== src/Ucp/Stream/Send/Queued.antt =====
-- src/ucp/internal.rs: `send` loses and reorders nothing. The bytes given to it stand behind those that the
-- send buffer held, cut into packets with consecutive sequence numbers.
use stunnel.Base.{
  ℕ, zero, suc, ◌+◌, ◌≤◌, ◌<◌, min, ◌≡◌, refl, sym, ap, ◌∙◌, inl, inr, true, Bool-cases, List, [],
  ◌∷◌, ◌++◌, Bytes, length, append-nil, append_assoc, take, drop, length-take, length-drop,
  length-splice, length-replicate, take-append-drop, take_all, ◌==◌, ==→eq, if◌then◌else◌, lt→ltb,
  le→ltb, add_u32, arith,
}
use mathlib.Core.Path.{ap₂}
use native.Mathlib.Decide.{dec_lt}
use stunnel.Ucp.{cmd_data, ucp_packet_meta_size}
use stunnel.Ucp.Packet.{UcpPacket, buf_size, new as new_ucp_packet, remaining_load, payload_bytes}
use stunnel.Ucp.Packet.Payload.{
  remaining_load_lem, payload_write_slice_fits, payload_bytes-appended, appended,
}
use stunnel.Ucp.Stream.{InnerStream, new_packet, send_packet}
use stunnel.Ucp.Stream.Send.{make_packet, make_packets, make_packet_send, fill_back, send}

-- A packet with a whole buffer and a payload that fits it.
pub record IsFull (p : UcpPacket) : Type 0 where
  pub buf_full : length p.buf ≡ buf_size
  pub room : p.payload + ucp_packet_meta_size ≤ buf_size

-- The bytes of the stream that a list of packets carries.
unfoldable pub queued : List UcpPacket → Bytes
queued [] = []
queued (packet ∷ packets) =
    let later = queued packets in
    if packet.cmd == cmd_data then payload_bytes packet ++ later else later

-- Whole packets with the sequence numbers from `next` to `last`.
abbrev pub Consecutive : ℕ → ℕ → List UcpPacket → Type 0
Consecutive next last [] = next ≡ add_u32 last 1
Consecutive next last (packet ∷ packets) =
    (packet.seq ≡ next) × IsFull packet × Consecutive (add_u32 next 1) last packets

queued-append : (ps qs : List UcpPacket) → queued (ps ++ qs) ≡ queued ps ++ queued qs
unfolding queued
queued-append [] qs = refl
queued-append (p ∷ ps) qs = elim (Bool-cases (p.cmd == cmd_data)) [
  | inl e ↦
      rw (e, queued-append ps qs) (sym (append_assoc (payload_bytes p) (queued ps) (queued qs)))
  | inr e ↦ rw (e, queued-append ps qs) refl
]

Consecutive-append :
    (next last : ℕ) (ps : List UcpPacket) (p : UcpPacket)
    → Consecutive next last ps
    → p.seq ≡ add_u32 last 1
    → IsFull p
    → Consecutive next (add_u32 last 1) (ps ++ p ∷ [])
Consecutive-append next last [] p e seq_is full = (seq_is ∙ sym e, full, ap (λ n. add_u32 n 1) e)
Consecutive-append next last (q ∷ ps) p (e, ok, rest) seq_is full =
    (e, ok, Consecutive-append (add_u32 next 1) last ps p rest seq_is full)

queued_data : (p : UcpPacket) → p.cmd ≡ cmd_data → queued (p ∷ []) ≡ payload_bytes p
unfolding queued
queued_data p e = rw (e) (append-nil (payload_bytes p))

-- What the send buffer holds, with the number of the last packet.
pub record Buffers (next : ℕ) (bytes : Bytes) (s : InnerStream) : Type 0 where
  pub numbered : Consecutive next s.seq s.send_buffer
  pub bytes_are : queued s.send_buffer ≡ bytes

-- The packet of a round of `make_packet_send`.
module _ (s : InnerStream) (now : ℕ) (buf : Bytes) where
  abbrev fresh : UcpPacket
  fresh = (new_packet s now cmd_data).0

  fresh-IsFull : IsFull fresh
  unfolding new_packet new_ucp_packet
  fresh-IsFull = record { buf_full = length-replicate {A = ℕ} buf_size 0; room = omega arith }

  abbrev size : ℕ
  size = min (remaining_load fresh) (length buf)

  size_is : size ≡ min 1371 (length buf)
  unfolding new_packet new_ucp_packet
  size_is = omega (arith, length-replicate {A = ℕ} buf_size 0)

  made : UcpPacket
  made = appended fresh fresh-IsFull.buf_full fresh-IsFull.room (take size buf)

  fresh-payload : fresh.payload ≡ 0
  unfolding new_packet new_ucp_packet
  fresh-payload = refl

  taken : fresh.payload + length (take size buf) ≤ 1371
  taken = omega (arith, length-take size buf, size_is, fresh-payload)

  make_packet_lem :
      make_packet s now buf
      ≡ (size, record s { seq = add_u32 s.seq 1; send_buffer = s.send_buffer ++ made ∷ [] })
  unfolding make_packet made send_packet
  make_packet_lem =
      rw
        (payload_write_slice_fits fresh fresh-IsFull.buf_full fresh-IsFull.room (take size buf)
          taken)
        (unfold new_packet in refl)

  made_lem :
      (made.seq ≡ add_u32 s.seq 1)
      × (made.cmd ≡ cmd_data)
      × IsFull made
      × (payload_bytes made ≡ take size buf)
  unfolding made
  made_lem = (
    unfold new_packet in refl,
    unfold new_packet in refl,
    record {
      buf_full =
          length-splice (fresh.payload + 29) (take size buf) fresh.buf ∙ fresh-IsFull.buf_full;
      room = omega (arith, taken);
    },
    payload_bytes-appended fresh fresh-IsFull.buf_full fresh-IsFull.room (take size buf) taken
        ∙ (unfold new_packet new_ucp_packet in refl),
  )

  make_packet-Buffers :
      (next : ℕ) (bytes : Bytes)
      → Buffers next bytes s
      → Buffers next (bytes ++ take size buf) (make_packet s now buf).1
  make_packet-Buffers next bytes h =
      let (seq_is, cmd_is, full, carries) = made_lem in
      rw make_packet_lem (record {
        numbered = Consecutive-append next s.seq s.send_buffer made h.numbered seq_is full;
        bytes_are =
            queued-append s.send_buffer (made ∷ [])
            ∙ ap₂ ◌++◌ h.bytes_are (queued_data made cmd_is ∙ carries);
      })

make_packets-Buffers :
    (fuel : ℕ) (s : InnerStream) (now : ℕ) (buf : Bytes) (next : ℕ) (bytes : Bytes)
    → length buf ≤ fuel
    → Buffers next bytes s
    → Buffers next (bytes ++ buf) (make_packets fuel s now buf)
unfolding make_packets
make_packets-Buffers zero s now [] next bytes h holds = rw (append-nil bytes) holds
make_packets-Buffers zero s now (b ∷ buf) next bytes h holds = absurd (omega arith)
make_packets-Buffers (suc fuel) s now [] next bytes h holds = rw (append-nil bytes) holds
make_packets-Buffers (suc fuel) s now (b ∷ buf) next bytes h holds =
    let k = size s now (b ∷ buf) in
    let again =
      make_packets-Buffers fuel (make_packet s now (b ∷ buf)).1 now (drop k (b ∷ buf)) next
        (bytes ++ take k (b ∷ buf))
        (omega (arith, length-drop k (b ∷ buf), size_is s now (b ∷ buf)))
        (make_packet-Buffers s now (b ∷ buf) next bytes holds) in
    rw (ap (λ r. r.0) (make_packet_lem s now (b ∷ buf))) (
      rw (append_assoc bytes (take k (b ∷ buf)) (drop k (b ∷ buf)), take-append-drop k (b ∷ buf)) at
        again)

-- What `fill_back` leaves: more bytes in the last packet.
abbrev Filled : ℕ → ℕ → List UcpPacket → Bytes → ℕ × List UcpPacket → Type 0
Filled next last buffer buf (pos, filled) =
    (pos ≤ length buf)
    × Consecutive next last filled
    × (queued filled ≡ queued buffer ++ take pos buf)

-- A data packet at the back takes the front of the bytes.
fill_one :
    (next last : ℕ) (p : UcpPacket) (buf : Bytes)
    → (p.cmd == cmd_data) ≡ true
    → Consecutive next last (p ∷ [])
    → Filled next last (p ∷ []) buf (fill_back (p ∷ []) buf)
unfolding fill_back
fill_one next last p buf test (e, full, end) = rw test (elim (dec_lt 0 remain) [
  | yes pos ↦
      rw
        (
          lt→ltb 0 remain pos,
          payload_write_slice_fits p full.buf_full full.room (take remain buf) fits,
        )
        (
          omega arith,
          (e, full', end),
          queued_data (appended p full.buf_full full.room (take remain buf)) is_data
              ∙ payload_bytes-appended p full.buf_full full.room (take remain buf) fits
              ∙ ap (λ bs. bs ++ take remain buf) (sym (queued_data p is_data)),
        )
  | no none_left ↦
      rw (le→ltb 0 remain (omega arith))
        (omega arith, (e, full, end), rw (nothing none_left) (sym (append-nil (queued (p ∷ [])))))
])
  where
    remain : ℕ
    remain = min (remaining_load p) (length buf)

    fits : p.payload + length (take remain buf) ≤ 1371
    fits =
        omega
          (arith, length-take remain buf, remaining_load_lem p full.buf_full full.room, full.room)

    full' : IsFull (appended p full.buf_full full.room (take remain buf))
    full' = record {
      buf_full = length-splice (p.payload + 29) (take remain buf) p.buf ∙ full.buf_full;
      room = omega (arith, fits);
    }

    nothing : ¬ (0 < remain) → take remain buf ≡ []
    nothing h = let empty : remain ≡ 0 = omega arith in ap (λ n. take n buf) empty

    is_data : p.cmd ≡ cmd_data
    is_data = ==→eq p.cmd cmd_data test

fill_back-Filled :
    (next last : ℕ) (buffer : List UcpPacket) (buf : Bytes)
    → Consecutive next last buffer
    → Filled next last buffer buf (fill_back buffer buf)
unfolding fill_back
fill_back-Filled next last [] buf h = (omega arith, h, sym (append-nil (queued [])))
fill_back-Filled next last (p ∷ []) buf (e, full, end) = elim (Bool-cases (p.cmd == cmd_data)) [
  | inl test ↦ fill_one next last p buf test (e, full, end)
  | inr test ↦ rw test (omega arith, (e, full, end), sym (append-nil (queued (p ∷ []))))
]
fill_back-Filled next last (p ∷ q ∷ rest) buf (e, full, h) =
    let (le, numbered, bytes_are) = fill_back-Filled (add_u32 next 1) last (q ∷ rest) buf h in
    (
      le,
      (e, full, numbered),
      queued-append (p ∷ []) (fill_back (q ∷ rest) buf).1
          ∙ ap (◌++◌ (queued (p ∷ []))) bytes_are
          ∙ sym (append_assoc (queued (p ∷ [])) _ _)
          ∙ ap (λ bs. bs ++ take (fill_back (q ∷ rest) buf).0 buf)
              (sym (queued-append (p ∷ []) (q ∷ rest))),
    )

-- If the send buffer holds `bytes` in whole packets whose numbers run from `next` to the last one
-- given out, then after `send` of `buf` it holds `bytes` and then `buf`, again in whole packets with
-- consecutive numbers up to the last one given out.
pub send-Buffers :
    (s : InnerStream) (now : ℕ) (buf : Bytes) (next : ℕ) (bytes : Bytes)
    → Buffers next bytes s
    → Buffers next (bytes ++ buf) (send s now buf)
unfolding send make_packet_send
send-Buffers s now buf next bytes h = elim (dec_lt pos (length buf)) [
  | yes more ↦ rw (lt→ltb pos (length buf) more) (
      rw (append_assoc bytes (take pos buf) (drop pos buf), take-append-drop pos buf) at
        (make_packets-Buffers (length (drop pos buf)) _ now (drop pos buf) next
          (bytes ++ take pos buf) (omega arith) filled))
  | no whole ↦
      rw (le→ltb pos (length buf) (omega arith)) (rw (take_all pos buf (omega arith)) at filled)
]
  where
    pos : ℕ
    pos = (fill_back s.send_buffer buf).0

    result : Filled next s.seq s.send_buffer buf (fill_back s.send_buffer buf)
    result = fill_back-Filled next s.seq s.send_buffer buf h.numbered

    filled :
        Buffers next
          (bytes ++ take pos buf)
          (record s { send_buffer = (fill_back s.send_buffer buf).1 })
    filled = record {
      numbered = result.1;
      bytes_are = result.2 ∙ ap (λ bs. bs ++ take pos buf) h.bytes_are;
    }
