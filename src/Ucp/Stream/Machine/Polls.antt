-- ===== src/Ucp/Stream/Machine/Polls.antt =====
-- src/ucp/internal.rs: what a writer gets from `poll_write` and a reader from `poll_read`.
use stunnel.Base.{
  ℕ, ◌≤◌, ◌<◌, ◌≡◌, refl, ◌⊎◌, inl, inr, true, false, Bool-cases, some, ◌++◌, Bytes, length, leb,
  leb→le, arith,
}
use stunnel.Ucp.Stream.{InnerStream}
use stunnel.Ucp.Stream.Send.Queued.{Buffers, send-Buffers}
use stunnel.Ucp.Stream.Machine.{pending, failed, written, poll_write}

-- With a send buffer that holds `bytes` in whole packets with consecutive numbers, a write takes all
-- bytes or none. On a stream that is alive it takes them, behind those in the send buffer, exactly
-- if the buffer holds fewer packets than the peer's window, and else it leaves the caller's waker.
-- On a dead stream it fails and changes nothing.
pub poll_write-Buffers :
    (s : InnerStream) (now waker : ℕ) (buf : Bytes) (next : ℕ) (bytes : Bytes)
    → Buffers next bytes s
    → let (r, s') = poll_write s now waker buf in
      ((s.alive ≡ true)
        × (length s.send_buffer < s.remote_window)
        × (r ≡ written (length buf))
        × Buffers next (bytes ++ buf) s')
      ⊎ ((s.alive ≡ true)
          × (s.remote_window ≤ length s.send_buffer)
          × (r ≡ pending)
          × (s'.write_waker ≡ some waker)
          × Buffers next bytes s')
      ⊎ ((s.alive ≡ false) × (r ≡ failed) × (s' ≡ s))
unfolding poll_write
poll_write-Buffers s now waker buf next bytes h = elim (Bool-cases s.alive) [
  | inl alive ↦ elim (Bool-cases (leb s.remote_window (length s.send_buffer))) [
    | inl full ↦
        rw (poll_write, alive, full)
          (inr (
            inl (
              refl,
              leb→le _ _ full,
              refl,
              refl,
              record { numbered = h.numbered; bytes_are = h.bytes_are },
            )))
    | inr room ↦
        rw (poll_write, alive, room)
          (inl (
            refl,
            (ground arith),
            refl,
            send-Buffers (record s { alive = true }) now buf next bytes
                (record { numbered = h.numbered; bytes_are = h.bytes_are }),
          ))
  ]
  | inr dead ↦ rw (poll_write, dead) (inr (inr (refl, refl, refl)))
]
