-- ===== src/Ucp/Stream/Output/Alive.antt =====
-- src/ucp/internal.rs: how `output` treats a stream that has heard nothing for long.
use stunnel.Base.{ℕ, ◌≤◌, ◌≡◌, refl, Bytes, le→ltb, millis_since}
use stunnel.Ucp.{ucp_stream_broken_millis}
use stunnel.Ucp.Stream.{InnerStream, die, update_metrics}
use stunnel.Ucp.Stream.Output.{output}

module _ (crc : Bytes → ℕ) (now : ℕ) where
  -- After 20 seconds of silence it ends the stream, and sends nothing.
  pub output-silent :
      (s : InnerStream)
      → ucp_stream_broken_millis ≤ millis_since now s.alive_time
      → output crc s now ≡ update_metrics (die s)
  unfolding output
  output-silent s silent =
      rw (le→ltb (millis_since now s.alive_time) ucp_stream_broken_millis silent) refl
