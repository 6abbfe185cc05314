-- ===== src/Ucp/Packet/Arrival.antt =====
-- src/ucp/packet.rs: a packet that `parse` accepts can be read as far as its size.
use stunnel.Base.{
  ℕ, ◌≤◌, ◌≡◌, ◌∙◌, true, inl, inr, Bool-cases, Bytes, length, replicate, length-overlay,
  length-replicate, arith,
}
use stunnel.Ucp.Packet.{buf_size, new, is_legal, parse_header, parse, received}
use stunnel.Ucp.Packet.RoundTrip.{received-size, received-buf}
use stunnel.Ucp.Packet.Payload.{IsReadable, IsArrived, length-unread}

module _ (crc : Bytes → ℕ) (w : Bytes) (fits : length w ≤ buf_size) where
  came_full : length (received w).buf ≡ buf_size
  unfolding new
  came_full =
      rw (received-buf w fits)
        (length-overlay w (replicate buf_size 0) ∙ length-replicate {A = ℕ} buf_size 0)

  header-IsReadable : is_legal crc (received w) ≡ true → IsReadable (parse_header (received w))
  unfolding parse_header is_legal
  header-IsReadable h = record {
    pos_within = ground arith;
    size_within = omega (arith, came_full, received-size w fits, fits);
    buf_full = came_full;
  }

  header-IsArrived : is_legal crc (received w) ≡ true → IsArrived (parse_header (received w))
  header-IsArrived h =
      let ok = header-IsReadable h in
      record {
        readable = ok;
        payload_is =
            (unfold parse_header in
              omega (
                arith,
                length-unread (parse_header (received w)) ok,
                received-size w fits,
                fits,
                came_full,
              ));
      }

  -- Of a datagram that `parse` accepts, the packet is whole.
  pub parse-IsArrived : (parse crc (received w)).1 ≡ true → IsArrived (parse crc (received w)).0
  unfolding parse
  parse-IsArrived h = elim (Bool-cases (is_legal crc (received w))) [
    | inl legal ↦ rw legal (header-IsArrived legal)
    | inr refused ↦ cc (rw refused at h)
  ]
