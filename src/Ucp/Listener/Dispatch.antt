-- ===== src/Ucp/Listener/Dispatch.antt =====
-- src/ucp/listener.rs: a datagram reaches the stream of its sender and no other.
use stunnel.Base.{
  ℕ, ◌+◌, ◌≤◌, ◌≡◌, refl, sym, ◌∙◌, ap, inl, inr, ◌⊎◌, true, false, Bool-cases, Option-cases,
  Option, none, some, [], ◌∷◌, ◌++◌, Bytes, length, ◌==◌, ==-self, ==→eq, SocketAddr, addr_eq,
  arith,
}
use mathlib.Core.Option.{some-injective}
use stunnel.Ucp.State.{UcpState}
use stunnel.Ucp.Packet.{UcpPacket, is_syn, parse, received, buf_size}
use stunnel.Ucp.Packet.Arrival.{parse-IsArrived}
use stunnel.Ucp.Packet.Payload.{IsArrived}
use stunnel.Ucp.Stream.{InnerStream, new, new_metrics, new_packet, send_packet}
use stunnel.Ucp.Stream.Machine.{accepting, input_in, input}
use stunnel.Ucp.Stream.Machine.Keeps.{Steps}
use stunnel.Ucp.Stream.Machine.Safety.{Opens, input-Handled}
use stunnel.Ucp.Listener.{UcpListener, update, new_stream, dispatch, arrival}
use stunnel.Ucp.Listener.Addresses.{
  addr_eq_self, addr_eq→eq, get, insert, get-insert_same, get-insert_other, get-remove_same,
}
use stunnel.Ucp.Listener.Agrees.{Unique-remove, IsListener, at, stream_of}

-- The stream of an address after a packet from there, and what the turn returns.
abbrev pub Own :
    (Bytes → ℕ)
    → UcpListener
    → ℕ
    → UcpPacket
    → SocketAddr
    → Option InnerStream
    → Option InnerStream
    → Option ℕ
    → Type 0
Own crc l now packet addr (some s) after made =
    (made ≡ none)
    × (input crc s now packet addr ≡ after)
    × ((s' : InnerStream) × (after ≡ some s') × (s'.remote_addr ≡ addr))
Own crc l now packet addr none after made =
    ((is_syn packet ≡ true)
      × (made ≡ some l.next)
      × (after ≡ some (accepting (new addr new_metrics now) now packet)))
    ⊎ ((is_syn packet ≡ false) × (made ≡ none) × (after ≡ none))

pub record Dispatched (crc : Bytes → ℕ) (l : UcpListener) (now : ℕ) (packet : UcpPacket)
    (addr : SocketAddr) (l' : UcpListener) (made : Option ℕ) : Type 0 where
  pub own : Own crc l now packet addr (stream_of l addr) (stream_of l' addr) made
  pub others :
      (other : SocketAddr) → addr_eq addr other ≡ false → stream_of l' other ≡ stream_of l other
  pub keeps : IsListener l'

update_same : (streams : ℕ → InnerStream) (h : ℕ) (s : InnerStream) → update streams h s h ≡ s
update_same streams h s = rw (==-self h) refl

update_other :
    (streams : ℕ → InnerStream) (h k : ℕ) (s : InnerStream)
    → (h == k) ≡ false
    → update streams h s k ≡ streams k
update_other streams h k s e = rw e refl

module _ (crc : Bytes → ℕ) (now : ℕ) (packet : UcpPacket) (p : IsArrived packet) where
  -- A packet does not change where a stream's peer is.
  input-remote_addr :
      (s : InnerStream) (addr : SocketAddr)
      → (s' : InnerStream) × (input crc s now packet addr ≡ some s')
        × (s'.remote_addr ≡ s.remote_addr)
  input-remote_addr s addr =
      let (s', e, answered) = input-Handled crc s now packet addr p in (s', e, kept s' answered.0.0)
    where
      kept :
          (s' : InnerStream)
          → Steps s s' ⊎ ((s.state ≡ UcpState.none) × Opens crc s packet s')
          → s'.remote_addr ≡ s.remote_addr
      kept s' (inl t) = t.remote_addr_is
      kept s' (inr (e, o)) = o.remote_addr_is

  input-new :
      (addr : SocketAddr)
      → is_syn packet ≡ true
      → input crc (new addr new_metrics now) now packet addr
        ≡ some (accepting (new addr new_metrics now) now packet)
  unfolding input input_in new
  input-new addr syn = rw (addr_eq_self addr, syn) refl

  module _ (l : UcpListener) (ok : IsListener l) (addr : SocketAddr) where
    module _ (h : ℕ) (known : get addr l.stream_map ≡ some h) where
      abbrev fed : InnerStream → UcpListener
      fed s = record l { streams = update l.streams h s }

      apart_from :
          (other : SocketAddr) (k : ℕ)
          → get other l.stream_map ≡ some k
          → addr_eq addr other ≡ false
          → (h == k) ≡ false
      apart_from other k e differs = elim (Bool-cases (h == k)) [
        | inl same ↦
            let one : addr ≡ other =
              sym (ok.known addr h known).1
              ∙ ap (λ i. (l.streams i).remote_addr) (==→eq h k same)
              ∙ (ok.known other k e).1 in
            absurd (cc (addr_eq_self addr, rw (← one) at differs))
        | inr apart ↦ apart
      ]

      fed-others :
          (s : InnerStream) (other : SocketAddr)
          → addr_eq addr other ≡ false
          → stream_of (fed s) other ≡ stream_of l other
      fed-others s other differs = elim (Option-cases (get other l.stream_map)) [
        | inl e ↦ rw e refl
        | inr (k, e) ↦ rw e (ap some (update_other l.streams h k s (apart_from other k e differs)))
      ]

      fed-IsListener : (s : InnerStream) → s.remote_addr ≡ addr → IsListener (fed s)
      fed-IsListener s at_addr = record {
        agree = ok.agree;
        unique = ok.unique;
        known = λ a k e. elim (Bool-cases (h == k)) [
          | inl same ↦
              let here : k ≡ h = sym (==→eq h k same) in
              let one : addr ≡ a =
                sym (ok.known addr h known).1
                ∙ ap (λ i. (l.streams i).remote_addr) (sym here)
                ∙ (ok.known a k e).1 in
              ((ok.known a k e).0, rw same (at_addr ∙ one))
          | inr apart ↦ ((ok.known a k e).0, rw apart (ok.known a k e).1)
        ];
      }

      fed-Dispatched :
          (s' : InnerStream)
          → input crc (l.streams h) now packet addr ≡ some s'
          → s'.remote_addr ≡ addr
          → Dispatched crc l now packet addr (fed s') none
      fed-Dispatched s' e stays =
          let held : at (fed s').streams (some h) ≡ some s' =
            ap some (update_same l.streams h s') in
          record {
            own = rw known (refl, e ∙ sym held, (s', held, stays));
            others = fed-others s';
            keeps = fed-IsListener s' stays;
          }

      dispatch-fed :
          (s' : InnerStream)
          → input crc (l.streams h) now packet addr ≡ some s'
          → dispatch crc l now packet addr ≡ some (fed s', none)
      unfolding dispatch
      dispatch-fed s' e = rw (dispatch, known, e) refl

    module _ (unknown : get addr l.stream_map ≡ none) (syn : is_syn packet ≡ true) where
      abbrev opened : InnerStream
      opened = accepting (new addr new_metrics now) now packet

      abbrev grown : UcpListener
      grown = record l {
        streams = update l.streams l.next opened;
        next = l.next + 1;
        senders = l.senders ++ l.next ∷ [];
        stream_map = insert addr l.next l.stream_map;
        metrics_map = insert addr l.next l.metrics_map;
      }

      opened_at : opened.remote_addr ≡ addr
      unfolding accepting new new_packet send_packet
      opened_at = refl

      older : (other : SocketAddr) (k : ℕ) → get other l.stream_map ≡ some k → (l.next == k) ≡ false
      older other k e = ground (arith, (ok.known other k e).0)

      grown-others :
          (other : SocketAddr)
          → addr_eq addr other ≡ false
          → stream_of grown other ≡ stream_of l other
      grown-others other differs = elim (Option-cases (get other l.stream_map)) [
        | inl e ↦ rw (get-insert_other addr other l.next l.stream_map differs, e) refl
        | inr (k, e) ↦
            rw (get-insert_other addr other l.next l.stream_map differs, e)
              (ap some (update_other l.streams l.next k opened (older other k e)))
      ]

      grown-IsListener : IsListener grown
      grown-IsListener = record {
        agree = λ a. elim (Bool-cases (addr_eq addr a)) [
          | inl same ↦
              let one : addr ≡ a = addr_eq→eq addr a same in
              rw (← one) (
                get-insert_same addr l.next l.metrics_map
                ∙ sym (get-insert_same addr l.next l.stream_map))
          | inr differs ↦
              get-insert_other addr a l.next l.metrics_map differs
              ∙ ok.agree a
              ∙ sym (get-insert_other addr a l.next l.stream_map differs)
        ];
        unique = (get-remove_same addr l.stream_map, Unique-remove addr l.stream_map ok.unique);
        known = λ a k e. elim (Bool-cases (addr_eq addr a)) [
          | inl same ↦
              let one : addr ≡ a = addr_eq→eq addr a same in
              let is : l.next ≡ k =
                some-injective l.next k
                  (sym (get-insert_same addr l.next l.stream_map) ∙ rw (← one) at e) in
              (omega arith, rw (← is, ==-self l.next) (opened_at ∙ one))
          | inr differs ↦
              let old : get a l.stream_map ≡ some k =
                sym (get-insert_other addr a l.next l.stream_map differs) ∙ e in
              (omega (arith, (ok.known a k old).0), rw (older a k old) (ok.known a k old).1)
        ];
      }

      dispatch-grown : dispatch crc l now packet addr ≡ some (grown, some l.next)
      unfolding dispatch new_stream
      dispatch-grown = rw (dispatch, unknown, syn, new_stream, input-new addr syn) refl

      grown-Dispatched : Dispatched crc l now packet addr grown (some l.next)
      grown-Dispatched =
          let held : stream_of grown addr ≡ some opened =
            rw (get-insert_same addr l.next l.stream_map)
              (ap some (update_same l.streams l.next opened)) in
          record {
            own = rw (unknown, held) (inl (syn, refl, refl));
            others = grown-others;
            keeps = grown-IsListener;
          }

    -- What a packet that `parse` accepts does.
    dispatch_lem :
        (l' : UcpListener) × (made : Option ℕ) × (dispatch crc l now packet addr ≡ some (l', made))
        × Dispatched crc l now packet addr l' made
    unfolding dispatch
    dispatch_lem = elim (Option-cases (get addr l.stream_map)) [
      | inr (h, known) ↦
          let (s', e, at_addr) = input-remote_addr (l.streams h) addr in
          let stays : s'.remote_addr ≡ addr = at_addr ∙ (ok.known addr h known).1 in
          (fed h known s', none, dispatch-fed h known s' e, fed-Dispatched h known s' e stays)
      | inl unknown ↦ elim (Bool-cases (is_syn packet)) [
        | inl syn ↦ (
          grown unknown syn,
          some l.next,
          dispatch-grown unknown syn,
          grown-Dispatched unknown syn,
        )
        | inr other ↦ (
          l,
          none,
          rw (dispatch, unknown, other) refl,
          record {
            own = rw unknown (inr (other, refl, refl));
            others = λ a differs. refl;
            keeps = ok;
          },
        )
      ]
    ]

-- In a listener whose two maps agree, a datagram of at most 1400 bytes does not make it panic. If
-- `parse` accepts it, it is the input of the stream of its sender; where there is none, a packet
-- that opens a session makes one, which accepts it and is returned, and any other changes nothing.
-- The streams of the other addresses stay as they were, and the maps agree again. If `parse` does
-- not, nothing changes.
pub arrival-Dispatched :
    (crc : Bytes → ℕ) (l : UcpListener) (now : ℕ) (datagram : Bytes) (addr : SocketAddr)
    → IsListener l
    → length datagram ≤ buf_size
    → let (packet, legal) = parse crc (received datagram) in
      (l' : UcpListener) × (made : Option ℕ) × (arrival crc l now (some (datagram, addr))
        ≡ some (l', made))
      × (((legal ≡ true) × Dispatched crc l now packet addr l' made)
          ⊎ ((legal ≡ false) × (l' ≡ l) × (made ≡ none)))
unfolding arrival
arrival-Dispatched crc l now datagram addr ok fits =
    elim (Bool-cases (parse crc (received datagram)).1) [
      | inl legal ↦
          let (l', made, e, d) =
            dispatch_lem crc now (parse crc (received datagram)).0
              (parse-IsArrived crc datagram fits legal) l ok addr in
          (l', made, rw legal e, inl (legal, d))
      | inr refused ↦ (l, none, rw refused refl, inr (refused, refl, refl))
    ]
