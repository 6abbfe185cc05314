-- ===== src/Ucp/Listener.antt =====
-- src/ucp/listener.rs: the listener, which gives each datagram to the stream of its sender. An `Arc` of a stream
-- is a number, under which `streams` holds the stream; the metrics of a stream are its field.
pub mod Addresses
pub mod Agrees
pub mod Dispatch
use stunnel.Base.{
  ℕ, suc, ◌+◌, ◌>>=◌, Bool, true, false, not, Option, none, some, List, [], ◌∷◌, ◌++◌, Bytes, ltb,
  ◌==◌, if◌then◌else◌, SocketAddr, millis_since,
}
use stunnel.Ucp.Packet.{UcpPacket, is_syn, parse, received}
use stunnel.Ucp.Stream.{InnerStream, UcpStreamMetrics, new_metrics}
use stunnel.Ucp.Stream as Stream
use stunnel.Ucp.Stream.Machine.{input}
use stunnel.Ucp.Listener.Addresses.{get, insert, remove}

-- `UcpListener`, with its `UcpListenerMetrics`, the streams made so far and the tasks `UcpStream::send` spawned.
pub record UcpListener : Type 0 where
  pub metrics_map : List (SocketAddr × ℕ)
  pub stream_map : List (SocketAddr × ℕ)
  pub timestamp : ℕ
  pub streams : ℕ → InnerStream
  pub next : ℕ
  pub senders : List ℕ

-- `bind`, on a socket that is bound; `streams` is of no account yet.
unfoldable pub bind : (ℕ → InnerStream) → ℕ → UcpListener
bind streams now = record {
  metrics_map = [];
  stream_map = [];
  timestamp = now;
  streams = streams;
  next = 0;
  senders = [];
}

abbrev pub update : (ℕ → InnerStream) → ℕ → InnerStream → ℕ → InnerStream
update streams h s k = if h == k then s else streams k

unfoldable pub get_metrics : UcpListener → List (SocketAddr × UcpStreamMetrics)
get_metrics l = go l.metrics_map
  where
    go : List (SocketAddr × ℕ) → List (SocketAddr × UcpStreamMetrics)
    go [] = []
    go (e ∷ map) = (e.0, (l.streams e.1).metrics) ∷ go map

module _ (crc : Bytes → ℕ) where
  -- `none` is a panic.
  unfoldable pub new_stream : UcpListener → ℕ → UcpPacket → SocketAddr → Option (UcpListener × ℕ)
  new_stream l now packet remote_addr = do
    inner ← input crc (Stream.new remote_addr new_metrics now) now packet remote_addr
    some (
      record l {
        streams = update l.streams l.next inner;
        next = l.next + 1;
        senders = l.senders ++ l.next ∷ [];
        stream_map = insert remote_addr l.next l.stream_map;
        metrics_map = insert remote_addr l.next l.metrics_map;
      },
      l.next,
    )

-- The addresses of the streams that are dead.
unfoldable pub dead_keys : (ℕ → InnerStream) → List (SocketAddr × ℕ) → List SocketAddr
dead_keys streams [] = []
dead_keys streams (e ∷ map) =
    let keys = dead_keys streams map in if not (streams e.1).alive then e.0 ∷ keys else keys

unfoldable pub remove_keys : List SocketAddr → List (SocketAddr × ℕ) → List (SocketAddr × ℕ)
remove_keys [] map = map
remove_keys (addr ∷ keys) map = remove_keys keys (remove addr map)

unfoldable pub remove_dead_stream : UcpListener → ℕ → UcpListener
remove_dead_stream l now =
    if ltb (millis_since now l.timestamp) 1000
    then l
    else (let keys = dead_keys l.streams l.stream_map in
        record l {
          stream_map = remove_keys keys l.stream_map;
          metrics_map = remove_keys keys l.metrics_map;
          timestamp = now;
        })

module _ (crc : Bytes → ℕ) where
  -- What `incoming` does with a packet that `parse` accepts: a new stream, which it returns, or none.
  unfoldable pub dispatch :
      UcpListener → ℕ → UcpPacket → SocketAddr → Option (UcpListener × Option ℕ)
  dispatch l now packet remote_addr = elim (get remote_addr l.stream_map) [
    | some h ↦ do
      inner ← input crc (l.streams h) now packet remote_addr
      some (record l { streams = update l.streams h inner }, none)
    | none ↦
        if is_syn packet
        then (do (l', h) ← new_stream crc l now packet remote_addr; some (l', some h))
        else some (l, none)
  ]

  unfoldable pub arrival :
      UcpListener → ℕ → Option (Bytes × SocketAddr) → Option (UcpListener × Option ℕ)
  arrival l now none = some (l, none)
  arrival l now (some (datagram, remote_addr)) =
      let (packet, legal) = parse crc (received datagram) in
      if legal then dispatch l now packet remote_addr else some (l, none)

  -- A turn of the loop of `incoming`: a datagram or, after a second or an error, none. The clock is read once.
  unfoldable pub incoming_turn :
      UcpListener → ℕ → Option (Bytes × SocketAddr) → Option (UcpListener × Option ℕ)
  incoming_turn l now event = do
    (l', made) ← arrival l now event
    some (elim made [ some h ↦ (l', some h) | none ↦ (remove_dead_stream l' now, none) ])

  -- `incoming` over the datagrams that come, until it returns a stream. Between its turns other tasks change the
  -- streams: each event comes with the streams as they leave them.
  unfoldable pub incoming :
      UcpListener
      → List ((ℕ → InnerStream) × ℕ × Option (Bytes × SocketAddr))
      → Option (UcpListener × Option ℕ)
  incoming l [] = some (l, none)
  incoming l ((streams, now, event) ∷ events) = do
    (l', made) ← incoming_turn (record l { streams = streams }) now event
    elim made [ some h ↦ some (l', some h) | none ↦ incoming l' events ]
