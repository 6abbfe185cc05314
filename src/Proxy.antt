-- ===== src/Proxy.antt =====
-- src/proxy/mod.rs: what the proxies share. A proxy, such as SOCKS5 or HTTP, is a record of three operations.
pub mod Socks5
pub mod Http
pub mod Relay
use stunnel.Base.{
  ℕ, zero, suc, ◌>>=◌, Bool, true, false, Option, none, some, List, [], ◌∷◌, ◌++◌, Bytes, length,
  ◌==◌, if◌then◌else◌, SocketAddr,
}
use stunnel.Tunnel.Acts.{Shutdown, Act, writes, shuts, drains}
use stunnel.Client.{TunnelMsg, TunnelPortMsg, connect_ok, data_msg, shutdown_write, close_port}
use stunnel.Client.WritePort as WritePort
use stunnel.Client.WritePort.{TunnelWritePort}
use stunnel.Client.ReadPort as ReadPort
use stunnel.Client.ReadPort.{TunnelReadPort}

pub data Destination : Type 0 where
  address : SocketAddr → Destination
  domain_name : Bytes → ℕ → Destination
  unknown : Destination

-- The TCP connection from the client of a proxy: the bytes to read until the stream ends, what was written
-- so far, and how many writes the stream takes before it refuses one.
pub record Conn : Type 0 where
  pub unread : Bytes
  pub replies : List Bytes
  pub takes : ℕ

-- Code over a connection; `none` is an error of the stream, on which the code returns.
abbrev pub M : Type 0 → Type 0
M A = Conn → Option A × Conn

abbrev pub next : {A B : Type 0} → Option A × Conn → (A → M B) → Option B × Conn
next (none, conn) f = (none, conn)
next (some a, conn) f = f a conn

-- The trait `Proxy`. A connection after `destination_unreached` or `destination_connected` has what they wrote.
pub record Proxy : Type 0 where
  pub handshake : M Destination
  pub destination_unreached : M (Unit {0})
  pub destination_connected : SocketAddr → M (Unit {0})

abbrev pub Acts : Type 0
Acts = List (Act TunnelMsg)

-- What the reads of the TCP stream give: `none` is an error, no bytes are the end. Where the list is used up
-- the task waits.
unfoldable pub proxy_tunnel_read : TunnelWritePort → List (Option Bytes) → Acts
proxy_tunnel_read p [] = []
proxy_tunnel_read p (none ∷ reads) = shuts Shutdown.both ∷ WritePort.close p ∷ []
proxy_tunnel_read p (some buf ∷ reads) =
    let rest = proxy_tunnel_read p reads in
    if length buf == 0
    then shuts Shutdown.read ∷ WritePort.shutdown_write p ∷ WritePort.drop p ∷ []
    else WritePort.write p buf ∷ rest

-- The last acts of the end that receives.
unfoldable pub give_up : TunnelReadPort → Acts
give_up p = shuts Shutdown.both ∷ drains ∷ ReadPort.close (ReadPort.drain p) ∷ []

unfoldable pub finish : TunnelReadPort → Acts
finish p = shuts Shutdown.write ∷ drains ∷ ReadPort.drop (ReadPort.drain p) ∷ []

-- The TCP stream takes so many writes and refuses the next.
module _ (p : TunnelReadPort) where
  unfoldable pub port_write_loop : List TunnelPortMsg → ℕ → Acts
  port_write_loop [] takes = give_up p
  port_write_loop (data_msg buf ∷ msgs) zero = give_up p
  port_write_loop (data_msg buf ∷ msgs) (suc takes) = writes buf ∷ port_write_loop msgs takes
  port_write_loop (shutdown_write ∷ msgs) takes = finish p
  port_write_loop (connect_ok buf ∷ msgs) takes = give_up p
  port_write_loop (close_port ∷ msgs) takes = give_up p

  -- A port that was drained gives `ClosePort`.
  unfoldable pub rx_loop : Option (List TunnelPortMsg) → ℕ → Acts
  rx_loop none takes = give_up p
  rx_loop (some msgs) takes = port_write_loop msgs takes

unfoldable pub proxy_tunnel_write : TunnelReadPort → ℕ → Acts
unfolding port_write_loop rx_loop
proxy_tunnel_write p takes = rx_loop p p.rx takes

-- The acts before the two ends run side by side, and those of each of them.
-- The connection is as it stands before they run.
pub record Joined : Type 0 where
  pub conn : Conn
  pub opening : Acts
  pub sending : Acts
  pub receiving : Acts

-- How an address is printed, and the address that the server sends back as text; `none` is the panic on a
-- text that is none.
pub record Texts : Type 0 where
  pub format : SocketAddr → Bytes
  pub resolve : Bytes → Option (Option SocketAddr)

module _ (proxy : Proxy) (texts : Texts) where
  -- The message that asks the tunnel to connect, if the handshake found a destination.
  unfoldable pub request : TunnelWritePort → Option Destination → Option (Act TunnelMsg)
  request p (some (address addr)) = some (WritePort.connect p (texts.format addr))
  request p (some (domain_name name port)) = some (WritePort.connect_domain_name p name port)
  request p (some unknown) = none
  request p none = none

  unfoldable pub answer : TunnelPortMsg → Option (Option SocketAddr)
  answer (connect_ok buf) = texts.resolve buf
  answer (data_msg buf) = some none
  answer shutdown_write = some none
  answer close_port = some none

  -- Whether the answer reaches the client of the proxy and is that of a connection.
  unfoldable pub respond : Option SocketAddr → Conn → Bool × Conn
  respond (some addr) conn = elim (proxy.destination_connected addr conn).0 [
    | some done ↦ (true, (proxy.destination_connected addr conn).1)
    | none ↦ (false, (proxy.destination_connected addr conn).1)
  ]
  respond none conn = (false, (proxy.destination_unreached conn).1)

  module _ (write_port : TunnelWritePort) (read_port : TunnelReadPort) where
    -- What follows the answer.
    unfoldable pub join_streams : Bool × Conn → Act TunnelMsg → List (Option Bytes) → Joined
    join_streams (true, conn) asked reads = record {
      conn = conn;
      opening = asked ∷ [];
      sending = proxy_tunnel_read write_port reads;
      receiving = proxy_tunnel_write read_port conn.takes;
    }
    join_streams (false, conn) asked reads = record {
      conn = conn;
      opening = asked ∷ shuts Shutdown.both ∷ drains ∷ WritePort.close write_port ∷ [];
      sending = [];
      receiving = [];
    }

  -- `reads` are those of the stream after the handshake.
  module _ (write_port : TunnelWritePort) (read_port : TunnelReadPort) where
    unfoldable pub run_with : Conn → Option (Act TunnelMsg) → List (Option Bytes) → Option Joined
    run_with conn none reads = some (record {
      conn = conn;
      opening = WritePort.close write_port ∷ [];
      sending = [];
      receiving = [];
    })
    run_with conn (some asked) reads = do
      let (msg, read_port') = ReadPort.read read_port
      addr ← answer msg
      some (join_streams write_port read_port' (respond addr conn) asked reads)

    unfoldable pub run_proxy_tunnel : Conn → List (Option Bytes) → Option Joined
    run_proxy_tunnel conn reads =
        let (destination, conn') = proxy.handshake conn in
        run_with conn' (request write_port destination) reads
