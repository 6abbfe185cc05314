-- ===== src/Server/Task.antt =====
-- src/server.rs: the task of a port, which joins the port with a TCP stream.
pub mod Ending
use stunnel.Base.{
  ℕ, zero, suc, ◌>>=◌, Bool, Option, none, some, List, [], ◌∷◌, ◌++◌, Bytes, length, ◌==◌,
  if◌then◌else◌, SocketAddr,
}
use stunnel.Tunnel.Acts.{Shutdown, Act, writes, shuts, drains}
use stunnel.Server.{TunnelMsg, TunnelPortMsg, connect_dn, data_msg, shutdown_write, close_port}
use stunnel.Server.WritePort as WritePort
use stunnel.Server.WritePort.{TunnelWritePort}
use stunnel.Server.ReadPort as ReadPort
use stunnel.Server.ReadPort.{TunnelReadPort}
use stunnel.Protocol.Cs

abbrev pub Acts : Type 0
Acts = List (Act TunnelMsg)

-- What the reads of the TCP stream give: `none` is an error, no bytes are the end. Where the list is used up
-- the task waits.
unfoldable pub tunnel_port_write : TunnelWritePort → List (Option Bytes) → Acts
tunnel_port_write p [] = []
tunnel_port_write p (none ∷ reads) = shuts Shutdown.both ∷ WritePort.close p ∷ []
tunnel_port_write p (some buf ∷ reads) =
    let rest = tunnel_port_write p reads in
    if length buf == 0
    then shuts Shutdown.read ∷ WritePort.shutdown_write p ∷ WritePort.drop p ∷ []
    else WritePort.write p buf ∷ rest

-- The last acts of the end that receives.
unfoldable pub give_up : TunnelReadPort → Acts
give_up p = shuts Shutdown.both ∷ drains ∷ ReadPort.close (ReadPort.drain p) ∷ []

unfoldable pub finish : TunnelReadPort → Acts
finish p = shuts Shutdown.write ∷ drains ∷ ReadPort.drop (ReadPort.drain p) ∷ []

-- The TCP stream takes so many writes and refuses the next.
module _ (p : TunnelReadPort) where
  unfoldable pub port_read_loop : List TunnelPortMsg → ℕ → Acts
  port_read_loop [] takes = give_up p
  port_read_loop (data_msg op buf ∷ msgs) zero = give_up p
  port_read_loop (data_msg op buf ∷ msgs) (suc takes) =
      let rest = port_read_loop msgs takes in
      if op == Cs.data_msg then writes buf ∷ rest else give_up p
  port_read_loop (shutdown_write ∷ msgs) takes = finish p
  port_read_loop (connect_dn domain port ∷ msgs) takes = give_up p
  port_read_loop (close_port ∷ msgs) takes = give_up p

  -- A port that was drained gives `ClosePort`.
  unfoldable pub rx_loop : Option (List TunnelPortMsg) → ℕ → Acts
  rx_loop none takes = give_up p
  rx_loop (some msgs) takes = port_read_loop msgs takes

unfoldable pub tunnel_port_read : TunnelReadPort → ℕ → Acts
unfolding port_read_loop rx_loop
tunnel_port_read p takes = rx_loop p p.rx takes

-- What the task meets: the test of UTF-8, what `TcpStream::connect` gives for an address and for a host with
-- a port, with the local address if it connects, and how an address is printed.
pub record Network : Type 0 where
  pub valid : Bytes → Bool
  pub connect : Bytes → Option (Option SocketAddr)
  pub connect_host : Bytes → ℕ → Option (Option SocketAddr)
  pub format : SocketAddr → Bytes

-- The acts before the two ends run side by side, and those of each of them.
pub record Joined : Type 0 where
  pub opening : Acts
  pub sending : Acts
  pub receiving : Acts

module _ (net : Network) where
  -- The stream by the first message, if there is one; `none` is the panic of `unwrap`.
  unfoldable pub open_stream : TunnelPortMsg → Option (Option (Option SocketAddr))
  open_stream (data_msg op buf) =
      if op == Cs.connect
      then (if net.valid buf then some (net.connect buf) else none)
      else some none
  open_stream (connect_dn domain port) =
      if net.valid domain then some (net.connect_host domain port) else none
  open_stream shutdown_write = some none
  open_stream close_port = some none

  module _ (write_port : TunnelWritePort) (read_port : TunnelReadPort) where
    refused_port : Joined
    refused_port = record {
      opening = WritePort.close write_port ∷ [];
      sending = [];
      receiving = [];
    }

    unfoldable pub join_stream : Option (Option SocketAddr) → List (Option Bytes) → ℕ → Joined
    unfolding refused_port
    join_stream none reads takes = refused_port
    join_stream (some none) reads takes = refused_port
    join_stream (some (some addr)) reads takes = record {
      opening = WritePort.connect_ok write_port (net.format addr) ∷ [];
      sending = tunnel_port_write write_port reads;
      receiving = tunnel_port_read read_port takes;
    }

  unfoldable pub tunnel_port_task :
      TunnelReadPort → TunnelWritePort → List (Option Bytes) → ℕ → Option Joined
  tunnel_port_task read_port write_port reads takes = do
    let (msg, read_port') = ReadPort.read read_port
    stream ← open_stream msg
    some (join_stream write_port read_port' stream reads takes)
