-- ===== src/Client/Task.antt =====
-- src/client.rs: `tcp_tunnel_core_task`, `ucp_tunnel_core_task` and the loop of `TcpTunnel::new` and
-- `UcpTunnel::new`, which connects again when a connection is over.
use stunnel.Base.{ℕ, suc, Bool, Option, none, some, List, [], ◌∷◌, Bytes, length, drop}
use stunnel.Tunnel.{Cipher}
use stunnel.Client.{TunnelMsg}
use stunnel.Client.Ports.{new, clear_ports}
use stunnel.Client.Writes.{Surroundings, Writer, process_tunnel_write}

-- What becomes of a connection: it is refused, its stream refuses the first writes, or it takes them, with the
-- counter that `Cryptor::new` draws and the time then. A stream of UCP is never refused.
pub data Connection : Type 0 where
  refused : Connection
  unheard : Connection
  heard : Bytes → ℕ → Connection

module _ (c : Cipher) (valid : Bytes → Bool) where
  -- The messages that were taken off the tunnel's stream without a break of the loop, and the state then. Its `written`
  -- is what the connection's stream accepted; how much of that arrives is left open.
  abbrev pub Served : Type 0
  Served = List TunnelMsg × Writer c valid

  -- The messages that the next connection finds: the message that breaks the loop is taken too. The end that
  -- reads puts its messages among them, and when it is over it shuts the stream, which then refuses writes.
  unfoldable pub core_task :
      ℕ
      → Bytes
      → Connection
      → List (Surroundings × TunnelMsg)
      → List (Surroundings × TunnelMsg) × Option Served
  core_task tid key refused msgs = (msgs, none)
  core_task tid key unheard msgs = (msgs, none)
  core_task tid key (heard ctr now) msgs =
      let (done, w) = process_tunnel_write c valid key ctr now (new tid) msgs in
      (drop (suc (length done)) msgs, some (done, record w { port_hub = clear_ports w.port_hub }))

  abbrev and_then : Option Served → List Served → List Served
  and_then none later = later
  and_then (some served) later = served ∷ later

  -- The loop over so many connections: what each one served, and the messages that are left.
  unfoldable pub core_loop :
      ℕ
      → Bytes
      → List Connection
      → List (Surroundings × TunnelMsg)
      → List Served × List (Surroundings × TunnelMsg)
  core_loop tid key [] msgs = ([], msgs)
  core_loop tid key (connection ∷ connections) msgs =
      let (rest, served) = core_task tid key connection msgs in
      let (later, left) = core_loop tid key connections rest in (and_then served later, left)
