-- ===== src/Server/Core.antt =====
-- src/server.rs: `tcp_tunnel_core_task` and `ucp_tunnel_core_task`, which serve a connection of a client.
use stunnel.Base.{ℕ, Option, some, none, List, [], ◌∷◌, ◌++◌, Bytes}
use stunnel.Tunnel.{Cipher, Outcome, panicked}
use stunnel.Server.{TunnelMsg, close_tunnel}
use stunnel.Server.Ports.{new, clear_ports}
use stunnel.Server.Reads.{process_tunnel_read}
use stunnel.Server.Writes.{Surroundings, Writer, process_tunnel_write}
use stunnel.Util.{SubSenders}

module _ (c : Cipher) where
  abbrev closing : List TunnelMsg × Outcome → Option (List TunnelMsg)
  closing (msgs, panicked) = none
  closing (msgs, _) = some (msgs ++ close_tunnel ∷ [])

  -- What the end that reads puts into the main channel, of the bytes that come until the stream ends.
  unfoldable pub received : Bytes → Bytes → Option (List TunnelMsg)
  received key bs = closing (process_tunnel_read c key bs)

  -- The end that writes, with the messages of the main channel and of its ports, and the ports then.
  unfoldable pub core_task :
      Bytes → Bytes → ℕ → SubSenders ℕ → List (Surroundings × TunnelMsg) → List TunnelMsg × Writer c
  core_task key ctr now senders msgs =
      let (done, w) = process_tunnel_write c key ctr now new senders msgs in
      (done, record w { port_hub = clear_ports w.port_hub })
