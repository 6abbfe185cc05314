-- ===== src/Server/Writes.antt =====
-- src/server.rs: `process_tunnel_write` and `process_tunnel_msg`, what the server does with the messages of
-- the client and of its ports.
pub mod Halves
use stunnel.Base.{
  ℕ, ◌>>=◌, Bool, true, false, Option, none, some, List, [], ◌∷◌, ◌++◌, Bytes, ltb, if◌then◌else◌,
  millis_since,
}
use stunnel.Util.{SubSenders, get_one_sender}
use stunnel.Tunnel.{Cipher}
use stunnel.Server.{
  TunnelMsg, cs_heartbeat, cs_open_port, cs_close_port, cs_shutdown_write, cs_connect_dn, cs_data,
  sc_close_port, sc_shutdown_write, sc_connect_ok, sc_data, tunnel_port_half_drop, heartbeat,
  close_tunnel,
}
use stunnel.Server.Ports.{
  PortHub, add_port, drop_port_half, client_close_port, server_close_port, connect,
  client_send_data, client_shutdown,
}
use stunnel.Protocol.{
  alive_timeout_time_ms, pack_sc_close_port_msg, pack_sc_shutdown_write_msg, pack_sc_connect_ok_msg,
  pack_sc_data_msg, pack_sc_heartbeat_rsp_msg,
}

-- What a message meets: the time, whether the stream refuses writes from now on, which channels have
-- lost their receiver, and the channel that a new port gets.
pub record Surroundings : Type 0 where
  pub now : ℕ
  pub broken : Bool
  pub closed : ℕ → Bool
  pub new_channel : ℕ

-- The task of a port: its id, the channel it reads from, and the sender that it writes to.
pub record PortTask : Type 0 where
  pub id : ℕ
  pub rx : ℕ
  pub tx : ℕ

module _ (c : Cipher) where
  -- The variables of `process_tunnel_write`, the bytes written to the stream and the tasks spawned so
  -- far.
  pub record Writer : Type 0 where
    pub senders : SubSenders ℕ
    pub alive_time : ℕ
    pub port_hub : PortHub
    pub encryptor : c.Cryptor
    pub written : Bytes
    pub spawned : List PortTask

  -- `none` is the error of the stream, on which the tunnel ends.
  abbrev pub write_all : Surroundings → Writer → Bytes → Option Writer
  write_all e w bs = if e.broken then none else some (record w { written = w.written ++ bs })

  unfoldable pub process_tunnel_msg : Surroundings → Writer → TunnelMsg → Option Writer
  process_tunnel_msg e w cs_heartbeat =
      write_all e (record w { alive_time = e.now }) pack_sc_heartbeat_rsp_msg
  process_tunnel_msg e w (cs_open_port id) = do
    (sender, senders') ← get_one_sender w.senders
    some (record w {
      alive_time = e.now;
      port_hub = add_port w.port_hub id e.new_channel;
      senders = senders';
      spawned = w.spawned ++ record { id = id; rx = e.new_channel; tx = sender } ∷ [];
    })
  process_tunnel_msg e w (cs_close_port id) =
      some (record w { alive_time = e.now; port_hub = client_close_port w.port_hub id })
  process_tunnel_msg e w (cs_shutdown_write id) =
      some (record w { alive_time = e.now; port_hub = client_shutdown e.closed w.port_hub id })
  process_tunnel_msg e w (cs_connect_dn id domain port) =
      some (record w { alive_time = e.now; port_hub = connect e.closed w.port_hub id domain port })
  process_tunnel_msg e w (cs_data op id buf) =
      some
        (record w { alive_time = e.now; port_hub = client_send_data e.closed w.port_hub id op buf })
  process_tunnel_msg e w (sc_close_port id) =
      write_all e (record w { port_hub = server_close_port w.port_hub id })
        (pack_sc_close_port_msg id)
  process_tunnel_msg e w (sc_shutdown_write id) = write_all e w (pack_sc_shutdown_write_msg id)
  process_tunnel_msg e w (sc_connect_ok id buf) =
      let (data_bytes, k) = c.encrypt w.encryptor buf in
      write_all e (record w { encryptor = k }) (pack_sc_connect_ok_msg id data_bytes)
  process_tunnel_msg e w (sc_data id buf) =
      let (data_bytes, k) = c.encrypt w.encryptor buf in
      write_all e (record w { encryptor = k }) (pack_sc_data_msg id data_bytes)
  process_tunnel_msg e w (tunnel_port_half_drop id) =
      some (record w { port_hub = drop_port_half w.port_hub id })
  process_tunnel_msg e w heartbeat = some w
  process_tunnel_msg e w close_tunnel = some w

  -- A turn of the loop; `false` breaks it.
  unfoldable pub write_turn : Surroundings → Writer → TunnelMsg → Option (Bool × Writer)
  write_turn e w heartbeat =
      if ltb alive_timeout_time_ms (millis_since e.now w.alive_time)
      then some (false, w)
      else some (true, w)
  write_turn e w close_tunnel = some (false, w)
  write_turn e w msg = do w' ← process_tunnel_msg e w msg; some (true, w')

  -- The loop over the messages that come, as in the client.
  unfoldable pub write_loop : Writer → List (Surroundings × TunnelMsg) → List TunnelMsg × Writer
  write_loop w [] = ([], w)
  write_loop w (m ∷ msgs) = elim (write_turn m.0 w m.1) [
    | some (true, w') ↦ let (done, end_state) = write_loop w' msgs in (m.1 ∷ done, end_state)
    | some (false, w') ↦ ([], w')
    | none ↦ ([], w)
  ]

  -- The first write, with the counter `ctr` that `Cryptor::new` draws.
  unfoldable pub process_tunnel_write :
      Bytes
      → Bytes
      → ℕ
      → PortHub
      → SubSenders ℕ
      → List (Surroundings × TunnelMsg)
      → List TunnelMsg × Writer
  process_tunnel_write key ctr now hub senders msgs =
      write_loop
        (record {
          senders = senders;
          alive_time = now;
          port_hub = hub;
          encryptor = c.with_ctr key ctr;
          written = ctr;
          spawned = [];
        })
        msgs
