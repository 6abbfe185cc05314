-- ===== src/Client/Writes.antt =====
-- src/client.rs: `process_tunnel_write` and `process_tunnel_msg`, what the client writes to its server and
-- does to its ports.
pub mod Hub
use stunnel.Base.{
  ℕ, ◌>>=◌, Bool, true, false, Option, none, some, List, [], ◌∷◌, ◌++◌, Bytes, ltb, if◌then◌else◌,
  millis_since,
}
use stunnel.Tunnel.{Cipher}
use stunnel.Client.{
  TunnelMsg, cs_open_port, cs_connect, cs_connect_dn, cs_shutdown_write, cs_close_port, cs_data,
  sc_heartbeat, sc_close_port, sc_shutdown_write, sc_connect_ok, sc_data, heartbeat,
  tunnel_port_half_drop,
}
use stunnel.Client.Ports.{
  PortHub, add_port, update_port, drop_port_half, client_close_port, server_close_port,
  client_shutdown, server_shutdown, connect_ok_port, server_send_data,
}
use stunnel.Protocol.{
  verify_data, alive_timeout_time_ms, pack_cs_open_port_msg, pack_cs_connect_msg,
  pack_cs_connect_domain_msg, pack_cs_shutdown_write_msg, pack_cs_data_msg, pack_cs_close_port_msg,
  pack_cs_heartbeat_msg,
}

-- What a message meets: the time, whether the stream refuses writes from now on, and which channels
-- have lost their receiver.
pub record Surroundings : Type 0 where
  pub now : ℕ
  pub broken : Bool
  pub closed : ℕ → Bool

-- `valid` is the test of `String::from_utf8`.
module _ (c : Cipher) (valid : Bytes → Bool) where
  -- The variables of `process_tunnel_write`, and the bytes written to the stream so far.
  pub record Writer : Type 0 where
    pub alive_time : ℕ
    pub port_hub : PortHub
    pub encryptor : c.Cryptor
    pub written : Bytes

  -- `none` is the error of the stream, on which the tunnel ends.
  abbrev pub write_all : Surroundings → Writer → Bytes → Option Writer
  write_all e w bs = if e.broken then none else some (record w { written = w.written ++ bs })

  unfoldable pub process_tunnel_msg : Surroundings → Writer → TunnelMsg → Option Writer
  process_tunnel_msg e w (cs_open_port id tx) =
      write_all e (record w { port_hub = add_port w.port_hub id tx }) (pack_cs_open_port_msg id)
  process_tunnel_msg e w (cs_connect id buf) =
      let (data_bytes, k) = c.encrypt w.encryptor buf in
      write_all e (record w { encryptor = k }) (pack_cs_connect_msg id data_bytes)
  process_tunnel_msg e w (cs_connect_dn id buf port) =
      let host = if valid buf then buf else [] in
      let (data_bytes, k) = c.encrypt w.encryptor buf in
      write_all e (record w { port_hub = update_port w.port_hub id host port; encryptor = k })
        (pack_cs_connect_domain_msg id data_bytes port)
  process_tunnel_msg e w (cs_shutdown_write id) =
      write_all e (record w { port_hub = client_shutdown w.port_hub id })
        (pack_cs_shutdown_write_msg id)
  process_tunnel_msg e w (cs_data id buf) =
      let (data_bytes, k) = c.encrypt w.encryptor buf in
      write_all e (record w { encryptor = k }) (pack_cs_data_msg id data_bytes)
  process_tunnel_msg e w (cs_close_port id) =
      write_all e (record w { port_hub = client_close_port w.port_hub id })
        (pack_cs_close_port_msg id)
  process_tunnel_msg e w sc_heartbeat = some (record w { alive_time = e.now })
  process_tunnel_msg e w (sc_close_port id) =
      some (record w { alive_time = e.now; port_hub = server_close_port w.port_hub id })
  process_tunnel_msg e w (sc_shutdown_write id) =
      some (record w { alive_time = e.now; port_hub = server_shutdown e.closed w.port_hub id })
  process_tunnel_msg e w (sc_connect_ok id buf) =
      some (record w { alive_time = e.now; port_hub = connect_ok_port e.closed w.port_hub id buf })
  process_tunnel_msg e w (sc_data id buf) =
      some (record w { alive_time = e.now; port_hub = server_send_data e.closed w.port_hub id buf })
  process_tunnel_msg e w (tunnel_port_half_drop id) =
      some (record w { port_hub = drop_port_half w.port_hub id })
  process_tunnel_msg e w heartbeat = some w

  -- A turn of the loop; `false` breaks it, as a heartbeat does when the server is silent.
  unfoldable pub write_turn : Surroundings → Writer → TunnelMsg → Option (Bool × Writer)
  write_turn e w heartbeat =
      if ltb alive_timeout_time_ms (millis_since e.now w.alive_time)
      then some (false, w)
      else (do w' ← write_all e w pack_cs_heartbeat_msg; some (true, w'))
  write_turn e w msg = do w' ← process_tunnel_msg e w msg; some (true, w')

  -- The loop over the messages that come, to the end of the messages or a break: the messages that it
  -- took without a break, and the state then. On an error of the stream it is the state before.
  unfoldable pub write_loop : Writer → List (Surroundings × TunnelMsg) → List TunnelMsg × Writer
  write_loop w [] = ([], w)
  write_loop w (m ∷ msgs) = elim (write_turn m.0 w m.1) [
    | some (true, w') ↦ let (done, end_state) = write_loop w' msgs in (m.1 ∷ done, end_state)
    | some (false, w') ↦ ([], w')
    | none ↦ ([], w)
  ]

  -- The first writes, with the counter `ctr` that `Cryptor::new` draws.
  unfoldable pub start_writing : Bytes → Bytes → ℕ → PortHub → Writer
  start_writing key ctr now hub =
      let (data_bytes, k) = c.encrypt (c.with_ctr key ctr) verify_data in
      record { alive_time = now; port_hub = hub; encryptor = k; written = ctr ++ data_bytes }

  unfoldable pub process_tunnel_write :
      Bytes → Bytes → ℕ → PortHub → List (Surroundings × TunnelMsg) → List TunnelMsg × Writer
  process_tunnel_write key ctr now hub msgs = write_loop (start_writing key ctr now hub) msgs
