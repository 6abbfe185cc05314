-- ===== src/Proxy/Relay/Path.antt =====
-- src/proxy/mod.rs, src/server.rs: what the client of a proxy sends comes out at the server's TCP stream.
use stunnel.Base.{
  ℕ, ◌≤◌, ◌≡◌, refl, sym, ap, ◌∙◌, inl, inr, Bool, true, false, Bool-cases, Option, none, some,
  List, [], ◌∷◌, ◌++◌, append_assoc, append-nil, map, Bytes, All, length, ◌==◌, get,
}
use stunnel.Tunnel.{Cipher}
use stunnel.Tunnel.Acts.{sent, written}
use stunnel.Tunnel.ToServer.{to_server, all_to_server}
use stunnel.Client.WritePort as ClientPort
use stunnel.Server as Server
use stunnel.Server.{TunnelPortMsg}
use stunnel.Server.Ports.{
  PortHub, Port, try_send_msg, client_send_data, client_shutdown, client_close_port,
}
use stunnel.Server.Writes.{Surroundings, Writer, process_tunnel_msg, write_turn, write_loop}
use stunnel.Server.ReadPort as ReadPort
use stunnel.Server.Task as Task
use stunnel.Proxy.{proxy_tunnel_read}
use stunnel.Protocol.Cs
use stunnel.Proxy.Relay.{
  contents, relayed, last_acts, each_written, tunnel_port_read-relayed, written_contents,
  last_acts-drained,
}

module _ (closed : ℕ → Bool) (hub : PortHub) (id : ℕ) (v : Port) (known : get id hub.ports ≡ some v)
    (kept : closed v.tx ≡ false) where
  try_send_msg-known :
      (msg : TunnelPortMsg)
      → try_send_msg closed hub id msg
        ≡ record hub { delivered = hub.delivered ++ (v.tx, msg) ∷ [] }
  unfolding try_send_msg
  try_send_msg-known msg = rw (try_send_msg, known, kept) refl

module _ (c : Cipher) (id : ℕ) (v : Port) where
  abbrev on_channel : List TunnelPortMsg → List (ℕ × TunnelPortMsg)
  on_channel = map (λ m. (v.tx, m))

  -- The state after a message to the port, with what the channel got.
  abbrev after : Writer c → Surroundings → List TunnelPortMsg → Writer c
  after w e got = record w {
    alive_time = e.now;
    port_hub = record w.port_hub { delivered = w.port_hub.delivered ++ on_channel got };
  }

  module _ (w : Writer c) (known : get id w.port_hub.ports ≡ some v) where
    write_turn-cs_data :
        (e : Surroundings) (buf : Bytes)
        → e.closed v.tx ≡ false
        → write_turn c e w (Server.cs_data Cs.data_msg id buf)
          ≡ some (true, after w e (Server.data_msg Cs.data_msg buf ∷ []))
    unfolding write_turn process_tunnel_msg client_send_data
    write_turn-cs_data e buf kept =
        rw
          (try_send_msg-known e.closed w.port_hub id v known kept (Server.data_msg Cs.data_msg buf))
          refl

    write_turn-cs_shutdown_write :
        (e : Surroundings)
        → e.closed v.tx ≡ false
        → write_turn c e w (Server.cs_shutdown_write id)
          ≡ some (true, after w e (Server.shutdown_write ∷ []))
    unfolding write_turn process_tunnel_msg client_shutdown
    write_turn-cs_shutdown_write e kept =
        rw (try_send_msg-known e.closed w.port_hub id v known kept Server.shutdown_write) refl

  write_loop_step :
      (w w' : Writer c) (m : Surroundings × Server.TunnelMsg)
      (msgs : List (Surroundings × Server.TunnelMsg))
      → write_turn c m.0 w m.1 ≡ some (true, w')
      → (write_loop c w (m ∷ msgs)).1 ≡ (write_loop c w' msgs).1
  unfolding write_loop
  write_loop_step w w' m msgs e = rw (write_loop, e) refl

  -- The loop over messages that begin with one that the channel takes as `got`.
  write_loop_first :
      (w : Writer c) (x : Server.TunnelMsg) (got : List TunnelPortMsg) (xs : List Server.TunnelMsg)
      (msgs : List (Surroundings × Server.TunnelMsg))
      → ((e : Surroundings)
          → e.closed v.tx ≡ false
          → write_turn c e w x ≡ some (true, after w e got))
      → All (λ (m : Surroundings × Server.TunnelMsg). m.0.closed v.tx ≡ false) msgs
      → map (λ m. m.1) msgs ≡ x ∷ xs
      → (e : Surroundings) × (rest : List (Surroundings × Server.TunnelMsg)) × ((write_loop c w
            msgs).1
          ≡ (write_loop c (after w e got) rest).1)
        × (map (λ m. m.1) rest ≡ xs)
        × All (λ (m : Surroundings × Server.TunnelMsg). m.0.closed v.tx ≡ false) rest
  write_loop_first w x got xs [] turn kept eq = absurd (cc eq)
  write_loop_first w x got xs (m ∷ msgs) turn (k, kept) eq =
      let head : m.1 ≡ x = cc eq in
      (m.0, msgs, write_loop_step w (after w m.0 got) m msgs (rw head (turn m.0 k)), cc eq, kept)

  write_loop_none :
      (w : Writer c) (msgs : List (Surroundings × Server.TunnelMsg))
      → map (λ m. m.1) msgs ≡ []
      → (write_loop c w msgs).1 ≡ w
  unfolding write_loop
  write_loop_none w [] eq = refl
  write_loop_none w (m ∷ msgs) eq = absurd (cc eq)

  write_loop_last :
      (w : Writer c) (x : Server.TunnelMsg) (got : List TunnelPortMsg)
      (msgs : List (Surroundings × Server.TunnelMsg))
      → ((e : Surroundings)
          → e.closed v.tx ≡ false
          → write_turn c e w x ≡ some (true, after w e got))
      → All (λ (m : Surroundings × Server.TunnelMsg). m.0.closed v.tx ≡ false) msgs
      → map (λ m. m.1) msgs ≡ x ∷ []
      → (write_loop c w msgs).1.port_hub.delivered ≡ w.port_hub.delivered ++ on_channel got
  write_loop_last w x got msgs turn kept eq =
      let (e, rest, same, none_left, _) = write_loop_first w x got [] msgs turn kept eq in
      ap (λ s. s.port_hub.delivered) (same ∙ write_loop_none (after w e got) rest none_left)

  abbrev closed_state : Writer c → Surroundings → Writer c
  closed_state w e = record w { alive_time = e.now; port_hub = client_close_port w.port_hub id }

  write_turn-cs_close_port :
      (w : Writer c) (e : Surroundings)
      → write_turn c e w (Server.cs_close_port id) ≡ some (true, closed_state w e)
  unfolding write_turn process_tunnel_msg
  write_turn-cs_close_port w e = refl

  -- The server's loop over the messages of the port puts what the reads gave into the port's channel.
  write_loop-relayed :
      (tx : ℕ) (reads : List (Option Bytes)) (w : Writer c)
      (msgs : List (Surroundings × Server.TunnelMsg))
      → get id w.port_hub.ports ≡ some v
      → All (λ (m : Surroundings × Server.TunnelMsg). m.0.closed v.tx ≡ false) msgs
      → map (λ m. m.1) msgs
        ≡ all_to_server (sent (proxy_tunnel_read (record { id = id; tx = tx }) reads))
      → (write_loop c w msgs).1.port_hub.delivered
        ≡ w.port_hub.delivered ++ on_channel (relayed reads)
  unfolding client_close_port proxy_tunnel_read all_to_server to_server sent ClientPort.write
      ClientPort.shutdown_write ClientPort.close ClientPort.drop
  write_loop-relayed tx [] w [] known kept eq =
      ap (λ s. s.port_hub.delivered) (write_loop_none w [] refl)
      ∙ sym (append-nil w.port_hub.delivered)
  write_loop-relayed tx [] w (m ∷ msgs) known kept eq = absurd (cc eq)
  write_loop-relayed tx (none ∷ reads) w [] known kept eq = absurd (cc eq)
  write_loop-relayed tx (none ∷ reads) w (m ∷ msgs) known kept eq =
      let head : m.1 ≡ Server.cs_close_port id = cc eq in
      let no_more : map (λ m. m.1) msgs ≡ [] = cc eq in
      ap (λ s. s.port_hub.delivered)
        (write_loop_step w (closed_state w m.0) m msgs (rw head (write_turn-cs_close_port w m.0))
          ∙ write_loop_none (closed_state w m.0) msgs no_more)
      ∙ sym (append-nil w.port_hub.delivered)
  write_loop-relayed tx (some buf ∷ reads) w msgs known kept eq =
      elim (Bool-cases (length buf == 0)) [
        | inl empty ↦ rw empty (
            write_loop_last w (Server.cs_shutdown_write id) (Server.shutdown_write ∷ []) msgs
              (write_turn-cs_shutdown_write w known) kept (rw empty at eq))
        | inr more ↦
            let piece : List TunnelPortMsg = Server.data_msg Cs.data_msg buf ∷ [] in
            let (e, rest, same, others, all_kept) =
              write_loop_first w (Server.cs_data Cs.data_msg id buf) piece
                (all_to_server (sent (proxy_tunnel_read (record { id = id; tx = tx }) reads))) msgs
                (λ e k. write_turn-cs_data w known e buf k) kept (rw more at eq) in
            rw more (
              ap (λ s. s.port_hub.delivered) same
              ∙ write_loop-relayed tx reads (after w e piece) rest known all_kept others
              ∙ append_assoc w.port_hub.delivered (on_channel piece) (on_channel (relayed reads)))
      ]

-- Let the port be known to the server and its channel stay open, and let the messages in which
-- `proxy_tunnel_read` puts what it reads be those that the server's loop gets, with no others among
-- them. They go into the port's channel, each once and in order. Where that is all the channel
-- holds, a stream that takes as many writes as there were reads is given, by `tunnel_port_read`, the
-- same pieces in order, so the same bytes as far as the end or an error. Then its writing side is
-- shut and the port half dropped if the end came, and both sides are shut and the port is closed if
-- an error came or no more.
pub tunnel_port_read-proxy_tunnel_read :
    (c : Cipher) (w : Writer c) (id tx : ℕ) (v : Port) (port : ReadPort.TunnelReadPort)
    (reads : List (Option Bytes)) (takes : ℕ) (msgs : List (Surroundings × Server.TunnelMsg))
    → get id w.port_hub.ports ≡ some v
    → All (λ (m : Surroundings × Server.TunnelMsg). m.0.closed v.tx ≡ false) msgs
    → map (λ m. m.1) msgs
      ≡ all_to_server (sent (proxy_tunnel_read (record { id = id; tx = tx }) reads))
    → length reads ≤ takes
    → let arrived : List TunnelPortMsg = relayed reads in
      ((write_loop c w msgs).1.port_hub.delivered
        ≡ w.port_hub.delivered ++ map (λ m. (v.tx, m)) arrived)
      × (Task.tunnel_port_read (record port { rx = some arrived }) takes
          ≡ each_written reads ++ last_acts port reads)
      × (written (Task.tunnel_port_read (record port { rx = some arrived }) takes) ≡ contents reads)
unfolding Task.give_up Task.finish ReadPort.drain
tunnel_port_read-proxy_tunnel_read c w id tx v port reads takes msgs known kept eq enough =
    let open_port : ReadPort.TunnelReadPort = record port { rx = some (relayed reads) } in
    let acts = tunnel_port_read-relayed open_port reads takes enough refl in
    (
      write_loop-relayed c id v tx reads w msgs known kept eq,
      acts
          ∙ ap (λ l. each_written reads ++ l) (last_acts-drained port (some (relayed reads)) reads),
      ap written acts ∙ written_contents open_port reads,
    )
