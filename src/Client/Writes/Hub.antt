-- ===== src/Client/Writes/Hub.antt =====
-- src/client.rs: what `process_tunnel_msg` does to the ports.
use stunnel.Base.{
  ℕ, ◌≡◌, refl, sym, ap, subst, Bool, true, false, Option, none, some, Bytes, if◌then◌else◌,
}
use mathlib.Core.Option.{some-injective}
use stunnel.Tunnel.{Cipher}
use stunnel.Client as Client
use stunnel.Client.{TunnelMsg, shutdown_write, connect_ok, data_msg}
use stunnel.Client.Ports.{PortHub, server_shutdown, connect_ok_port, server_send_data}
use stunnel.Client.Ports.Halves.{
  Touches, Touches-same, add_port-Touches, update_port-Touches, drop_port_half-Touches,
  client_close_port-Touches, server_close_port-Touches, try_send_msg-Touches, known-Touches,
}
use stunnel.Client.Writes.{Surroundings, Writer, process_tunnel_msg}

-- The port that a message is about.
pub port_of : TunnelMsg → Option ℕ
port_of (Client.cs_open_port id tx) = some id
port_of (Client.cs_connect id buf) = some id
port_of (Client.cs_connect_dn id buf port) = some id
port_of (Client.cs_shutdown_write id) = some id
port_of (Client.cs_close_port id) = some id
port_of (Client.cs_data id buf) = some id
port_of Client.sc_heartbeat = none
port_of (Client.sc_close_port id) = some id
port_of (Client.sc_shutdown_write id) = some id
port_of (Client.sc_connect_ok id buf) = some id
port_of (Client.sc_data id buf) = some id
port_of Client.heartbeat = none
port_of (Client.tunnel_port_half_drop id) = some id

abbrev pub Affects : Option ℕ → PortHub → PortHub → Type 0
Affects none hub hub' = hub' ≡ hub
Affects (some id) hub hub' = Touches id hub hub'

module _ (c : Cipher) (valid : Bytes → Bool) where
  wrote :
      (b : Bool) (w1 : Writer c valid) {w' : Writer c valid} {id : ℕ} {hub : PortHub}
      → (if b then none else some w1) ≡ some w'
      → Touches id hub w1.port_hub
      → Touches id hub w'.port_hub
  wrote true w1 h t = absurd (cc h)
  wrote false w1 {w' = w'} {id = id} {hub = hub} h t =
      subst (λ x. Touches id hub x.port_hub) (some-injective w1 w' h) t

  handled :
      {w1 w' : Writer c valid} {id : ℕ} {hub : PortHub}
      → some w1 ≡ some w'
      → Touches id hub w1.port_hub
      → Touches id hub w'.port_hub
  handled {w1 = w1} {w' = w'} {id = id} {hub = hub} h t =
      subst (λ x. Touches id hub x.port_hub) (some-injective w1 w' h) t

  -- A message that the client handles without an error of the stream changes the port that it is
  -- about at most, and if each port has one half or two before, so it is after.
  pub process_tunnel_msg-Affects :
      (e : Surroundings) (w : Writer c valid) (m : TunnelMsg) (w' : Writer c valid)
      → process_tunnel_msg c valid e w m ≡ some w'
      → Affects (port_of m) w.port_hub w'.port_hub
  unfolding process_tunnel_msg port_of server_shutdown connect_ok_port server_send_data
  process_tunnel_msg-Affects e w (Client.cs_open_port id tx) w' h =
      wrote e.broken _ h (add_port-Touches id w.port_hub tx)
  process_tunnel_msg-Affects e w (Client.cs_connect id buf) w' h =
      wrote e.broken _ h (Touches-same id w.port_hub w.port_hub refl)
  process_tunnel_msg-Affects e w (Client.cs_connect_dn id buf port) w' h =
      wrote e.broken _ h (update_port-Touches id w.port_hub _ port)
  process_tunnel_msg-Affects e w (Client.cs_shutdown_write id) w' h =
      wrote e.broken _ h (Touches-same id w.port_hub w.port_hub refl)
  process_tunnel_msg-Affects e w (Client.cs_close_port id) w' h =
      wrote e.broken _ h (client_close_port-Touches id w.port_hub)
  process_tunnel_msg-Affects e w (Client.cs_data id buf) w' h =
      wrote e.broken _ h (Touches-same id w.port_hub w.port_hub refl)
  process_tunnel_msg-Affects e w Client.sc_heartbeat w' h =
      ap (λ x. x.port_hub) (sym (some-injective _ _ h))
  process_tunnel_msg-Affects e w (Client.sc_close_port id) w' h =
      handled h (server_close_port-Touches id w.port_hub)
  process_tunnel_msg-Affects e w (Client.sc_shutdown_write id) w' h =
      handled h (known-Touches id w.port_hub e.closed shutdown_write)
  process_tunnel_msg-Affects e w (Client.sc_connect_ok id buf) w' h =
      handled h (known-Touches id w.port_hub e.closed (connect_ok buf))
  process_tunnel_msg-Affects e w (Client.sc_data id buf) w' h =
      handled h (try_send_msg-Touches id w.port_hub e.closed (data_msg buf))
  process_tunnel_msg-Affects e w Client.heartbeat w' h =
      ap (λ x. x.port_hub) (sym (some-injective _ _ h))
  process_tunnel_msg-Affects e w (Client.tunnel_port_half_drop id) w' h =
      handled h (drop_port_half-Touches id w.port_hub)
