-- ===== src/Server/Ports.antt =====
-- src/server.rs: `PortHub`, the open ports of a tunnel, as in the client's module of this name.
use stunnel.Base.{
  ℕ, Bool, none, some, List, [], ◌∷◌, ◌++◌, Bytes, ◌==◌, if◌then◌else◌, sub_u32, get, insert,
  remove,
}
use stunnel.Server.{TunnelPortMsg, connect_dn, data_msg, shutdown_write}

pub record Port : Type 0 where
  pub count : ℕ
  pub tx : ℕ

pub record PortHub : Type 0 where
  pub ports : List (ℕ × Port)
  pub delivered : List (ℕ × TunnelPortMsg)

unfoldable pub new : PortHub
new = record { ports = []; delivered = [] }

unfoldable pub add_port : PortHub → ℕ → ℕ → PortHub
add_port hub id tx = record hub { ports = insert id (record { count = 2; tx = tx }) hub.ports }

unfoldable pub drop_port_half : PortHub → ℕ → PortHub
drop_port_half hub id = elim (get id hub.ports) [
  | some value ↦
      let count = sub_u32 value.count 1 in
      if count == 0
      then record hub { ports = remove id hub.ports }
      else record hub { ports = insert id (record value { count = count }) hub.ports }
  | none ↦ hub
]

unfoldable pub clear_ports : PortHub → PortHub
clear_ports hub = record hub { ports = [] }

unfoldable pub client_close_port : PortHub → ℕ → PortHub
client_close_port hub id = record hub { ports = remove id hub.ports }

unfoldable pub server_close_port : PortHub → ℕ → PortHub
server_close_port hub id = record hub { ports = remove id hub.ports }

module _ (closed : ℕ → Bool) where
  unfoldable pub try_send_msg : PortHub → ℕ → TunnelPortMsg → PortHub
  try_send_msg hub id msg = elim (get id hub.ports) [
    | some value ↦
        if closed value.tx
        then record hub { ports = remove id hub.ports }
        else record hub { delivered = hub.delivered ++ (value.tx, msg) ∷ [] }
    | none ↦ hub
  ]

  unfoldable pub connect : PortHub → ℕ → Bytes → ℕ → PortHub
  connect hub id domain port = try_send_msg hub id (connect_dn domain port)

  unfoldable pub client_send_data : PortHub → ℕ → ℕ → Bytes → PortHub
  client_send_data hub id op buf = try_send_msg hub id (data_msg op buf)

  unfoldable pub client_shutdown : PortHub → ℕ → PortHub
  client_shutdown hub id = try_send_msg hub id shutdown_write
