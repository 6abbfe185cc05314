-- ===== src/Client/Ports.antt =====
-- src/client.rs: `PortHub`, the open ports of a tunnel. A port is two halves, one that reads and one that
-- writes. `closed` tells which channels have lost their receiver, and `delivered` lists what was put
-- into the channels so far.
pub mod Halves
use stunnel.Base.{
  ℕ, Bool, true, false, Option, none, some, List, [], ◌∷◌, ◌++◌, Bytes, ◌==◌, if◌then◌else◌,
  sub_u32, get, insert, remove,
}
use stunnel.Client.{TunnelPortMsg, connect_ok, data_msg, shutdown_write}

pub record Port : Type 0 where
  pub host : Bytes
  pub port : ℕ
  pub count : ℕ
  pub tx : ℕ

pub record PortHub : Type 0 where
  pub id : ℕ
  pub ports : List (ℕ × Port)
  pub delivered : List (ℕ × TunnelPortMsg)

unfoldable pub new : ℕ → PortHub
new id = record { id = id; ports = []; delivered = [] }

unfoldable pub add_port : PortHub → ℕ → ℕ → PortHub
add_port hub id tx = record hub {
  ports = insert id (record { host = []; port = 0; count = 2; tx = tx }) hub.ports;
}

unfoldable pub update_port : PortHub → ℕ → Bytes → ℕ → PortHub
update_port hub id host port = elim (get id hub.ports) [
  | some value ↦ record hub {
    ports = insert id (record value { host = host; port = port }) hub.ports;
  }
  | none ↦ hub
]

unfoldable pub drop_port_half : PortHub → ℕ → PortHub
drop_port_half hub id = elim (get id hub.ports) [
  | some value ↦
      let count = sub_u32 value.count 1 in
      if count == 0
      then record hub { ports = remove id hub.ports }
      else record hub { ports = insert id (record value { count = count }) hub.ports }
  | none ↦ hub
]

unfoldable pub clear_ports : PortHub → PortHub
clear_ports hub = record hub { ports = [] }

unfoldable pub client_close_port : PortHub → ℕ → PortHub
client_close_port hub id = elim (get id hub.ports) [
  | some value ↦ record hub { ports = remove id hub.ports }
  | none ↦ hub
]

unfoldable pub server_close_port : PortHub → ℕ → PortHub
server_close_port hub id = elim (get id hub.ports) [
  | some value ↦ record hub { ports = remove id hub.ports }
  | none ↦ hub
]

-- It only writes to the log.
abbrev pub client_shutdown : PortHub → ℕ → PortHub
client_shutdown hub id = hub

module _ (closed : ℕ → Bool) where
  unfoldable pub try_send_msg : PortHub → ℕ → TunnelPortMsg → PortHub
  try_send_msg hub id msg = elim (get id hub.ports) [
    | some value ↦
        if closed value.tx
        then record hub { ports = remove id hub.ports }
        else record hub { delivered = hub.delivered ++ (value.tx, msg) ∷ [] }
    | none ↦ hub
  ]

  unfoldable pub server_shutdown : PortHub → ℕ → PortHub
  server_shutdown hub id = elim (get id hub.ports) [
    | some value ↦ try_send_msg hub id shutdown_write
    | none ↦ hub
  ]

  unfoldable pub connect_ok_port : PortHub → ℕ → Bytes → PortHub
  connect_ok_port hub id buf = elim (get id hub.ports) [
    | some value ↦ try_send_msg hub id (connect_ok buf)
    | none ↦ hub
  ]

  unfoldable pub server_send_data : PortHub → ℕ → Bytes → PortHub
  server_send_data hub id buf = try_send_msg hub id (data_msg buf)
