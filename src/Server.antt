-- ===== src/Server.antt =====
-- src/server.rs: the server's end of a tunnel. A channel's `Sender` is a number that names the channel.
pub mod Ports
pub mod Reads
pub mod Writes
pub mod WritePort
pub mod ReadPort
pub mod Task
pub mod Core
use stunnel.Base.{ℕ, Bytes}

pub data TunnelMsg : Type 0 where
  cs_heartbeat : TunnelMsg
  cs_open_port : ℕ → TunnelMsg
  cs_close_port : ℕ → TunnelMsg
  cs_shutdown_write : ℕ → TunnelMsg
  cs_connect_dn : ℕ → Bytes → ℕ → TunnelMsg
  cs_data : ℕ → ℕ → Bytes → TunnelMsg
  sc_close_port : ℕ → TunnelMsg
  sc_shutdown_write : ℕ → TunnelMsg
  sc_connect_ok : ℕ → Bytes → TunnelMsg
  sc_data : ℕ → Bytes → TunnelMsg
  tunnel_port_half_drop : ℕ → TunnelMsg
  heartbeat : TunnelMsg
  close_tunnel : TunnelMsg

pub data TunnelPortMsg : Type 0 where
  connect_dn : Bytes → ℕ → TunnelPortMsg
  data_msg : ℕ → Bytes → TunnelPortMsg
  shutdown_write : TunnelPortMsg
  close_port : TunnelPortMsg
