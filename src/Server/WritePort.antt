-- ===== src/Server/WritePort.antt =====
-- src/server.rs: `TunnelWritePort`, the end of a port that sends to the tunnel.
use stunnel.Base.{ℕ, Bytes}
use stunnel.Tunnel.Acts.{Act, sends}
use stunnel.Server.{
  TunnelMsg, sc_close_port, sc_shutdown_write, sc_connect_ok, sc_data, tunnel_port_half_drop,
}

-- `tx` names the channel to the tunnel's task, which takes what is sent.
pub record TunnelWritePort : Type 0 where
  pub id : ℕ
  pub tx : ℕ

unfoldable pub connect_ok : TunnelWritePort → Bytes → Act TunnelMsg
connect_ok p buf = sends (sc_connect_ok p.id buf)

unfoldable pub write : TunnelWritePort → Bytes → Act TunnelMsg
write p buf = sends (sc_data p.id buf)

unfoldable pub shutdown_write : TunnelWritePort → Act TunnelMsg
shutdown_write p = sends (sc_shutdown_write p.id)

unfoldable pub close : TunnelWritePort → Act TunnelMsg
close p = sends (sc_close_port p.id)

unfoldable pub drop : TunnelWritePort → Act TunnelMsg
drop p = sends (tunnel_port_half_drop p.id)
