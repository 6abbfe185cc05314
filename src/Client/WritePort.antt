-- ===== src/Client/WritePort.antt =====
-- src/client.rs: `TunnelWritePort`, the end of a port that sends to the tunnel.
use stunnel.Base.{ℕ, Bytes}
use stunnel.Tunnel.Acts.{Act, sends}
use stunnel.Client.{
  TunnelMsg, cs_close_port, cs_shutdown_write, cs_connect, cs_connect_dn, cs_data,
  tunnel_port_half_drop,
}

-- `tx` names the channel to the tunnel's task, which takes what is sent.
pub record TunnelWritePort : Type 0 where
  pub id : ℕ
  pub tx : ℕ

unfoldable pub write : TunnelWritePort → Bytes → Act TunnelMsg
write p buf = sends (cs_data p.id buf)

unfoldable pub connect : TunnelWritePort → Bytes → Act TunnelMsg
connect p buf = sends (cs_connect p.id buf)

unfoldable pub connect_domain_name : TunnelWritePort → Bytes → ℕ → Act TunnelMsg
connect_domain_name p buf port = sends (cs_connect_dn p.id buf port)

unfoldable pub shutdown_write : TunnelWritePort → Act TunnelMsg
shutdown_write p = sends (cs_shutdown_write p.id)

unfoldable pub close : TunnelWritePort → Act TunnelMsg
close p = sends (cs_close_port p.id)

unfoldable pub drop : TunnelWritePort → Act TunnelMsg
drop p = sends (tunnel_port_half_drop p.id)
