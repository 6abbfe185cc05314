-- ===== src/Client/ReadPort.antt =====
-- src/client.rs: `TunnelReadPort`, the end of a port that receives from the tunnel.
use stunnel.Base.{ℕ, Option, none, some, List, [], ◌∷◌}
use stunnel.Tunnel.Acts.{Act, sends}
use stunnel.Client.{TunnelMsg, cs_close_port, tunnel_port_half_drop, TunnelPortMsg, close_port}

-- `rx` holds the messages that come until the port's channel has no sender any more.
pub record TunnelReadPort : Type 0 where
  pub id : ℕ
  pub tx : ℕ
  pub rx : Option (List TunnelPortMsg)

unfoldable pub drain : TunnelReadPort → TunnelReadPort
drain p = record p { rx = none }

next_msg : TunnelReadPort → Option (List TunnelPortMsg) → TunnelPortMsg × TunnelReadPort
next_msg p none = (close_port, p)
next_msg p (some []) = (close_port, p)
next_msg p (some (msg ∷ msgs)) = (msg, record p { rx = some msgs })

unfoldable pub read : TunnelReadPort → TunnelPortMsg × TunnelReadPort
unfolding next_msg
read p = next_msg p p.rx

unfoldable pub close : TunnelReadPort → Act TunnelMsg
close p = sends (cs_close_port p.id)

unfoldable pub drop : TunnelReadPort → Act TunnelMsg
drop p = sends (tunnel_port_half_drop p.id)
