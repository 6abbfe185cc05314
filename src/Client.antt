-- ===== src/Client.antt =====
-- src/client.rs: the client's end of a tunnel. A channel's `Sender` is a number that names the channel.
pub mod Ports
pub mod Reads
pub mod Writes
pub mod Task
pub mod WritePort
pub mod ReadPort
use stunnel.Base.{ℕ, ◌>>=◌, Option, none, some, List, [], ◌∷◌, ◌++◌, Bytes, add_u32}
use stunnel.Util.{SubSenders, get_one_sender}

pub data TunnelMsg : Type 0 where
  cs_open_port : ℕ → ℕ → TunnelMsg
  cs_connect : ℕ → Bytes → TunnelMsg
  cs_connect_dn : ℕ → Bytes → ℕ → TunnelMsg
  cs_shutdown_write : ℕ → TunnelMsg
  cs_close_port : ℕ → TunnelMsg
  cs_data : ℕ → Bytes → TunnelMsg
  sc_heartbeat : TunnelMsg
  sc_close_port : ℕ → TunnelMsg
  sc_shutdown_write : ℕ → TunnelMsg
  sc_connect_ok : ℕ → Bytes → TunnelMsg
  sc_data : ℕ → Bytes → TunnelMsg
  heartbeat : TunnelMsg
  tunnel_port_half_drop : ℕ → TunnelMsg

pub data TunnelPortMsg : Type 0 where
  connect_ok : Bytes → TunnelPortMsg
  data_msg : Bytes → TunnelPortMsg
  shutdown_write : TunnelPortMsg
  close_port : TunnelPortMsg

-- `Tunnel`: the next port's id, and the senders to the task of the tunnel. `opened` lists what was put
-- into the main channel so far.
pub record Tunnel : Type 0 where
  pub id : ℕ
  pub senders : SubSenders ℕ
  pub opened : List TunnelMsg

-- The two halves of a port: its id, and the sender that both use.
pub record TunnelPort : Type 0 where
  pub port_id : ℕ
  pub tx : ℕ

-- `tx` is the new channel; `none` is the panic where there is no sender.
unfoldable pub open_port : Tunnel → ℕ → Option (TunnelPort × Tunnel)
open_port t tx = do
  (sender, senders') ← get_one_sender t.senders
  some (
    record { port_id = t.id; tx = sender },
    record t {
      id = add_u32 t.id 1;
      senders = senders';
      opened = t.opened ++ cs_open_port t.id tx ∷ [];
    },
  )
