-- ===== src/Client/Reads.antt =====
-- src/client.rs: `process_tunnel_read`, what the client reads from its server. The bytes are all those that
-- come until the stream ends; the messages are those put into the core channel.
pub mod Fuel
use stunnel.Base.{
  ℕ, zero, suc, ◌>>=◌, ◌||◌, Option, none, some, List, [], ◌∷◌, Bytes, length, ◌==◌, if◌then◌else◌,
  from_be,
}
use stunnel.Tunnel.{Cipher, read_exact, Outcome, ended, stopped}
use stunnel.Client.{
  TunnelMsg, sc_heartbeat, sc_close_port, sc_shutdown_write, sc_connect_ok, sc_data,
}
use stunnel.Protocol.Sc

module _ (c : Cipher) where
  -- A turn of the loop: a message, with the cryptor and the bytes left, or the end.
  pub data Turn : Type 0 where
    got : TunnelMsg → c.Cryptor → Bytes → Turn
    ends : Outcome → Turn

  unfoldable pub read_data : ℕ → ℕ → c.Cryptor → Bytes → Option Turn
  read_data op id k bs = do
    (len, bs1) ← read_exact 4 bs
    (buf, bs2) ← read_exact (from_be len) bs1
    let (data_bytes, k') = c.decrypt k buf
    some (
        got (if op == Sc.connect_ok then sc_connect_ok id data_bytes else sc_data id data_bytes) k'
          bs2)

  -- What follows the operation and the id.
  unfoldable pub read_rest : ℕ → ℕ → c.Cryptor → Bytes → Option Turn
  read_rest op id k bs1 =
      if op == Sc.close_port
      then some (got (sc_close_port id) k bs1)
      else if op == Sc.shutdown_write
      then some (got (sc_shutdown_write id) k bs1)
      else if op == Sc.connect_ok || op == Sc.data_msg
      then read_data op id k bs1
      else some (ends stopped)

  unfoldable pub read_op : ℕ → c.Cryptor → Bytes → Option Turn
  read_op op k bs = do (id_bytes, bs1) ← read_exact 4 bs; read_rest op (from_be id_bytes) k bs1

  unfoldable pub read_turn : c.Cryptor → Bytes → Option Turn
  read_turn k bs = do
    (op, bs1) ← read_exact 1 bs
    if from_be op == Sc.heartbeat_rsp
        then some (got sc_heartbeat k bs1)
        else read_op (from_be op) k bs1

  -- The loop, with fuel.
  unfoldable pub read_loop : ℕ → c.Cryptor → Bytes → List TunnelMsg × Outcome
  read_loop zero k bs = ([], ended)
  read_loop (suc fuel) k bs = elim (read_turn k bs) [
    | some (got msg k' bs') ↦ let (msgs, outcome) = read_loop fuel k' bs' in (msg ∷ msgs, outcome)
    | some (ends outcome) ↦ ([], outcome)
    | none ↦ ([], ended)
  ]

  abbrev pub ctr_size : ℕ
  ctr_size = 8

  -- Each turn reads a byte at least.
  unfoldable pub process_tunnel_read : Bytes → Bytes → List TunnelMsg × Outcome
  process_tunnel_read key bs = elim (read_exact ctr_size bs) [
    | some (ctr, bs1) ↦ read_loop (suc (length bs1)) (c.with_ctr key ctr) bs1
    | none ↦ ([], ended)
  ]
