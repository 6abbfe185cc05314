-- ===== src/Server/Reads.antt =====
-- src/server.rs: `process_tunnel_read`, what the server reads from its client. The bytes are all those that
-- come until the stream ends; the messages are those put into the main channel.

pub mod Fuel
pub mod Front
pub mod Panics
use stunnel.Base.{
  ℕ, zero, suc, ◌>>=◌, Bool, true, false, ◌&&◌, Option, none, some, List, [], ◌∷◌, Bytes, length,
  take, drop, ltb, ◌==◌, if◌then◌else◌, sub_u32, from_be,
}
use stunnel.Tunnel.{Cipher, read_exact, Outcome, ended, refused, panicked}
use stunnel.Server.{
  TunnelMsg, cs_heartbeat, cs_open_port, cs_close_port, cs_shutdown_write, cs_connect_dn, cs_data,
}
use stunnel.Protocol.{verify_data}
use stunnel.Protocol.Cs

-- `data == VERIFY_DATA`
unfoldable pub eq_bytes : Bytes → Bytes → Bool
eq_bytes [] [] = true
eq_bytes (a ∷ xs) (b ∷ ys) = a == b && eq_bytes xs ys
eq_bytes _ _ = false

module _ (c : Cipher) where
  -- A turn of the loop: a message, with the cryptor and the bytes left, or the end.
  pub data Turn : Type 0 where
    got : TunnelMsg → c.Cryptor → Bytes → Turn
    ends : Outcome → Turn

  -- The slice `buf[0..pos]` panics where `pos` is past the end.
  unfoldable pub split_domain : ℕ → ℕ → Bytes → c.Cryptor → Bytes → Turn
  split_domain id len buf k bs =
      let pos = sub_u32 len 2 in
      let (domain_name, k') = c.decrypt k (take pos buf) in
      if ltb (length buf) pos
      then ends panicked
      else got (cs_connect_dn id domain_name (from_be (take 2 (drop pos buf)))) k' bs

  unfoldable pub read_domain : ℕ → c.Cryptor → Bytes → Option Turn
  read_domain id k bs = do
    (len, bs1) ← read_exact 4 bs
    (buf, bs2) ← read_exact (from_be len) bs1
    some (split_domain id (from_be len) buf k bs2)

  unfoldable pub read_data : ℕ → ℕ → c.Cryptor → Bytes → Option Turn
  read_data op id k bs = do
    (len, bs1) ← read_exact 4 bs
    (buf, bs2) ← read_exact (from_be len) bs1
    let (data_bytes, k') = c.decrypt k buf
    some (got (cs_data op id data_bytes) k' bs2)

  -- What follows the operation and the id.
  unfoldable pub read_rest : ℕ → ℕ → c.Cryptor → Bytes → Option Turn
  read_rest op id k bs1 =
      if op == Cs.open_port
      then some (got (cs_open_port id) k bs1)
      else if op == Cs.close_port
      then some (got (cs_close_port id) k bs1)
      else if op == Cs.shutdown_write
      then some (got (cs_shutdown_write id) k bs1)
      else if op == Cs.connect_domain_name
      then read_domain id k bs1
      else read_data op id k bs1

  unfoldable pub read_op : ℕ → c.Cryptor → Bytes → Option Turn
  read_op op k bs = do (id_bytes, bs1) ← read_exact 4 bs; read_rest op (from_be id_bytes) k bs1

  unfoldable pub read_turn : c.Cryptor → Bytes → Option Turn
  read_turn k bs = do
    (op, bs1) ← read_exact 1 bs
    if from_be op == Cs.heartbeat then some (got cs_heartbeat k bs1) else read_op (from_be op) k bs1

  -- The loop, with fuel.
  unfoldable pub read_loop : ℕ → c.Cryptor → Bytes → List TunnelMsg × Outcome
  read_loop zero k bs = ([], ended)
  read_loop (suc fuel) k bs = elim (read_turn k bs) [
    | some (got msg k' bs') ↦ let (msgs, outcome) = read_loop fuel k' bs' in (msg ∷ msgs, outcome)
    | some (ends outcome) ↦ ([], outcome)
    | none ↦ ([], ended)
  ]

  abbrev pub ctr_size : ℕ
  ctr_size = 8

  -- What follows the counter: the check of the key, and the loop, in which each turn reads a byte at
  -- least.
  unfoldable pub verify_client : c.Cryptor → Bytes → List TunnelMsg × Outcome
  verify_client k bs = elim (read_exact (length verify_data) bs) [
    | some (buf, bs1) ↦
        let (data_bytes, k') = c.decrypt k buf in
        if eq_bytes data_bytes verify_data
        then read_loop (suc (length bs1)) k' bs1
        else ([], refused)
    | none ↦ ([], ended)
  ]

  unfoldable pub process_tunnel_read : Bytes → Bytes → List TunnelMsg × Outcome
  process_tunnel_read key bs = elim (read_exact ctr_size bs) [
    | some (ctr, bs1) ↦ verify_client (c.with_ctr key ctr) bs1
    | none ↦ ([], ended)
  ]
