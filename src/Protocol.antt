-- ===== src/Protocol.antt =====
-- src/lib.rs, `protocol`: the messages of the tunnel as bytes.
pub mod Cs
pub mod Sc
pub mod Layout
use stunnel.Base.{
  ℕ, ◌+◌, ◌-◌, ◌%◌, ◌^◌, List, [], ◌∷◌, Bytes, length, replicate, splice, add_u32, be_u32, be_u16,
}
use stunnel.Protocol.Cs
use stunnel.Protocol.Sc

abbrev pub verify_data : Bytes
verify_data = 240 ∷ 239 ∷ 14 ∷ 2 ∷ 174 ∷ 188 ∷ 140 ∷ 120 ∷ []

abbrev pub heartbeat_interval_ms : ℕ
heartbeat_interval_ms = 5000

abbrev pub alive_timeout_time_ms : ℕ
alive_timeout_time_ms = 60000

unfoldable pub write_cmd_id_len : Bytes → ℕ → ℕ → ℕ → Bytes
write_cmd_id_len buf cmd id len =
    splice 5 (be_u32 len) (splice 1 (be_u32 id) (splice 0 (cmd ∷ []) buf))

unfoldable pub pack_cmd_id_msg : ℕ → ℕ → Bytes
pack_cmd_id_msg cmd id = splice 1 (be_u32 id) (splice 0 (cmd ∷ []) (replicate 5 0))

unfoldable pub pack_cmd_id_data_msg : ℕ → ℕ → Bytes → Bytes
pack_cmd_id_data_msg cmd id bs =
    let buf = replicate (9 + length bs) 0 in
    let len = length bs % 2 ^ 32 in splice 9 bs (write_cmd_id_len buf cmd id len)

unfoldable pub pack_cs_open_port_msg : ℕ → Bytes
pack_cs_open_port_msg id = pack_cmd_id_msg Cs.open_port id

unfoldable pub pack_cs_connect_msg : ℕ → Bytes → Bytes
pack_cs_connect_msg id bs = pack_cmd_id_data_msg Cs.connect id bs

unfoldable pub pack_cs_connect_domain_msg : ℕ → Bytes → ℕ → Bytes
pack_cs_connect_domain_msg id domain port =
    let buf_len = 11 + length domain in
    let buf = replicate buf_len 0 in
    let len = add_u32 (length domain % 2 ^ 32) 2 in
    let buf' = splice 9 domain (write_cmd_id_len buf Cs.connect_domain_name id len) in
    splice (buf_len - 2) (be_u16 port) buf'

unfoldable pub pack_cs_shutdown_write_msg : ℕ → Bytes
pack_cs_shutdown_write_msg id = pack_cmd_id_msg Cs.shutdown_write id

unfoldable pub pack_cs_data_msg : ℕ → Bytes → Bytes
pack_cs_data_msg id bs = pack_cmd_id_data_msg Cs.data_msg id bs

unfoldable pub pack_cs_close_port_msg : ℕ → Bytes
pack_cs_close_port_msg id = pack_cmd_id_msg Cs.close_port id

unfoldable pub pack_cs_heartbeat_msg : Bytes
pack_cs_heartbeat_msg = Cs.heartbeat ∷ []

unfoldable pub pack_sc_close_port_msg : ℕ → Bytes
pack_sc_close_port_msg id = pack_cmd_id_msg Sc.close_port id

unfoldable pub pack_sc_shutdown_write_msg : ℕ → Bytes
pack_sc_shutdown_write_msg id = pack_cmd_id_msg Sc.shutdown_write id

unfoldable pub pack_sc_connect_ok_msg : ℕ → Bytes → Bytes
pack_sc_connect_ok_msg id bs = pack_cmd_id_data_msg Sc.connect_ok id bs

unfoldable pub pack_sc_data_msg : ℕ → Bytes → Bytes
pack_sc_data_msg id bs = pack_cmd_id_data_msg Sc.data_msg id bs

unfoldable pub pack_sc_heartbeat_rsp_msg : Bytes
pack_sc_heartbeat_rsp_msg = Sc.heartbeat_rsp ∷ []
