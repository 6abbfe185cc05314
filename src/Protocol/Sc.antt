-- ===== src/Protocol/Sc.antt =====
-- src/lib.rs, `protocol::sc`: the operations of the messages from a server to a client.
use stunnel.Base.{ℕ}

abbrev pub close_port : ℕ
close_port = 1

abbrev pub shutdown_write : ℕ
shutdown_write = 3

abbrev pub connect_ok : ℕ
connect_ok = 4

abbrev pub data_msg : ℕ
data_msg = 5

abbrev pub heartbeat_rsp : ℕ
heartbeat_rsp = 6
