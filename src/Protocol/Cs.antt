-- ===== src/Protocol/Cs.antt =====
-- src/lib.rs, `protocol::cs`: the operations of the messages from a client to a server.
use stunnel.Base.{ℕ}

abbrev pub open_port : ℕ
open_port = 1

abbrev pub close_port : ℕ
close_port = 2

abbrev pub shutdown_write : ℕ
shutdown_write = 4

abbrev pub connect : ℕ
connect = 5

abbrev pub connect_domain_name : ℕ
connect_domain_name = 6

abbrev pub data_msg : ℕ
data_msg = 7

abbrev pub heartbeat : ℕ
heartbeat = 8
