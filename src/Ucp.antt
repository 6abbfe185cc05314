-- ===== src/Ucp.antt =====
-- src/ucp/mod.rs: the constants of the UCP protocol, an ARQ protocol over UDP, and its modules.
pub mod State
pub mod Packet
pub mod Stream
pub mod Listener
pub mod Session
pub mod Tasks
use stunnel.Base.{ℕ}

abbrev pub cmd_syn : ℕ
cmd_syn = 128

abbrev pub cmd_syn_ack : ℕ
cmd_syn_ack = 129

abbrev pub cmd_ack : ℕ
cmd_ack = 130

abbrev pub cmd_data : ℕ
cmd_data = 131

abbrev pub cmd_heartbeat : ℕ
cmd_heartbeat = 132

abbrev pub cmd_heartbeat_ack : ℕ
cmd_heartbeat_ack = 133

abbrev pub ucp_packet_meta_size : ℕ
ucp_packet_meta_size = 29

abbrev pub default_window : ℕ
default_window = 512

abbrev pub default_rto : ℕ
default_rto = 100

abbrev pub heartbeat_interval_millis : ℕ
heartbeat_interval_millis = 2500

abbrev pub ucp_stream_broken_millis : ℕ
ucp_stream_broken_millis = 20000

abbrev pub skip_resend_times : ℕ
skip_resend_times = 2
