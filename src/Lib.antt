-- ===== src/Lib.antt =====
-- A verification of stunnel, a tunnel that carries TCP connections between a client and a server over
-- one encrypted stream, TCP or UCP. UCP is the program's own reliable stream over UDP.
--
-- The program's parts, the files that model them, and how they interact:
--   * src/ucp/mod.rs, src/ucp/packet.rs: Ucp.antt has the constants, Ucp/Packet.antt the datagram `UcpPacket`
--     with each of its methods under the method's name. Ucp/Packet/* are about `pack` and `parse`
--     (Wire, RoundTrip, Accepts, Arrival) and the payload (Payload).
--   * src/ucp/internal.rs: Ucp/State.antt and Ucp/Stream.antt have `UcpState` and `InnerStream`, whose
--     fields keep their names. The operations stand in the children: Recv (process_data, recv), Send
--     (send, make_packet_send), Ack (process_una, process_ack, send_ack_list), Output (do_heartbeat,
--     timeout_resend, send_pending_packets, output), Machine (connecting, input, processing,
--     poll_read, poll_write). The socket and the wakers are traces: the record lists the datagrams
--     sent and the wakers called. Each operation holds the stream's lock from its first to its last
--     step, so it is a function from state to state; the clock is an argument, in nanoseconds, read
--     once for each operation. An `Option` is `none` where the source panics.
--   * src/ucp/stream.rs: Ucp/Tasks.antt has `UcpStream` with its tasks `send` and `recv`, what its owner
--     does and the datagrams of a listener, as steps: what happens under the lock, or one test of `alive`.
--     Ucp/Session/* join a client's stream and a server's in the handshake, by the datagrams that each sends.
--   * src/ucp/listener.rs: Ucp/Listener.antt has `UcpListener`. A stream is a number, as its `Arc` is
--     shared by two maps; Ucp/Listener/Addresses.antt has the maps.
--   * src/lib.rs: Protocol.antt has the messages of the tunnel as bytes, Util.antt the senders in turn
--     and Util/Bus.antt `channel_bus`.
--   * src/cryptor.rs: Cryptor.antt has the loops over the buffers of the crate crypto. Tunnel.antt has the
--     cryptor as an interface, `Cipher`, with the laws of a stream cipher; Cryptor/Stream.antt fills it.
--   * src/client.rs, src/server.rs: Client.antt and Server.antt with the children Ports (PortHub), Reads
--     (process_tunnel_read), Writes (process_tunnel_write, process_tunnel_msg), WritePort and ReadPort (the
--     ends of a port); Client/Task.antt has the connections of a tunnel, Server/Core.antt the task of one, and
--     Server/Task.antt the task of a port. A channel is a number; a hub lists what was put into the channels.
--     Tunnel/ToServer.antt and Tunnel/ToClient.antt join the two ends of a tunnel. Tunnel/Acts.antt
--     and Tunnel/Halves.antt are about a port: what its tasks do in order, and which halves it has.
--   * src/proxy: Proxy.antt has the task that joins a proxy with a port, Proxy/Socks5.antt and
--     Proxy/Http.antt the two proxies. Proxy/Relay.antt joins a proxy with the server's task of a port.
--   * src/timer.rs, src/logger.rs, src/bin/stunnel_client.rs: Timer.antt, Logger.antt, Programs/Client.antt.
--   * Base.antt passes on the library's names and the shared helpers: tests on numbers, lists measured
--     by native numbers, machine words, addresses and instants, maps. Tests.antt has runs on data.
--
-- Numbers: u32 arithmetic wraps as in a release build, and so does usize, of 64 bits. A debug build
-- panics where it wraps.
--
-- Fuel: `make_packets` has the number of bytes, each round of it takes one at least; `recv_loop` has
-- the number of packets, each round of it removes one or fills the buffer; `process_acks` has the
-- number of bytes left to read, each round of it reads eight; the loops that read a tunnel have one
-- more than the bytes that come, each turn of them reads one; `crypt_loop` has one more than the bytes, each
-- round of it takes one or is the last; `digits` of a log file's number has one more than the number.
--
-- Parameters: the checksum of the crate crc, the random session id, the counter mode of the crate crypto,
-- the counter that it starts with, which channels have lost their receiver, whether a stream takes
-- what is written, the test of UTF-8, what a connection to an address or a host gives, how an
-- address is printed, and what the crate async_h1 makes of a request.
--
-- Not modelled: the format of the log's records, the sockets, sleeps and merges of async-std, the backoff of
-- the lock, the getters of the metrics with the status page, and the start of the server's program.
pub mod Base
pub mod Ucp
pub mod Protocol
pub mod Util
pub mod Tunnel
pub mod Client
pub mod Server
pub mod Cryptor
pub mod Proxy
pub mod Timer
pub mod Logger
pub mod Programs
pub mod Tests
