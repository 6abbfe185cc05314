-- ===== src/Tests/Proxies.antt =====
-- src/proxy, src/server.rs: the theorems on proxies and on the tasks of a port, applied to data.
use stunnel.Base.{
  suc, ◌≤◌, ◌≡◌, refl, true, false, Option, none, some, List, [], ◌∷◌, ◌++◌, map, Bytes, get, v4,
  arith,
}
use mathlib.Core.Logic.{◌↔◌}
use stunnel.Tunnel.{panicked}
use stunnel.Tunnel.Acts.{sent, written}
use stunnel.Tunnel.Halves.{Merge, done, left, right, other}
use stunnel.Proxy.{Destination, address, Conn, proxy_tunnel_read}
use stunnel.Proxy.Socks5.{method_no_auth, ver, handshake, destination_result, contains}
use stunnel.Proxy.Socks5.Requests.{greeting, request, understood, handshake-request}
use stunnel.Proxy.Socks5.Errors.{Ends, handshake-Ends}
use stunnel.Proxy.Socks5.Replies.{reply_addr, carried, reply_addr-destination_result}
use stunnel.Proxy.Relay.{contents, relayed, last_acts, each_written}
use stunnel.Proxy.Relay.Path.{tunnel_port_read-proxy_tunnel_read}
use stunnel.Client.WritePort as ClientPort
use stunnel.Server as Server
use stunnel.Server.Ports as Ports
use stunnel.Server.Reads.{read_turn, ends}
use stunnel.Server.Reads.Panics.{IsShortDomain, read_turn_panics}
use stunnel.Server.Writes.{Surroundings, Writer, write_loop, write_turn, process_tunnel_msg}
use stunnel.Server.Writes.Halves.{NotOpening}
use stunnel.Server.WritePort as WritePort
use stunnel.Server.ReadPort as ReadPort
use stunnel.Server.Task.{tunnel_port_read, tunnel_port_write, rx_loop, give_up}
use stunnel.Server.Task.Ending.{write_loop-gone}
use stunnel.Tests.Tunnels.{flipping}
use stunnel.Tunnel.ToServer.{all_to_server, to_server}

-- 127.0.0.1:80, by a client that knows two methods.
abbrev local_web : Destination
local_web = address (v4 2130706433 80)

abbrev methods : Bytes
methods = 2 ∷ 0 ∷ []

knows : contains method_no_auth methods ≡ true
unfolding contains
knows = refl

handshake-request_example :
    handshake (record {
      unread = greeting methods ++ (request local_web ++ (9 ∷ []));
      replies = [];
      takes = suc 4;
    })
    ≡ (
      some (understood local_web),
      record { unread = 9 ∷ []; replies = (ver ∷ method_no_auth ∷ []) ∷ []; takes = 4 },
    )
handshake-request_example =
    handshake-request methods local_web (9 ∷ []) 4 knows (omega arith, omega arith)

-- A greeting that is cut off.
abbrev cut_off : Conn
cut_off = record { unread = 5 ∷ 3 ∷ 0 ∷ []; replies = []; takes = 1 }

handshake-Ends_example : Ends (handshake cut_off).0 cut_off (handshake cut_off).1
handshake-Ends_example = handshake-Ends cut_off

reply_addr-destination_result_example :
    let (answered, conn') = destination_result (v4 2130706433 4000) 0 cut_off in
    (answered ≡ some tt)
    × ((reply : Bytes) × (conn'.replies ≡ [] ++ reply ∷ [])
        × (reply_addr reply ≡ some (0, carried (v4 2130706433 4000))))
reply_addr-destination_result_example =
    reply_addr-destination_result cut_off (v4 2130706433 4000) 0 (omega arith)
      (omega arith, omega arith)

-- A message with one byte where a port should be.
abbrev short_domain : Bytes
short_domain = 6 ∷ 0 ∷ 0 ∷ 0 ∷ 1 ∷ 0 ∷ 0 ∷ 0 ∷ 1 ∷ 99 ∷ []

read_turn_panics_example :
    (read_turn flipping 0 short_domain ≡ some (ends panicked)) ↔ IsShortDomain short_domain
read_turn_panics_example = read_turn_panics flipping 0 short_domain

-- The server's hub with port 1 on channel 55.
abbrev calm : Surroundings
calm = record { now = 7; broken = false; closed = λ _. false; new_channel = 77 }

abbrev port_one : Ports.Port
port_one = record { count = 2; tx = 55 }

abbrev busy : Writer flipping
busy = record {
  senders = record { senders = 20 ∷ []; turn = 0 };
  alive_time = 0;
  port_hub = record { ports = (1, port_one) ∷ []; delivered = [] };
  encryptor = 0;
  written = [];
  spawned = [];
}

port_one_known : get 1 busy.port_hub.ports ≡ some port_one
unfolding get
port_one_known = refl

abbrev two_reads : List (Option Bytes)
two_reads = some (7 ∷ 8 ∷ []) ∷ some [] ∷ []

abbrev carried_over : List (Surroundings × Server.TunnelMsg)
carried_over = (calm, Server.cs_data 7 1 (7 ∷ 8 ∷ [])) ∷ (calm, Server.cs_shutdown_write 1) ∷ []

carried_over_is :
    map (λ m. m.1) carried_over
    ≡ all_to_server (sent (proxy_tunnel_read (record { id = 1; tx = 20 }) two_reads))
unfolding all_to_server to_server sent proxy_tunnel_read ClientPort.write ClientPort.shutdown_write
    ClientPort.drop
carried_over_is = refl

abbrev read_end : ReadPort.TunnelReadPort
read_end = record { id = 1; tx = 20; rx = none }

tunnel_port_read-proxy_tunnel_read_example :
    ((write_loop flipping busy carried_over).1.port_hub.delivered
      ≡ [] ++ map (λ m. (55, m)) (relayed two_reads))
    × (tunnel_port_read (record read_end { rx = some (relayed two_reads) }) 2
        ≡ each_written two_reads ++ last_acts read_end two_reads)
    × (written (tunnel_port_read (record read_end { rx = some (relayed two_reads) }) 2)
        ≡ contents two_reads)
tunnel_port_read-proxy_tunnel_read_example =
    tunnel_port_read-proxy_tunnel_read flipping busy 1 20 port_one read_end two_reads 2 carried_over
      port_one_known (refl, (refl, tt)) carried_over_is (omega arith)

-- Both ends of port 1 come to their end, the messages in turn and among one of port 2.
abbrev write_end : WritePort.TunnelWritePort
write_end = record { id = 1; tx = 20 }

abbrev both_ends : List (Surroundings × Server.TunnelMsg)
both_ends =
    (calm, Server.sc_shutdown_write 1)
    ∷ (calm, Server.tunnel_port_half_drop 1)
    ∷ (calm, Server.cs_close_port 2)
    ∷ (calm, Server.sc_close_port 1)
    ∷ []

both_ends_are :
    Merge
      (NotOpening 1)
      (sent (tunnel_port_write write_end (some [] ∷ [])))
      (sent (tunnel_port_read read_end 0))
      (map (λ m. m.1) both_ends)
unfolding sent tunnel_port_write tunnel_port_read rx_loop give_up WritePort.shutdown_write
    WritePort.drop ReadPort.close ReadPort.drain
both_ends_are = left (Server.sc_shutdown_write 1) (
    left (Server.tunnel_port_half_drop 1)
      (other (Server.cs_close_port 2) tt (right (Server.sc_close_port 1) done)))

both_ends_taken : (write_loop flipping busy both_ends).0 ≡ map (λ m. m.1) both_ends
unfolding write_loop write_turn process_tunnel_msg
both_ends_taken = refl

port_one_halves :
    (v : Ports.Port) → get 1 busy.port_hub.ports ≡ some v → (1 ≤ v.count) × (v.count ≤ 2)
unfolding get
port_one_halves v e = ground arith

write_loop-gone_example : get 1 (write_loop flipping busy both_ends).1.port_hub.ports ≡ none
write_loop-gone_example =
    write_loop-gone flipping busy write_end read_end (some [] ∷ []) 0 both_ends refl port_one_halves
      refl both_ends_are both_ends_taken
