-- ===== src/Tests/Tunnels.antt =====
-- src/lib.rs, src/client.rs and src/server.rs: the theorems on tunnels, applied to a cipher that flips the bits of
-- each byte and counts them.
use stunnel.Base.{
  ℕ, ◌+◌, ◌-◌, ◌≡◌, refl, ◌≢◌, Bool, true, false, none, some, List, [], ◌∷◌, map, Bytes, All,
  length, leb, if◌then◌else◌, get, replicate, be_u32, arith,
}
use mathlib.Core.Path.{ap₂}
use stunnel.Protocol.{pack_cs_open_port_msg, pack_cmd_id_msg}
use stunnel.Util.{SubSenders, get_senders, round_robin}
use stunnel.Tunnel.{Cipher, IsStreamCipher}
use stunnel.Tunnel.ToServer as ToServer
use stunnel.Tunnel.ToServer.Loop as ToServerLoop
use stunnel.Tunnel.ToServer.Reconnects as Reconnects
use stunnel.Client.Task.{refused, heard, core_loop}
use stunnel.Tunnel.ToClient as ToClient
use stunnel.Tunnel.ToClient.Loop as ToClientLoop
use stunnel.Client as Client
use stunnel.Client.Ports as ClientPorts
use stunnel.Client.Ports.Halves.{drop_port_half-add_port}
use stunnel.Client.Reads as ClientReads
use stunnel.Client.Writes as ClientWrites
use stunnel.Client.Writes.Hub.{Affects, port_of, process_tunnel_msg-Affects}
use stunnel.Client.Reads.Fuel.{client_read_loop_fuel}
use stunnel.Server.Reads.Fuel.{read_loop_fuel}
use stunnel.Server as Server
use stunnel.Server.Ports as ServerPorts
use stunnel.Server.Reads as ServerReads
use stunnel.Server.Writes as ServerWrites

abbrev pub flip : ℕ → ℕ
flip b = if leb b 255 then 255 - b else b

flip-flip : (b : ℕ) → flip (flip b) ≡ b
flip-flip b = ground arith

abbrev pub flip_all : ℕ → Bytes → Bytes × ℕ
flip_all k bs = (map flip bs, k + length bs)

length-flip : (bs : Bytes) → length (map flip bs) ≡ length bs
length-flip [] = refl
length-flip (b ∷ bs) = omega (arith, length-flip bs)

map-flip : (bs : Bytes) → map flip (map flip bs) ≡ bs
map-flip [] = refl
map-flip (b ∷ bs) = ap₂ ◌∷◌ (flip-flip b) (map-flip bs)

abbrev pub flipping : Cipher
flipping = record { Cryptor = ℕ; with_ctr = λ key ctr. 0; encrypt = flip_all; decrypt = flip_all }

flipping-IsStreamCipher : IsStreamCipher flipping
flipping-IsStreamCipher = record {
  length-encrypt = λ k bs. length-flip bs;
  decrypt-encrypt = λ k bs. ap₂ (λ x n. (x, k + n)) (map-flip bs) (length-flip bs);
}

abbrev valid : Bytes → Bool
valid _ = true

abbrev quiet : ClientWrites.Surroundings
quiet = record { now = 7; broken = false; closed = λ _. false }

-- A port is opened, connected to a host of two bytes, written to, and closed.
abbrev session : List (ClientWrites.Surroundings × Client.TunnelMsg)
session =
    (quiet, Client.cs_open_port 1 100)
    ∷ (quiet, Client.cs_connect_dn 1 (97 ∷ 98 ∷ []) 443)
    ∷ (quiet, Client.cs_data 1 (1 ∷ 2 ∷ 3 ∷ []))
    ∷ (quiet, Client.heartbeat)
    ∷ (quiet, Client.cs_close_port 1)
    ∷ []

abbrev ctr : Bytes
ctr = 1 ∷ 2 ∷ 3 ∷ 4 ∷ 5 ∷ 6 ∷ 7 ∷ 8 ∷ []

abbrev calm : ServerWrites.Surroundings
calm = record { now = 7; broken = false; closed = λ _. false; new_channel = 55 }

abbrev answers : List (ServerWrites.Surroundings × Server.TunnelMsg)
answers =
    (calm, Server.cs_open_port 1)
    ∷ (calm, Server.sc_connect_ok 1 (49 ∷ []))
    ∷ (calm, Server.sc_data 1 (3 ∷ 2 ∷ 1 ∷ []))
    ∷ (calm, Server.sc_close_port 1)
    ∷ []

abbrev pool : SubSenders ℕ
pool = record { senders = 20 ∷ 21 ∷ []; turn = 0 }

abbrev writing : ClientWrites.Writer flipping valid
writing = record { alive_time = 0; port_hub = ClientPorts.new 9; encryptor = 0; written = [] }

abbrev opened : ClientWrites.Writer flipping valid
opened = record writing {
  port_hub = ClientPorts.add_port (ClientPorts.new 9) 1 100;
  written = 1 ∷ 0 ∷ 0 ∷ 0 ∷ 1 ∷ [];
}

opens :
    ClientWrites.process_tunnel_msg flipping valid quiet writing (Client.cs_open_port 1 100)
    ≡ some opened
unfolding ClientWrites.process_tunnel_msg pack_cs_open_port_msg pack_cmd_id_msg replicate be_u32
opens = refl

process_tunnel_msg-Affects_example :
    Affects (port_of (Client.cs_open_port 1 100)) writing.port_hub opened.port_hub
process_tunnel_msg-Affects_example =
    process_tunnel_msg-Affects flipping valid quiet writing (Client.cs_open_port 1 100) opened opens

drop_port_half-add_port_example :
    let hub = ClientPorts.new 9 in
    let one = ClientPorts.drop_port_half (ClientPorts.add_port hub 1 100) 1 in
    ((v : ClientPorts.Port) × (get 1 one.ports ≡ some v) × (v.count ≡ 1) × (v.tx ≡ 100))
    × (get 1 (ClientPorts.drop_port_half one 1).ports ≡ none)
    × ((other : ℕ)
        → other ≢ 1
        → get other (ClientPorts.drop_port_half one 1).ports ≡ get other hub.ports)
drop_port_half-add_port_example = drop_port_half-add_port (ClientPorts.new 9) 1 100

round_robin_example :
    get_senders {A = ℕ} 3 (record { senders = 7 ∷ 8 ∷ 9 ∷ []; turn = 0 })
    ≡ some (7 ∷ 8 ∷ 9 ∷ [], record { senders = 7 ∷ 8 ∷ 9 ∷ []; turn = 0 })
round_robin_example = round_robin {A = ℕ} (7 ∷ 8 ∷ 9 ∷ [])

read_loop_fuel_example :
    ServerReads.read_loop flipping 7 0 (8 ∷ 8 ∷ 1 ∷ [])
    ≡ ServerReads.read_loop flipping 4 0 (8 ∷ 8 ∷ 1 ∷ [])
read_loop_fuel_example = read_loop_fuel flipping 4 3 0 (8 ∷ 8 ∷ 1 ∷ []) (omega arith)

client_read_loop_fuel_example :
    ClientReads.read_loop flipping 7 0 (6 ∷ 6 ∷ 1 ∷ [])
    ≡ ClientReads.read_loop flipping 4 0 (6 ∷ 6 ∷ 1 ∷ [])
client_read_loop_fuel_example = client_read_loop_fuel flipping 4 3 0 (6 ∷ 6 ∷ 1 ∷ []) (omega arith)

core_loop-Shared_example :
    let (served, left) =
      core_loop flipping valid 1 [] (refused ∷ heard ctr 0 ∷ heard ctr 9 ∷ []) session in
    Reconnects.Shared flipping valid flipping-IsStreamCipher 1 []
      (map (λ m. m.1) session)
      served
      (map (λ m. m.1) left)
    × All (Reconnects.IsRead flipping valid flipping-IsStreamCipher 1 []) served
core_loop-Shared_example =
    Reconnects.core_loop-Shared flipping valid flipping-IsStreamCipher 1 []
      (refused ∷ heard ctr 0 ∷ heard ctr 9 ∷ []) session (tt, (refl, (refl, tt)))
      (
        omega arith,
        (
          (omega arith, omega arith, omega arith),
          ((omega arith, omega arith), (tt, (omega arith, tt))),
        ),
      )
