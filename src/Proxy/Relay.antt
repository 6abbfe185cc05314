-- ===== src/Proxy/Relay.antt =====
-- src/proxy/mod.rs, src/server.rs: what the end of a port that receives does with what a proxy's client sent.
pub mod Path
use stunnel.Base.{
  ℕ, zero, suc, ◌>>=◌, ◌+◌, ◌≤◌, ◌≡◌, refl, sym, subst, ap, ◌∙◌, inl, inr, Bool, true, false,
  Bool-cases, Option, none, some, List, [], ◌∷◌, ◌++◌, append_assoc, append-nil, map, Bytes, All,
  length, ◌==◌, if◌then◌else◌, get, arith,
}
use stunnel.Tunnel.{Cipher}
use stunnel.Tunnel.Acts.{Shutdown, Act, sends, writes, shuts, drains, sent, written}
use stunnel.Tunnel.ToServer.{to_server, all_to_server}
use stunnel.Client.WritePort as ClientPort
use stunnel.Server as Server
use stunnel.Server.{TunnelPortMsg}
use stunnel.Server.Ports.{
  PortHub, Port, try_send_msg, client_send_data, client_shutdown, client_close_port,
}
use stunnel.Server.Writes.{Surroundings, Writer, process_tunnel_msg, write_turn, write_loop}
use stunnel.Server.ReadPort as ReadPort
use stunnel.Server.Task as Task
use stunnel.Proxy.{proxy_tunnel_read}
use stunnel.Protocol.Cs

-- What the reads give up to the end of the stream or an error.
abbrev pub contents : List (Option Bytes) → Bytes
contents [] = []
contents (none ∷ reads) = []
contents (some buf ∷ reads) = buf ++ (if length buf == 0 then [] else contents reads)

-- The messages that the server's port takes of it.
abbrev pub relayed : List (Option Bytes) → List TunnelPortMsg
relayed [] = []
relayed (none ∷ reads) = []
relayed (some buf ∷ reads) =
    let rest = relayed reads in
    if length buf == 0 then Server.shutdown_write ∷ [] else Server.data_msg Cs.data_msg buf ∷ rest

-- The acts of the end of the port that receives, behind the writes.
abbrev pub last_acts : ReadPort.TunnelReadPort → List (Option Bytes) → Task.Acts
last_acts p [] = shuts Shutdown.both ∷ drains ∷ sends (Server.sc_close_port p.id) ∷ []
last_acts p (none ∷ reads) = shuts Shutdown.both ∷ drains ∷ sends (Server.sc_close_port p.id) ∷ []
last_acts p (some buf ∷ reads) =
    let rest = last_acts p reads in
    if length buf == 0
    then shuts Shutdown.write ∷ drains ∷ sends (Server.tunnel_port_half_drop p.id) ∷ []
    else rest

abbrev pub each_written : List (Option Bytes) → Task.Acts
each_written [] = []
each_written (none ∷ reads) = []
each_written (some buf ∷ reads) =
    let rest = each_written reads in if length buf == 0 then [] else writes buf ∷ rest

empty_lem : (buf : Bytes) → (length buf == 0) ≡ true → buf ≡ []
empty_lem [] h = refl
empty_lem (b ∷ buf) h = absurd (ground arith)

port_read_loop-relayed :
    (p : ReadPort.TunnelReadPort) (reads : List (Option Bytes)) (takes : ℕ)
    → length reads ≤ takes
    → Task.port_read_loop p (relayed reads) takes ≡ each_written reads ++ last_acts p reads
unfolding Task.port_read_loop Task.give_up ReadPort.close ReadPort.drain Task.finish ReadPort.drop
port_read_loop-relayed p [] takes enough = refl
port_read_loop-relayed p (none ∷ reads) takes enough = refl
port_read_loop-relayed p (some buf ∷ reads) zero enough = absurd (omega arith)
port_read_loop-relayed p (some buf ∷ reads) (suc takes) enough =
    elim (Bool-cases (length buf == 0)) [
      | inl empty ↦ rw empty refl
      | inr more ↦
          rw more (ap (◌∷◌ (writes buf)) (port_read_loop-relayed p reads takes (omega arith)))
    ]

-- The server's end of the port writes what the reads gave, each piece in order, and then does as the client's end
-- saw.
pub tunnel_port_read-relayed :
    (p : ReadPort.TunnelReadPort) (reads : List (Option Bytes)) (takes : ℕ)
    → length reads ≤ takes
    → p.rx ≡ some (relayed reads)
    → Task.tunnel_port_read p takes ≡ each_written reads ++ last_acts p reads
unfolding Task.tunnel_port_read Task.rx_loop
tunnel_port_read-relayed p reads takes enough rx =
    ap (λ r. Task.rx_loop p r takes) rx ∙ port_read_loop-relayed p reads takes enough

written-append :
    (acts : Task.Acts) (more : Task.Acts) → written (acts ++ more) ≡ written acts ++ written more
unfolding written
written-append [] more = refl
written-append (sends m ∷ acts) more = written-append acts more
written-append (writes bs ∷ acts) more =
    rw (written-append acts more) (sym (append_assoc bs (written acts) (written more)))
written-append (shuts how ∷ acts) more = written-append acts more
written-append (drains ∷ acts) more = written-append acts more

pub written_contents :
    (p : ReadPort.TunnelReadPort) (reads : List (Option Bytes))
    → written (each_written reads ++ last_acts p reads) ≡ contents reads
unfolding written Task.give_up Task.finish ReadPort.close ReadPort.drop
written_contents p [] = refl
written_contents p (none ∷ reads) = refl
written_contents p (some buf ∷ reads) = elim (Bool-cases (length buf == 0)) [
  | inl empty ↦ rw (empty, empty_lem buf empty) refl
  | inr more ↦ rw more (ap (◌++◌ buf) (written_contents p reads))
]

-- The last acts do not depend on what the channel holds.
pub last_acts-drained :
    (p : ReadPort.TunnelReadPort) (rx : Option (List TunnelPortMsg)) (reads : List (Option Bytes))
    → last_acts (record p { rx = rx }) reads ≡ last_acts p reads
unfolding Task.give_up Task.finish ReadPort.drain
last_acts-drained p rx [] = refl
last_acts-drained p rx (none ∷ reads) = refl
last_acts-drained p rx (some buf ∷ reads) = elim (Bool-cases (length buf == 0)) [
  | inl empty ↦ rw empty refl
  | inr more ↦ rw more (last_acts-drained p rx reads)
]
