-- ===== src/Server/Task/Ending.antt =====
-- src/server.rs: the two ends of a port bring it to an end, in whatever order their messages come.
use stunnel.Base.{
  ℕ, zero, suc, ◌+◌, ◌-◌, ◌≤◌, ◌≡◌, refl, subst, inl, inr, Bool, true, false, ◌||◌, Bool-cases,
  Option, none, some, List, [], ◌∷◌, map, Bytes, All, length, ◌==◌, ==-self, get, arith,
}
use stunnel.Protocol.Cs
use stunnel.Tunnel.{Cipher}
use stunnel.Tunnel.Acts.{sent}
use stunnel.Tunnel.Halves.{gone, Merge, done, left, right, other}
use stunnel.Server as Server
use stunnel.Server.{TunnelMsg, TunnelPortMsg, connect_dn, data_msg, shutdown_write, close_port}
use stunnel.Server.Writes.Halves.{NotOpening, left_after, left_of, Halves, write_loop-Halves}
use stunnel.Server.Ports.{Port}
use stunnel.Server.Writes.{Surroundings, Writer, write_loop}
use stunnel.Server.WritePort as WritePort
use stunnel.Server.WritePort.{TunnelWritePort}
use stunnel.Server.ReadPort as ReadPort
use stunnel.Server.ReadPort.{TunnelReadPort}
use stunnel.Server.Task.{
  tunnel_port_write, tunnel_port_read, port_read_loop, rx_loop, give_up, finish,
}

-- Whether the reads come to the end of the stream or an error.
abbrev pub comes_to_end : List (Option Bytes) → Bool
comes_to_end [] = false
comes_to_end (none ∷ reads) = true
comes_to_end (some buf ∷ reads) = length buf == 0 || comes_to_end reads

-- How many of a port's halves messages end.
abbrev ends_of : ℕ → List TunnelMsg → ℕ
ends_of id [] = 0
ends_of id (m ∷ msgs) = (1 - left_after id m 1) + ends_of id msgs

module _ (id : ℕ) where
  left_of-le : (msgs : List TunnelMsg) (n : ℕ) → left_of id msgs n ≤ n - ends_of id msgs
  left_of-le [] n = omega arith
  left_of-le (m ∷ msgs) n = step m (left_of-le msgs)
    where
      step :
          (m : TunnelMsg)
          → ((n : ℕ) → left_of id msgs n ≤ n - ends_of id msgs)
          → left_of id (m ∷ msgs) n ≤ n - ends_of id (m ∷ msgs)
      step (Server.tunnel_port_half_drop k) ih = ground (arith, ih (n - 1), ih n)
      step (Server.sc_close_port k) ih = ground (arith, ih (n - 1), ih n)
      step Server.heartbeat ih = ground (arith, ih n)
      step _ ih = ground (arith, ih n)

  Merge-ends :
      {xs ys zs : List TunnelMsg}
      → Merge (NotOpening id) xs ys zs
      → ends_of id xs + ends_of id ys ≤ ends_of id zs
  Merge-ends done = omega arith
  Merge-ends (left m rest) = omega (arith, Merge-ends rest)
  Merge-ends (right m rest) = omega (arith, Merge-ends rest)
  Merge-ends (other m ok rest) = omega (arith, Merge-ends rest)

  Merge-All :
      {xs ys zs : List TunnelMsg}
      → Merge (NotOpening id) xs ys zs
      → All (NotOpening id) xs
      → All (NotOpening id) ys
      → All (NotOpening id) zs
  Merge-All done a b = tt
  Merge-All (left m rest) (a, more) b = (a, Merge-All rest more b)
  Merge-All (right m rest) a (b, more) = (b, Merge-All rest a more)
  Merge-All (other m ok rest) a b = (ok, Merge-All rest a b)

tunnel_port_write-ends :
    (p : TunnelWritePort) (reads : List (Option Bytes))
    → comes_to_end reads ≡ true
    → (All (NotOpening p.id) (sent (tunnel_port_write p reads)))
      × (ends_of p.id (sent (tunnel_port_write p reads)) ≡ 1)
unfolding tunnel_port_write sent WritePort.write WritePort.shutdown_write WritePort.close
    WritePort.drop
tunnel_port_write-ends p [] h = absurd (cc h)
tunnel_port_write-ends p (none ∷ reads) h = rw (==-self p.id) ((tt, tt), refl)
tunnel_port_write-ends p (some buf ∷ reads) h = elim (Bool-cases (length buf == 0)) [
  | inl empty ↦ rw (empty, ==-self p.id) ((tt, (tt, tt)), refl)
  | inr more ↦
      let rest : (All (NotOpening p.id) (sent (tunnel_port_write p reads)))
          × (ends_of p.id (sent (tunnel_port_write p reads)) ≡ 1) =
        tunnel_port_write-ends p reads (rw more at h) in
      rw more ((tt, rest.0), omega (arith, rest.1))
]

give_up-ends :
    (p : TunnelReadPort)
    → (All (NotOpening p.id) (sent (give_up p))) × (ends_of p.id (sent (give_up p)) ≡ 1)
unfolding give_up sent ReadPort.drain ReadPort.close
give_up-ends p = rw (==-self p.id) ((tt, tt), refl)

finish-ends :
    (p : TunnelReadPort)
    → (All (NotOpening p.id) (sent (finish p))) × (ends_of p.id (sent (finish p)) ≡ 1)
unfolding finish sent ReadPort.drain ReadPort.drop
finish-ends p = rw (==-self p.id) ((tt, tt), refl)

port_read_loop-ends :
    (p : TunnelReadPort) (msgs : List TunnelPortMsg) (takes : ℕ)
    → (All (NotOpening p.id) (sent (port_read_loop p msgs takes)))
      × (ends_of p.id (sent (port_read_loop p msgs takes)) ≡ 1)
unfolding port_read_loop sent
port_read_loop-ends p [] takes = give_up-ends p
port_read_loop-ends p (data_msg op buf ∷ msgs) zero = give_up-ends p
port_read_loop-ends p (data_msg op buf ∷ msgs) (suc takes) = elim (Bool-cases (op == Cs.data_msg)) [
  | inl plain ↦ rw plain (port_read_loop-ends p msgs takes)
  | inr odd ↦ rw odd (give_up-ends p)
]
port_read_loop-ends p (shutdown_write ∷ msgs) takes = finish-ends p
port_read_loop-ends p (connect_dn domain port ∷ msgs) takes = give_up-ends p
port_read_loop-ends p (close_port ∷ msgs) takes = give_up-ends p

tunnel_port_read-ends :
    (p : TunnelReadPort) (takes : ℕ)
    → (All (NotOpening p.id) (sent (tunnel_port_read p takes)))
      × (ends_of p.id (sent (tunnel_port_read p takes)) ≡ 1)
unfolding tunnel_port_read
tunnel_port_read-ends p takes = by_rx p.rx
  where
    by_rx :
        (rx : Option (List TunnelPortMsg))
        → (All (NotOpening p.id) (sent (rx_loop p rx takes)))
          × (ends_of p.id (sent (rx_loop p rx takes)) ≡ 1)
    by_rx none = give_up-ends p
    by_rx (some msgs) = port_read_loop-ends p msgs takes

-- A port of the server's hub with two halves at most is gone after the messages of its two ends, in
-- whatever order they are merged, with any other messages among them but one that opens the port
-- again: if the reads of the TCP stream come to their end or an error, and the loop takes all the
-- messages.
pub write_loop-gone :
    (c : Cipher) (w : Writer c) (write_port : TunnelWritePort) (read_port : TunnelReadPort)
    (reads : List (Option Bytes)) (takes : ℕ) (msgs : List (Surroundings × TunnelMsg))
    → read_port.id ≡ write_port.id
    → ((v : Port) → get write_port.id w.port_hub.ports ≡ some v → (1 ≤ v.count) × (v.count ≤ 2))
    → comes_to_end reads ≡ true
    → Merge
        (NotOpening write_port.id)
        (sent (tunnel_port_write write_port reads))
        (sent (tunnel_port_read read_port takes))
        (map (λ m. m.1) msgs)
    → (write_loop c w msgs).0 ≡ map (λ m. m.1) msgs
    → get write_port.id (write_loop c w msgs).1.port_hub.ports ≡ none
write_loop-gone c w write_port read_port reads takes msgs same halves finite merged took =
    let id : ℕ = write_port.id in
    let sending = tunnel_port_write-ends write_port reads finite in
    let receiving = tunnel_port_read-ends read_port takes in
    let sound : All (NotOpening id) (map (λ m. m.1) msgs) = Merge-All id merged sending.0 (
      subst (λ i. All (NotOpening i) (sent (tunnel_port_read read_port takes))) same receiving.0) in
    let all_end : ends_of id (sent (tunnel_port_read read_port takes)) ≡ 1 =
      subst (λ i. ends_of i (sent (tunnel_port_read read_port takes)) ≡ 1) same receiving.1 in
    let over : left_of id (map (λ m. m.1) msgs) 2 ≡ 0 =
      omega (arith, left_of-le id (map (λ m. m.1) msgs) 2, Merge-ends id merged, sending.1) in
    gone (λ (p : Port). p.count) id _
      (subst (λ n. Halves id n (write_loop c w msgs).1.port_hub.ports) over
        (write_loop-Halves id c msgs 2 w (omega arith) halves sound took))
