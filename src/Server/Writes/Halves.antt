-- ===== src/Server/Writes/Halves.antt =====
-- src/server.rs: how many halves of a port `process_tunnel_msg` leaves at most.
use stunnel.Base.{
  ℕ, ◌>>=◌, ◌-◌, ◌≤◌, ◌≡◌, ◌≢◌, sym, subst, inl, inr, Bool, true, false, Bool-cases, Option-cases,
  Option, none, some, List, [], ◌∷◌, ◌++◌, map, All, ◌==◌, ==-self, if◌then◌else◌, get, remove,
  sub_u32, ltb, millis_since, arith,
}
use mathlib.Core.Option.{some-injective}
use native.Mathlib.Decide.{ℕ_discrete}
use stunnel.Protocol.{alive_timeout_time_ms}
use stunnel.Util.{SubSenders, get_one_sender}
use stunnel.Tunnel.{Cipher}
use stunnel.Tunnel.Halves.{
  AtMost, AtMost-remove, AtMost-insert_other, AtMost-remove_same, AtMost-insert_same,
}
use stunnel.Server as Server
use stunnel.Server.{TunnelMsg, TunnelPortMsg, connect_dn, data_msg, shutdown_write, close_port}
use stunnel.Server.Ports.{
  Port, PortHub, add_port, drop_port_half, client_close_port, server_close_port, try_send_msg,
  connect, client_send_data, client_shutdown,
}
use stunnel.Server.Writes.{Surroundings, Writer, process_tunnel_msg, write_turn, write_loop}

-- A message that does not open the port.
abbrev pub NotOpening : ℕ → TunnelMsg → Type 0
NotOpening id (Server.cs_open_port k) = k ≢ id
NotOpening id _ = Unit

-- The halves left of at most `n`, after a message: an end of the port ends with it or not.
abbrev pub left_after : ℕ → TunnelMsg → ℕ → ℕ
left_after id (Server.tunnel_port_half_drop k) n = if k == id then n - 1 else n
left_after id (Server.sc_close_port k) n = if k == id then n - 1 else n
left_after id _ n = n

abbrev pub left_of : ℕ → List TunnelMsg → ℕ → ℕ
left_of id [] n = n
left_of id (m ∷ msgs) n = left_of id msgs (left_after id m n)

module _ (id : ℕ) where
  abbrev pub Halves : ℕ → List (ℕ × Port) → Type 0
  Halves n ports = AtMost (λ (p : Port). p.count) id n ports

  module _ (n : ℕ) (small : n ≤ 2) (hub : PortHub) (h : Halves n hub.ports) where
    less : (m : ℕ) → m ≤ n → (ports : List (ℕ × Port)) → Halves m ports → Halves n ports
    less m le ports k v e = ground (arith, k v e)

    try_send_msg-Halves :
        (closed : ℕ → Bool) (k : ℕ) (msg : TunnelPortMsg)
        → Halves n (try_send_msg closed hub k msg).ports
    unfolding try_send_msg
    try_send_msg-Halves closed k msg = elim (Option-cases (get k hub.ports)) [
      | inl e ↦ rw (try_send_msg, e) h
      | inr (v, e) ↦ elim (Bool-cases (closed v.tx)) [
        | inl lost ↦ rw (try_send_msg, e, lost) (AtMost-remove _ id n hub.ports h k)
        | inr kept ↦ rw (try_send_msg, e, kept) h
      ]
    ]

    drop_port_half-Halves_other : (k : ℕ) → id ≢ k → Halves n (drop_port_half hub k).ports
    unfolding drop_port_half
    drop_port_half-Halves_other k differs = elim (Option-cases (get k hub.ports)) [
      | inl e ↦ rw (drop_port_half, e) h
      | inr (v, e) ↦ elim (Bool-cases (sub_u32 v.count 1 == 0)) [
        | inl last ↦ rw (drop_port_half, e, last) (AtMost-remove _ id n hub.ports h k)
        | inr more ↦
            rw (drop_port_half, e, more) (AtMost-insert_other _ id n hub.ports h k _ differs)
      ]
    ]

    drop_port_half-Halves : Halves (n - 1) (drop_port_half hub id).ports
    unfolding drop_port_half
    drop_port_half-Halves = elim (Option-cases (get id hub.ports)) [
      | inl e ↦ rw (drop_port_half, e) (λ v g. absurd (cc (e, g)))
      | inr (v, e) ↦ elim (Bool-cases (sub_u32 v.count 1 == 0)) [
        | inl last ↦ rw (drop_port_half, e, last) (AtMost-remove_same _ id (n - 1) hub.ports)
        | inr more ↦
            rw (drop_port_half, e, more)
              (AtMost-insert_same _ id (n - 1) _ hub.ports (ground (arith, h v e))
                (ground (arith, h v e)))
      ]
    ]

    -- A half of port `k` that is dropped counts if `k` is the port.
    drop-Halves :
        (k : ℕ)
        → Halves (left_after id (Server.tunnel_port_half_drop k) n) (drop_port_half hub k).ports
    drop-Halves k = elim (ℕ_discrete id k) [
      | yes same ↦ rw (← same, ==-self id) drop_port_half-Halves
      | no differs ↦
          let no_end : (k == id) ≡ false = ground arith in
          rw no_end (drop_port_half-Halves_other k differs)
    ]

    -- A port that the server closes is gone, so it has as few halves as one wants.
    server_close-Halves :
        (k : ℕ) → Halves (left_after id (Server.sc_close_port k) n) (remove k hub.ports)
    server_close-Halves k = elim (ℕ_discrete id k) [
      | yes same ↦ rw (← same) (AtMost-remove_same _ id _ hub.ports)
      | no differs ↦
          let no_end : (k == id) ≡ false = ground arith in
          rw no_end (AtMost-remove _ id n hub.ports h k)
    ]

  module _ (c : Cipher) where
    wrote :
        (n : ℕ) (b : Bool) (w1 : Writer c) {w' : Writer c}
        → (if b then none else some w1) ≡ some w'
        → Halves n w1.port_hub.ports
        → Halves n w'.port_hub.ports
    wrote n true w1 h t = absurd (cc h)
    wrote n false w1 {w' = w'} h t =
        subst (λ x. Halves n x.port_hub.ports) (some-injective w1 w' h) t

    handled :
        (n : ℕ) {w1 w' : Writer c}
        → some w1 ≡ some w'
        → Halves n w1.port_hub.ports
        → Halves n w'.port_hub.ports
    handled n {w1 = w1} {w' = w'} h t =
        subst (λ x. Halves n x.port_hub.ports) (some-injective w1 w' h) t

    opened :
        (n : ℕ) (e : Surroundings) (w : Writer c) (k : ℕ) (taken : Option (ℕ × SubSenders ℕ))
        {w' : Writer c}
        → Halves n w.port_hub.ports
        → k ≢ id
        → (do
          (sender, senders') ← taken
          some (record w {
            alive_time = e.now;
            port_hub = add_port w.port_hub k e.new_channel;
            senders = senders';
            spawned = w.spawned ++ record { id = k; rx = e.new_channel; tx = sender } ∷ [];
          }))
          ≡ some w'
        → Halves n w'.port_hub.ports
    unfolding add_port
    opened n e w k none h differs eq = absurd (cc eq)
    opened n e w k (some (sender, senders')) h differs eq =
        handled n eq
          (AtMost-insert_other _ id n w.port_hub.ports h k _ (λ same. differs (sym same)))

    process_tunnel_msg-Halves :
        (n : ℕ) (e : Surroundings) (w : Writer c) (m : TunnelMsg) (w' : Writer c)
        → n ≤ 2
        → Halves n w.port_hub.ports
        → NotOpening id m
        → process_tunnel_msg c e w m ≡ some w'
        → Halves (left_after id m n) w'.port_hub.ports
    unfolding process_tunnel_msg connect client_send_data client_shutdown client_close_port
        server_close_port
    process_tunnel_msg-Halves n e w Server.cs_heartbeat w' small h ok eq = wrote n e.broken _ eq h
    process_tunnel_msg-Halves n e w (Server.cs_open_port k) w' small h ok eq =
        opened n e w k (get_one_sender w.senders) h ok eq
    process_tunnel_msg-Halves n e w (Server.cs_close_port k) w' small h ok eq =
        handled n eq (AtMost-remove _ id n w.port_hub.ports h k)
    process_tunnel_msg-Halves n e w (Server.cs_shutdown_write k) w' small h ok eq =
        handled n eq (try_send_msg-Halves n small w.port_hub h e.closed k shutdown_write)
    process_tunnel_msg-Halves n e w (Server.cs_connect_dn k domain port) w' small h ok eq =
        handled n eq (try_send_msg-Halves n small w.port_hub h e.closed k (connect_dn domain port))
    process_tunnel_msg-Halves n e w (Server.cs_data op k buf) w' small h ok eq =
        handled n eq (try_send_msg-Halves n small w.port_hub h e.closed k (data_msg op buf))
    process_tunnel_msg-Halves n e w (Server.sc_close_port k) w' small h ok eq =
        wrote _ e.broken _ eq (server_close-Halves n small w.port_hub h k)
    process_tunnel_msg-Halves n e w (Server.sc_shutdown_write k) w' small h ok eq =
        wrote n e.broken _ eq h
    process_tunnel_msg-Halves n e w (Server.sc_connect_ok k buf) w' small h ok eq =
        wrote n e.broken _ eq h
    process_tunnel_msg-Halves n e w (Server.sc_data k buf) w' small h ok eq =
        wrote n e.broken _ eq h
    process_tunnel_msg-Halves n e w (Server.tunnel_port_half_drop k) w' small h ok eq =
        handled _ eq (drop-Halves n small w.port_hub h k)
    process_tunnel_msg-Halves n e w Server.heartbeat w' small h ok eq = handled n eq h
    process_tunnel_msg-Halves n e w Server.close_tunnel w' small h ok eq = handled n eq h

    turned :
        (p : Option (Writer c)) {w' : Writer c}
        → ◌>>=◌ {B = Bool × Writer c} p (λ w1. some (true, w1)) ≡ some (true, w')
        → p ≡ some w'
    turned none h = absurd (cc h)
    turned (some w1) h = cc h

    write_turn-Halves :
        (n : ℕ) (e : Surroundings) (w : Writer c) (m : TunnelMsg) (w' : Writer c)
        → n ≤ 2
        → Halves n w.port_hub.ports
        → NotOpening id m
        → write_turn c e w m ≡ some (true, w')
        → Halves (left_after id m n) w'.port_hub.ports
    unfolding write_turn
    write_turn-Halves n e w Server.heartbeat w' small h ok eq =
        elim (Bool-cases (ltb alive_timeout_time_ms (millis_since e.now w.alive_time))) [
          | inl silent ↦ absurd (cc (rw silent at eq))
          | inr heard ↦ handled n {w1 = w} {w' = w'} (cc (rw heard at eq)) h
        ]
    write_turn-Halves n e w Server.close_tunnel w' small h ok eq = absurd (cc eq)
    write_turn-Halves n e w m w' small h ok eq =
        process_tunnel_msg-Halves n e w m w' small h ok (turned (process_tunnel_msg c e w m) eq)

    left_after-le : (m : TunnelMsg) (n : ℕ) → left_after id m n ≤ n
    left_after-le (Server.tunnel_port_half_drop k) n = ground arith
    left_after-le (Server.sc_close_port k) n = ground arith
    left_after-le Server.heartbeat n = omega arith
    left_after-le _ n = omega arith

    abbrev messages : List (Surroundings × TunnelMsg) → List TunnelMsg
    messages = map (λ m. m.1)

    pub write_loop-Halves :
        (msgs : List (Surroundings × TunnelMsg)) (n : ℕ) (w : Writer c)
        → n ≤ 2
        → Halves n w.port_hub.ports
        → All (NotOpening id) (messages msgs)
        → (write_loop c w msgs).0 ≡ messages msgs
        → Halves (left_of id (messages msgs) n) (write_loop c w msgs).1.port_hub.ports
    unfolding write_loop
    write_loop-Halves [] n w small h ok took = h
    write_loop-Halves (m ∷ msgs) n w small h (ok, oks) took =
        elim (Option-cases (write_turn c m.0 w m.1)) [
          | inl e ↦ absurd (cc (rw (write_loop, e) at took))
          | inr ((true, w'), e) ↦
              rw (write_loop, e)
                (write_loop-Halves msgs (left_after id m.1 n) w'
                  (omega (arith, left_after-le m.1 n))
                  (write_turn-Halves n m.0 w m.1 w' small h ok e) oks
                  (tail (rw (write_loop, e) at took)))
          | inr ((false, w'), e) ↦ absurd (cc (rw (write_loop, e) at took))
        ]
      where
        tail : {x y : TunnelMsg} {xs ys : List TunnelMsg} → x ∷ xs ≡ y ∷ ys → xs ≡ ys
        tail h = cc h
