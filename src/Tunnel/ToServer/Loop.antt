-- ===== src/Tunnel/ToServer/Loop.antt =====
-- src/client.rs and src/server.rs: a whole run of the client's writing, read by the server.
use stunnel.Base.{
  ℕ, zero, suc, ◌<◌, ◌≡◌, refl, sym, ap, ◌∙◌, ◌>>=◌, Bool, true, false, Bool-cases, ◌⊎◌, inl, inr,
  Option, none, some, List, [], ◌∷◌, ◌++◌, append-nil, append_assoc, map, Bytes, All, length,
  length-append, ltb, ltb→lt, if◌then◌else◌, millis_since, arith,
}
use stunnel.Tunnel.{Cipher, IsStreamCipher, ended}
use stunnel.Tunnel.Exact.{read_exact-append}
use stunnel.Tunnel.ToServer.{
  to_server, all_to_server, IsSendable, encoded, TurnsTo, read_turn-encoded,
}
use stunnel.Client as Client
use stunnel.Client.Ports.{PortHub}
use stunnel.Client.Writes as Writes
use stunnel.Client.Writes.{Writer, Surroundings}
use stunnel.Server as Server
use stunnel.Server.Reads as Reads
use stunnel.Server.Reads.{eq_bytes}
use stunnel.Protocol.{verify_data, alive_timeout_time_ms}

module _ (c : Cipher) (valid : Bytes → Bool) (laws : IsStreamCipher c) where
  -- What a turn of the client's loop that goes on does to the stream and the cryptor.
  abbrev Wrote : Writer c valid → Writer c valid → Client.TunnelMsg → Type 0
  Wrote w w' m =
      (w'.written ≡ w.written ++ (encoded c laws w.encryptor m).0)
      × (w'.encryptor ≡ (encoded c laws w.encryptor m).1)

  -- Why the loop does not go on.
  abbrev pub Halts : Surroundings → Writer c valid → Client.TunnelMsg → Type 0
  Halts e w m =
      (e.broken ≡ true)
      ⊎ ((m ≡ Client.heartbeat) × (alive_timeout_time_ms < millis_since e.now w.alive_time))

  abbrev Turned :
      Surroundings → Writer c valid → Client.TunnelMsg → Option (Bool × Writer c valid) → Type 0
  Turned e w m none = Halts e w m
  Turned e w m (some (true, w')) = Wrote w w' m
  Turned e w m (some (false, w')) = Halts e w m × (w' ≡ w)

  write_all-Turned :
      (e : Surroundings) (w w1 : Writer c valid) (m : Client.TunnelMsg)
      → w1.written ≡ w.written
      → w1.encryptor ≡ (encoded c laws w.encryptor m).1
      → Turned e w m
          (Writes.write_all c valid e w1 (encoded c laws w.encryptor m).0 >>= λ w'. some (true, w'))
  write_all-Turned e w w1 m same k = go e.broken refl
    where
      go :
          (b : Bool)
          → e.broken ≡ b
          → Turned e w m (
              (if b
                then none
                else some (record w1 { written = w1.written ++ (encoded c laws w.encryptor m).0 }))
              >>= λ w'. some (true, w'))
      go true broken = inl broken
      go false whole = (ap (λ bs. bs ++ (encoded c laws w.encryptor m).0) same, k)

  write_turn-Turned :
      (e : Surroundings) (w : Writer c valid) (m : Client.TunnelMsg)
      → Turned e w m (Writes.write_turn c valid e w m)
  unfolding Writes.write_turn Writes.process_tunnel_msg encoded
  write_turn-Turned e w (Client.cs_open_port id tx) =
      write_all-Turned e w _ (Client.cs_open_port id tx) refl refl
  write_turn-Turned e w (Client.cs_connect id buf) =
      write_all-Turned e w _ (Client.cs_connect id buf) refl refl
  write_turn-Turned e w (Client.cs_connect_dn id buf port) =
      write_all-Turned e w _ (Client.cs_connect_dn id buf port) refl refl
  write_turn-Turned e w (Client.cs_shutdown_write id) =
      write_all-Turned e w _ (Client.cs_shutdown_write id) refl refl
  write_turn-Turned e w (Client.cs_close_port id) =
      write_all-Turned e w _ (Client.cs_close_port id) refl refl
  write_turn-Turned e w (Client.cs_data id buf) =
      write_all-Turned e w _ (Client.cs_data id buf) refl refl
  write_turn-Turned e w Client.sc_heartbeat = (sym (append-nil w.written), refl)
  write_turn-Turned e w (Client.sc_close_port id) = (sym (append-nil w.written), refl)
  write_turn-Turned e w (Client.sc_shutdown_write id) = (sym (append-nil w.written), refl)
  write_turn-Turned e w (Client.sc_connect_ok id buf) = (sym (append-nil w.written), refl)
  write_turn-Turned e w (Client.sc_data id buf) = (sym (append-nil w.written), refl)
  write_turn-Turned e w (Client.tunnel_port_half_drop id) = (sym (append-nil w.written), refl)
  write_turn-Turned e w Client.heartbeat =
      elim (Bool-cases (ltb alive_timeout_time_ms (millis_since e.now w.alive_time))) [
        | inl late ↦ rw late (inr (refl, ltb→lt _ _ late), refl)
        | inr well ↦ rw well (write_all-Turned e w w Client.heartbeat refl refl)
      ]

  -- The server's loop on the bytes of one message.
  read_loop-TurnsTo :
      (ms : List Server.TunnelMsg) (m : Client.TunnelMsg) (k : c.Cryptor) (rest : Bytes)
      (msgs : List Server.TunnelMsg) (fuel : ℕ)
      → TurnsTo c laws ms m k rest
      → length ((encoded c laws k m).0 ++ rest) < fuel
      → ((fuel' : ℕ)
          → length rest < fuel'
          → Reads.read_loop c fuel' (encoded c laws k m).1 rest ≡ (msgs, ended))
      → Reads.read_loop c fuel k ((encoded c laws k m).0 ++ rest) ≡ (ms ++ msgs, ended)
  unfolding Reads.read_loop
  read_loop-TurnsTo ms m k rest msgs zero turns enough later = absurd (omega arith)
  read_loop-TurnsTo [] m k rest msgs (suc fuel) (nothing, same) enough later =
      rw nothing (rw same at (later (suc fuel) (rw nothing at enough)))
  read_loop-TurnsTo (got ∷ []) m k rest msgs (suc fuel) (pos, turns) enough later =
      rw
        (
          Reads.read_loop,
          turns,
          later fuel (omega (arith, length-append (encoded c laws k m).0 rest)),
        )
        refl
  read_loop-TurnsTo (_ ∷ _ ∷ _) m k rest msgs (suc fuel) turns enough later = absurd turns

  -- Why a run of the loop took just these messages.
  abbrev pub Ends : Writer c valid → List (Surroundings × Client.TunnelMsg) → Type 0
  Ends w [] = Unit
  Ends w (m ∷ rest) = Halts m.0 w m.1

  abbrev pub Run :
      Writer c valid
      → List (Surroundings × Client.TunnelMsg)
      → List Client.TunnelMsg × Writer c valid
      → Type 0
  Run w msgs (done, w') =
      (bs : Bytes) × (rest : List (Surroundings × Client.TunnelMsg)) × (w'.written
        ≡ w.written ++ bs)
      × ((fuel : ℕ)
          → length bs < fuel
          → Reads.read_loop c fuel w.encryptor bs ≡ (all_to_server done, ended))
      × (map (λ m. m.1) msgs ≡ done ++ map (λ m. m.1) rest)
      × Ends w' rest

  read_loop_empty : (k : c.Cryptor) (fuel : ℕ) → Reads.read_loop c fuel k [] ≡ ([], ended)
  unfolding Reads.read_loop Reads.read_turn
  read_loop_empty k zero = refl
  read_loop_empty k (suc fuel) = refl

  -- A loop that takes no message.
  stays :
      (w : Writer c valid) (msgs : List (Surroundings × Client.TunnelMsg))
      → Ends w msgs
      → Run w msgs ([], w)
  unfolding all_to_server
  stays w msgs end_state = (
    [],
    msgs,
    sym (append-nil w.written),
    (λ fuel h. read_loop_empty w.encryptor fuel),
    refl,
    end_state,
  )

  goes :
      (w w' : Writer c valid) (m : Surroundings × Client.TunnelMsg)
      (msgs : List (Surroundings × Client.TunnelMsg)) (r : List Client.TunnelMsg × Writer c valid)
      → IsSendable m.1
      → Wrote w w' m.1
      → Run w' msgs r
      → Run w (m ∷ msgs) (m.1 ∷ r.0, r.1)
  unfolding all_to_server
  goes w w' m msgs r small (wrote, k) (bs, rest, written, reads, took, end_state) = (
    (encoded c laws w.encryptor m.1).0 ++ bs,
    rest,
    written ∙ ap (λ xs. xs ++ bs) wrote ∙ append_assoc w.written _ bs,
    (λ fuel h.
        read_loop-TurnsTo (to_server m.1) m.1 w.encryptor bs (all_to_server r.0) fuel
          (read_turn-encoded c laws m.1 w.encryptor bs small) h
          (λ fuel' h'. rw k at (reads fuel' h'))),
    ap (◌∷◌ m.1) took,
    end_state,
  )

  pub write_loop-Run :
      (w : Writer c valid) (msgs : List (Surroundings × Client.TunnelMsg))
      → All (λ m. IsSendable m.1) msgs
      → Run w msgs (Writes.write_loop c valid w msgs)
  unfolding Writes.write_loop
  write_loop-Run w [] all = stays w [] tt
  write_loop-Run w (m ∷ msgs) (small, all) =
      go (Writes.write_turn c valid m.0 w m.1) (write_turn-Turned m.0 w m.1)
        (λ w'. write_loop-Run w' msgs all)
    where
      go :
          (r : Option (Bool × Writer c valid))
          → Turned m.0 w m.1 r
          → ((w' : Writer c valid) → Run w' msgs (Writes.write_loop c valid w' msgs))
          → Run w (m ∷ msgs) (elim r [
            | some (true, w') ↦
                let (done, end_state) = Writes.write_loop c valid w' msgs in (m.1 ∷ done, end_state)
            | some (false, w') ↦ ([], w')
            | none ↦ ([], w)
          ])
      go none halts later = stays w (m ∷ msgs) halts
      go (some (true, w')) wrote later =
          goes w w' m msgs (Writes.write_loop c valid w' msgs) small wrote (later w')
      go (some (false, w')) (halts, same) later = rw same (stays w (m ∷ msgs) halts)

  verify_self : eq_bytes verify_data verify_data ≡ true
  unfolding eq_bytes
  verify_self = refl

  pub process_tunnel_read-process_tunnel_write :
      (key ctr : Bytes) (now : ℕ) (hub : PortHub) (msgs : List (Surroundings × Client.TunnelMsg))
      → length ctr ≡ 8
      → All (λ m. IsSendable m.1) msgs
      → let (done, w) = Writes.process_tunnel_write c valid key ctr now hub msgs in
        (Reads.process_tunnel_read c key w.written ≡ (all_to_server done, ended))
        × ((rest : List (Surroundings × Client.TunnelMsg)) × (map (λ m. m.1) msgs
              ≡ done ++ map (λ m. m.1) rest)
            × Ends w rest)
  unfolding Writes.process_tunnel_write Writes.start_writing Reads.process_tunnel_read
      Reads.verify_client
  process_tunnel_read-process_tunnel_write key ctr now hub msgs size all =
      let start = Writes.start_writing c valid key ctr now hub in
      let (bs, rest, written, reads, took, end_state) = write_loop-Run start msgs all in
      let hello = (c.encrypt (c.with_ctr key ctr) verify_data).0 in
      (
        rw
            (
              written,
              append_assoc ctr hello bs,
              Reads.process_tunnel_read,
              read_exact-append 8 ctr (hello ++ bs) (sym size),
              Reads.verify_client,
              read_exact-append 8 hello bs (sym (laws.length-encrypt _ verify_data)),
              laws.decrypt-encrypt (c.with_ctr key ctr) verify_data,
              verify_self,
            )
            (reads (suc (length bs)) (omega arith)),
        (rest, took, end_state),
      )
