-- ===== src/Tunnel/ToClient/Loop.antt =====
-- src/client.rs and src/server.rs: a whole run of the server's writing, read by the client.
use stunnel.Base.{
  ℕ, zero, suc, ◌<◌, ◌≡◌, refl, sym, ap, ◌∙◌, ◌>>=◌, Bool, true, false, Bool-cases, ◌⊎◌, inl, inr,
  Option, none, some, List, [], ◌∷◌, ◌++◌, append-nil, append_assoc, map, Bytes, All, length,
  length-append, ltb, ltb→lt, if◌then◌else◌, millis_since, arith,
}
use stunnel.Tunnel.{Cipher, IsStreamCipher, ended}
use stunnel.Tunnel.ToClient.{
  to_client, all_to_client, IsSendable, encoded, TurnsTo, read_turn-encoded,
}
use stunnel.Server as Server
use stunnel.Server.Ports.{add_port}
use stunnel.Server.Writes as Writes
use stunnel.Server.Writes.{Writer, Surroundings}
use stunnel.Client as Client
use stunnel.Client.Reads as Reads
use stunnel.Util.{SubSenders, get_one_sender}
use stunnel.Protocol.{alive_timeout_time_ms}

module _ (c : Cipher) (laws : IsStreamCipher c) where
  -- What a turn of the client's loop that goes on does to the stream and the cryptor.
  abbrev Wrote : Writer c → Writer c → Server.TunnelMsg → Type 0
  Wrote w w' m =
      (w'.written ≡ w.written ++ (encoded c laws w.encryptor m).0)
      × (w'.encryptor ≡ (encoded c laws w.encryptor m).1)

  -- Why the loop does not go on.
  abbrev pub Halts : Surroundings → Writer c → Server.TunnelMsg → Type 0
  Halts e w m =
      (e.broken ≡ true)
      ⊎ ((m ≡ Server.heartbeat) × (alive_timeout_time_ms < millis_since e.now w.alive_time))
      ⊎ (m ≡ Server.close_tunnel)
      ⊎ (get_one_sender w.senders ≡ none)

  abbrev Turned : Surroundings → Writer c → Server.TunnelMsg → Option (Bool × Writer c) → Type 0
  Turned e w m none = Halts e w m
  Turned e w m (some (true, w')) = Wrote w w' m
  Turned e w m (some (false, w')) = Halts e w m × (w' ≡ w)

  write_all-Turned :
      (e : Surroundings) (w w1 : Writer c) (m : Server.TunnelMsg)
      → w1.written ≡ w.written
      → w1.encryptor ≡ (encoded c laws w.encryptor m).1
      → Turned e w m
          (Writes.write_all c e w1 (encoded c laws w.encryptor m).0 >>= λ w'. some (true, w'))
  write_all-Turned e w w1 m same k = go e.broken refl
    where
      go :
          (b : Bool)
          → e.broken ≡ b
          → Turned e w m (
              (if b
                then none
                else some (record w1 { written = w1.written ++ (encoded c laws w.encryptor m).0 }))
              >>= λ w'. some (true, w'))
      go true broken = inl broken
      go false whole = (ap (λ bs. bs ++ (encoded c laws w.encryptor m).0) same, k)

  open_port-Turned :
      (e : Surroundings) (w : Writer c) (id : ℕ)
      → Turned e w (Server.cs_open_port id) (Writes.write_turn c e w (Server.cs_open_port id))
  unfolding Writes.write_turn Writes.process_tunnel_msg encoded
  open_port-Turned e w id = go (get_one_sender w.senders) refl
    where
      go :
          (r : Option (ℕ × SubSenders ℕ))
          → get_one_sender w.senders ≡ r
          → Turned e w (Server.cs_open_port id) (
              (r >>= λ s. some (record w {
                alive_time = e.now;
                port_hub = add_port w.port_hub id e.new_channel;
                senders = s.1;
                spawned = w.spawned ++ record { id = id; rx = e.new_channel; tx = s.0 } ∷ [];
              }))
              >>= λ w'. some (true, w'))
      go none h = inr (inr (inr h))
      go (some s) h = (sym (append-nil w.written), refl)

  write_turn-Turned :
      (e : Surroundings) (w : Writer c) (m : Server.TunnelMsg)
      → Turned e w m (Writes.write_turn c e w m)
  unfolding Writes.write_turn Writes.process_tunnel_msg encoded
  write_turn-Turned e w Server.cs_heartbeat = write_all-Turned e w _ Server.cs_heartbeat refl refl
  write_turn-Turned e w (Server.cs_open_port id) = open_port-Turned e w id
  write_turn-Turned e w (Server.cs_close_port id) = (sym (append-nil w.written), refl)
  write_turn-Turned e w (Server.cs_shutdown_write id) = (sym (append-nil w.written), refl)
  write_turn-Turned e w (Server.cs_connect_dn id domain port) = (sym (append-nil w.written), refl)
  write_turn-Turned e w (Server.cs_data op id buf) = (sym (append-nil w.written), refl)
  write_turn-Turned e w (Server.sc_close_port id) =
      write_all-Turned e w _ (Server.sc_close_port id) refl refl
  write_turn-Turned e w (Server.sc_shutdown_write id) =
      write_all-Turned e w _ (Server.sc_shutdown_write id) refl refl
  write_turn-Turned e w (Server.sc_connect_ok id buf) =
      write_all-Turned e w _ (Server.sc_connect_ok id buf) refl refl
  write_turn-Turned e w (Server.sc_data id buf) =
      write_all-Turned e w _ (Server.sc_data id buf) refl refl
  write_turn-Turned e w (Server.tunnel_port_half_drop id) = (sym (append-nil w.written), refl)
  write_turn-Turned e w Server.heartbeat =
      elim (Bool-cases (ltb alive_timeout_time_ms (millis_since e.now w.alive_time))) [
        | inl late ↦ rw late (inr (inl (refl, ltb→lt _ _ late)), refl)
        | inr well ↦ rw well (sym (append-nil w.written), refl)
      ]
  write_turn-Turned e w Server.close_tunnel = (inr (inr (inl refl)), refl)

  -- The client's loop on the bytes of one message.
  read_loop-TurnsTo :
      (ms : List Client.TunnelMsg) (m : Server.TunnelMsg) (k : c.Cryptor) (rest : Bytes)
      (msgs : List Client.TunnelMsg) (fuel : ℕ)
      → TurnsTo c laws ms m k rest
      → length ((encoded c laws k m).0 ++ rest) < fuel
      → ((fuel' : ℕ)
          → length rest < fuel'
          → Reads.read_loop c fuel' (encoded c laws k m).1 rest ≡ (msgs, ended))
      → Reads.read_loop c fuel k ((encoded c laws k m).0 ++ rest) ≡ (ms ++ msgs, ended)
  unfolding Reads.read_loop
  read_loop-TurnsTo ms m k rest msgs zero turns enough later = absurd (omega arith)
  read_loop-TurnsTo [] m k rest msgs (suc fuel) (nothing, same) enough later =
      rw nothing (rw same at (later (suc fuel) (rw nothing at enough)))
  read_loop-TurnsTo (got ∷ []) m k rest msgs (suc fuel) (pos, turns) enough later =
      rw
        (
          Reads.read_loop,
          turns,
          later fuel (omega (arith, length-append (encoded c laws k m).0 rest)),
        )
        refl
  read_loop-TurnsTo (_ ∷ _ ∷ _) m k rest msgs (suc fuel) turns enough later = absurd turns

  -- Why a run of the loop took just these messages.
  abbrev pub Ends : Writer c → List (Surroundings × Server.TunnelMsg) → Type 0
  Ends w [] = Unit
  Ends w (m ∷ rest) = Halts m.0 w m.1

  abbrev pub Run :
      Writer c → List (Surroundings × Server.TunnelMsg) → List Server.TunnelMsg × Writer c → Type 0
  Run w msgs (done, w') =
      (bs : Bytes) × (rest : List (Surroundings × Server.TunnelMsg)) × (w'.written
        ≡ w.written ++ bs)
      × ((fuel : ℕ)
          → length bs < fuel
          → Reads.read_loop c fuel w.encryptor bs ≡ (all_to_client done, ended))
      × (map (λ m. m.1) msgs ≡ done ++ map (λ m. m.1) rest)
      × Ends w' rest

  read_loop_empty : (k : c.Cryptor) (fuel : ℕ) → Reads.read_loop c fuel k [] ≡ ([], ended)
  unfolding Reads.read_loop Reads.read_turn
  read_loop_empty k zero = refl
  read_loop_empty k (suc fuel) = refl

  -- A loop that takes no message.
  stays :
      (w : Writer c) (msgs : List (Surroundings × Server.TunnelMsg))
      → Ends w msgs
      → Run w msgs ([], w)
  unfolding all_to_client
  stays w msgs end_state = (
    [],
    msgs,
    sym (append-nil w.written),
    (λ fuel h. read_loop_empty w.encryptor fuel),
    refl,
    end_state,
  )

  goes :
      (w w' : Writer c) (m : Surroundings × Server.TunnelMsg)
      (msgs : List (Surroundings × Server.TunnelMsg)) (r : List Server.TunnelMsg × Writer c)
      → IsSendable m.1
      → Wrote w w' m.1
      → Run w' msgs r
      → Run w (m ∷ msgs) (m.1 ∷ r.0, r.1)
  unfolding all_to_client
  goes w w' m msgs r small (wrote, k) (bs, rest, written, reads, took, end_state) = (
    (encoded c laws w.encryptor m.1).0 ++ bs,
    rest,
    written ∙ ap (λ xs. xs ++ bs) wrote ∙ append_assoc w.written _ bs,
    (λ fuel h.
        read_loop-TurnsTo (to_client m.1) m.1 w.encryptor bs (all_to_client r.0) fuel
          (read_turn-encoded c laws m.1 w.encryptor bs small) h
          (λ fuel' h'. rw k at (reads fuel' h'))),
    ap (◌∷◌ m.1) took,
    end_state,
  )

  pub write_loop-Run :
      (w : Writer c) (msgs : List (Surroundings × Server.TunnelMsg))
      → All (λ m. IsSendable m.1) msgs
      → Run w msgs (Writes.write_loop c w msgs)
  unfolding Writes.write_loop
  write_loop-Run w [] all = stays w [] tt
  write_loop-Run w (m ∷ msgs) (small, all) =
      go (Writes.write_turn c m.0 w m.1) (write_turn-Turned m.0 w m.1)
        (λ w'. write_loop-Run w' msgs all)
    where
      go :
          (r : Option (Bool × Writer c))
          → Turned m.0 w m.1 r
          → ((w' : Writer c) → Run w' msgs (Writes.write_loop c w' msgs))
          → Run w (m ∷ msgs) (elim r [
            | some (true, w') ↦
                let (done, end_state) = Writes.write_loop c w' msgs in (m.1 ∷ done, end_state)
            | some (false, w') ↦ ([], w')
            | none ↦ ([], w)
          ])
      go none halts later = stays w (m ∷ msgs) halts
      go (some (true, w')) wrote later =
          goes w w' m msgs (Writes.write_loop c w' msgs) small wrote (later w')
      go (some (false, w')) (halts, same) later = rw same (stays w (m ∷ msgs) halts)
