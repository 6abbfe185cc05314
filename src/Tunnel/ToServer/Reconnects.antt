-- ===== src/Tunnel/ToServer/Reconnects.antt =====
-- src/client.rs and src/server.rs: the connections of a tunnel, one after the other.
use stunnel.Base.{
  ℕ, zero, suc, ◌≤◌, ◌≡◌, Bool, refl, sym, ap, ◌∙◌, List, [], ◌∷◌, ◌++◌, map, Bytes, All, All-drop,
  length, take, drop, take-append-drop, arith,
}
use stunnel.Tunnel.{Cipher, IsStreamCipher, ended}
use stunnel.Tunnel.ToServer.{all_to_server, IsSendable}
use stunnel.Tunnel.ToServer.Loop.{process_tunnel_read-process_tunnel_write}
use stunnel.Client.{TunnelMsg}
use stunnel.Client.Ports.{new, clear_ports}
use stunnel.Client.Writes.{Surroundings, Writer, process_tunnel_write}
use stunnel.Client.Task.{Connection, refused, unheard, heard, Served, core_task, core_loop}
use stunnel.Server.Reads.{process_tunnel_read}
use stunnel.Server.Reads.Front.{IsFront, process_tunnel_read-IsFront}

map-drop {ℓ κ} :
    {A : Type ℓ} {B : Type κ} (f : A → B) (n : ℕ) (xs : List A)
    → map f (drop n xs) ≡ drop n (map f xs)
map-drop f zero xs = refl
map-drop f (suc n) [] = refl
map-drop f (suc n) (x ∷ xs) = map-drop f n xs

drop_past {ℓ} : {A : Type ℓ} (xs ys : List A) → drop (suc (length xs)) (xs ++ ys) ≡ drop 1 ys
drop_past [] ys = refl
drop_past (x ∷ xs) ys = drop_past xs ys

one_off {ℓ} :
    {A : Type ℓ} (ys : List A) → (lost : List A) × (ys ≡ lost ++ drop 1 ys) × (length lost ≤ 1)
one_off [] = ([], refl, omega arith)
one_off (y ∷ ys) = (y ∷ [], refl, omega arith)

-- The counter has 8 bytes.
abbrev pub IsCounted : Connection → Type 0
IsCounted (heard ctr now) = length ctr ≡ 8
IsCounted _ = Unit

module _ (c : Cipher) (valid : Bytes → Bool) (laws : IsStreamCipher c) (tid : ℕ) (key : Bytes) where
  -- The messages fall into those that the connections served, in order, with one more at most lost behind each
  -- connection's, and those that are left.
  abbrev pub Shared : List TunnelMsg → List (Served c valid) → List TunnelMsg → Type 0
  Shared msgs [] left = msgs ≡ left
  Shared msgs (s ∷ served) left =
      (lost : List TunnelMsg) × (msgs' : List TunnelMsg) × (msgs ≡ s.0 ++ (lost ++ msgs'))
      × (length lost ≤ 1)
      × Shared msgs' served left

  -- Of the messages that a connection took the server reads a front, from the first `n` bytes that were
  -- written, and all of them from all the bytes. No port stays.
  abbrev pub IsRead : Served c valid → Type 0
  IsRead s =
      ((n : ℕ) → IsFront (process_tunnel_read c key (take n s.1.written)).0 (all_to_server s.0))
      × (process_tunnel_read c key s.1.written ≡ (all_to_server s.0, ended))
      × (s.1.port_hub.ports ≡ [])

  some_arrive :
      (done : List TunnelMsg) (w : Writer c valid)
      → process_tunnel_read c key w.written ≡ (all_to_server done, ended)
      → (n : ℕ) → IsFront (process_tunnel_read c key (take n w.written)).0 (all_to_server done)
  some_arrive done w reads n =
      let (rest, front) = process_tunnel_read-IsFront c (drop n w.written) key (take n w.written) in
      (
        rest,
        ap (λ r. r.0) (sym (ap (process_tunnel_read c key) (take-append-drop n w.written) ∙ reads))
            ∙ front,
      )

  -- Over the connections of a tunnel, with any stream cipher, counters of 8 bytes and messages whose
  -- numbers and lengths fit their fields: the tunnel's messages are shared out among the connections
  -- in order, and what is left waits for the next connection. At the end of a connection one message
  -- at most is taken without being written; the others are written to its stream. Of those, from the
  -- first `n` bytes written, for any `n`, the server of the connection reads a front, as it means
  -- them, each once and in order, and from all the bytes it reads all. No connection keeps a port.
  pub core_loop-Shared :
      (connections : List Connection) (msgs : List (Surroundings × TunnelMsg))
      → All IsCounted connections
      → All (λ m. IsSendable m.1) msgs
      → let (served, left) = core_loop c valid tid key connections msgs in
        Shared (map (λ m. m.1) msgs) served (map (λ m. m.1) left) × All IsRead served
  unfolding core_loop core_task clear_ports
  core_loop-Shared [] msgs counted all = (refl, tt)
  core_loop-Shared (refused ∷ connections) msgs (_, counted) all =
      core_loop-Shared connections msgs counted all
  core_loop-Shared (unheard ∷ connections) msgs (_, counted) all =
      core_loop-Shared connections msgs counted all
  core_loop-Shared (heard ctr now ∷ connections) msgs (size, counted) all =
      let (done, w) = process_tunnel_write c valid key ctr now (new tid) msgs in
      let (reads, (rest, took, why)) =
        process_tunnel_read-process_tunnel_write c valid laws key ctr now (new tid) msgs size all in
      let n : ℕ = suc (length done) in
      let (shared, read) =
        core_loop-Shared connections (drop n msgs) counted
          (All-drop (λ m. IsSendable m.1) n msgs all) in
      let (lost, falls, one) = one_off (map (λ m. m.1) rest) in
      let left : drop 1 (map (λ m. m.1) rest) ≡ map (λ m. m.1) (drop n msgs) =
        sym (map-drop (λ m. m.1) n msgs ∙ ap (drop n) took ∙ drop_past done _) in
      (
        (
          lost,
          map (λ m. m.1) (drop n msgs),
          took ∙ ap (◌++◌ done) (falls ∙ ap (◌++◌ lost) left),
          one,
          shared,
        ),
        ((some_arrive done w reads, reads, refl), read),
      )
