-- ===== src/Tunnel/ToClient.antt =====
-- src/client.rs and src/server.rs: what the client reads is what the server wrote.
pub mod Loop
use stunnel.Base.{
  ℕ, ◌%◌, ◌^◌, ◌<◌, ◌≡◌, refl, sym, ◌∙◌, false, some, List, [], ◌∷◌, ◌++◌, append_assoc, Bytes,
  IsU32, length, ◌==◌, if◌then◌else◌, be_u32, from_be_one, from_be-be_u32, length-be_u32, arith,
}
use stunnel.Tunnel.{Cipher, IsStreamCipher}
use stunnel.Tunnel.Exact.{read_exact-append}
use stunnel.Client as Client
use stunnel.Client.Reads as Reads
use stunnel.Server as Server
use stunnel.Protocol.{
  pack_sc_close_port_msg, pack_sc_shutdown_write_msg, pack_sc_connect_ok_msg, pack_sc_data_msg,
  pack_sc_heartbeat_rsp_msg,
}
use stunnel.Protocol.Layout.{pack_cmd_id_msg_lem, pack_cmd_id_data_msg_lem}
use stunnel.Protocol.Sc

-- What a message that the server handles means to the client, if anything is sent.
unfoldable pub to_client : Server.TunnelMsg → List Client.TunnelMsg
to_client Server.cs_heartbeat = Client.sc_heartbeat ∷ []
to_client (Server.sc_close_port id) = Client.sc_close_port id ∷ []
to_client (Server.sc_shutdown_write id) = Client.sc_shutdown_write id ∷ []
to_client (Server.sc_connect_ok id buf) = Client.sc_connect_ok id buf ∷ []
to_client (Server.sc_data id buf) = Client.sc_data id buf ∷ []
to_client _ = []

unfoldable pub all_to_client : List Server.TunnelMsg → List Client.TunnelMsg
all_to_client [] = []
all_to_client (m ∷ msgs) = to_client m ++ all_to_client msgs

-- The ranges that the Rust types give, and lengths that fit their field.
abbrev pub IsSendable : Server.TunnelMsg → Type 0
IsSendable (Server.sc_close_port id) = IsU32 id
IsSendable (Server.sc_shutdown_write id) = IsU32 id
IsSendable (Server.sc_connect_ok id buf) = IsU32 id × IsU32 (length buf)
IsSendable (Server.sc_data id buf) = IsU32 id × IsU32 (length buf)
IsSendable _ = Unit

module _ (c : Cipher) (laws : IsStreamCipher c) where
  -- The bytes that a message makes the server write, and the cryptor behind them.
  unfoldable pub encoded : c.Cryptor → Server.TunnelMsg → Bytes × c.Cryptor
  encoded k Server.cs_heartbeat = (pack_sc_heartbeat_rsp_msg, k)
  encoded k (Server.sc_close_port id) = (pack_sc_close_port_msg id, k)
  encoded k (Server.sc_shutdown_write id) = (pack_sc_shutdown_write_msg id, k)
  encoded k (Server.sc_connect_ok id buf) =
      let (data_bytes, k') = c.encrypt k buf in (pack_sc_connect_ok_msg id data_bytes, k')
  encoded k (Server.sc_data id buf) =
      let (data_bytes, k') = c.encrypt k buf in (pack_sc_data_msg id data_bytes, k')
  encoded k _ = ([], k)

  -- A turn of the client's loop on the bytes of one message, which mean these messages.
  abbrev pub TurnsTo : List Client.TunnelMsg → Server.TunnelMsg → c.Cryptor → Bytes → Type 0
  TurnsTo [] m k rest = (encoded k m).0 ≡ [] × ((encoded k m).1 ≡ k)
  TurnsTo (got ∷ []) m k rest =
      (0 < length (encoded k m).0)
      × (Reads.read_turn c k ((encoded k m).0 ++ rest) ≡ some (Reads.got got (encoded k m).1 rest))
  TurnsTo (_ ∷ _ ∷ _) m k rest = ⊥

  abbrev pub Turns : Server.TunnelMsg → c.Cryptor → Bytes → Type 0
  Turns m k rest = TurnsTo (to_client m) m k rest

  read_turn-read_rest :
      (op id : ℕ) (k : c.Cryptor) (rest : Bytes)
      → (op == Sc.heartbeat_rsp) ≡ false
      → IsU32 id
      → Reads.read_turn c k ((op ∷ be_u32 id) ++ rest) ≡ Reads.read_rest c op id k rest
  unfolding Reads.read_turn Reads.read_op
  read_turn-read_rest op id k rest other small =
      rw
        (
          read_exact-append 1 (op ∷ []) (be_u32 id ++ rest) refl,
          from_be_one op,
          other,
          read_exact-append 4 (be_u32 id) rest (sym (length-be_u32 id)),
          from_be-be_u32 id small,
        )
        refl

  -- The message that carries data under one of the two operations.
  abbrev data_msg : ℕ → ℕ → Bytes → Client.TunnelMsg
  data_msg op id buf =
      if op == Sc.connect_ok then Client.sc_connect_ok id buf else Client.sc_data id buf

  read_data-lem :
      (op id : ℕ) (k : c.Cryptor) (buf rest : Bytes)
      → IsU32 (length buf)
      → let (data_bytes, k') = c.encrypt k buf in
        Reads.read_data c op id k (be_u32 (length data_bytes % 2 ^ 32) ++ (data_bytes ++ rest))
        ≡ some (Reads.got (data_msg op id buf) k' rest)
  unfolding Reads.read_data
  read_data-lem op id k buf rest small =
      let data_bytes = (c.encrypt k buf).0 in
      let whole : length data_bytes % 2 ^ 32 ≡ length data_bytes =
        omega (arith, laws.length-encrypt k buf) in
      rw
        (
          whole,
          read_exact-append 4 (be_u32 (length data_bytes)) (data_bytes ++ rest)
              (sym (length-be_u32 _)),
          from_be-be_u32 (length data_bytes) (omega (arith, laws.length-encrypt k buf)),
          read_exact-append (length data_bytes) data_bytes rest refl,
          laws.decrypt-encrypt k buf,
        )
        refl

  read_turn_data :
      (op id : ℕ) (len bs rest : Bytes) (k : c.Cryptor)
      → (op == Sc.heartbeat_rsp) ≡ false
      → IsU32 id
      → Reads.read_turn c k ((op ∷ be_u32 id ++ (len ++ bs)) ++ rest)
        ≡ Reads.read_rest c op id k (len ++ (bs ++ rest))
  read_turn_data op id len bs rest k other small =
      rw (append_assoc (be_u32 id) (len ++ bs) rest, append_assoc len bs rest)
        (read_turn-read_rest op id k (len ++ (bs ++ rest)) other small)

  pub read_turn-encoded :
      (m : Server.TunnelMsg) (k : c.Cryptor) (rest : Bytes) → IsSendable m → Turns m k rest
  unfolding encoded to_client Reads.read_turn Reads.read_rest pack_sc_close_port_msg
      pack_sc_shutdown_write_msg pack_sc_connect_ok_msg pack_sc_data_msg pack_sc_heartbeat_rsp_msg
  read_turn-encoded Server.cs_heartbeat k rest h =
      rw (read_exact-append 1 (Sc.heartbeat_rsp ∷ []) rest refl, from_be_one Sc.heartbeat_rsp)
        (omega arith, refl)
  read_turn-encoded (Server.sc_close_port id) k rest h =
      rw (pack_cmd_id_msg_lem Sc.close_port id)
        (omega arith, read_turn-read_rest Sc.close_port id k rest refl h)
  read_turn-encoded (Server.sc_shutdown_write id) k rest h =
      rw (pack_cmd_id_msg_lem Sc.shutdown_write id)
        (omega arith, read_turn-read_rest Sc.shutdown_write id k rest refl h)
  read_turn-encoded (Server.sc_connect_ok id buf) k rest (h, small) =
      rw (pack_cmd_id_data_msg_lem Sc.connect_ok id (c.encrypt k buf).0) (
        omega arith,
        read_turn_data Sc.connect_ok id _ _ rest k refl h
            ∙ read_data-lem Sc.connect_ok id k buf rest small,
      )
  read_turn-encoded (Server.sc_data id buf) k rest (h, small) =
      rw (pack_cmd_id_data_msg_lem Sc.data_msg id (c.encrypt k buf).0) (
        omega arith,
        read_turn_data Sc.data_msg id _ _ rest k refl h
            ∙ read_data-lem Sc.data_msg id k buf rest small,
      )
  read_turn-encoded (Server.cs_open_port id) k rest h = (refl, refl)
  read_turn-encoded (Server.cs_close_port id) k rest h = (refl, refl)
  read_turn-encoded (Server.cs_shutdown_write id) k rest h = (refl, refl)
  read_turn-encoded (Server.cs_connect_dn id domain port) k rest h = (refl, refl)
  read_turn-encoded (Server.cs_data op id buf) k rest h = (refl, refl)
  read_turn-encoded (Server.tunnel_port_half_drop id) k rest h = (refl, refl)
  read_turn-encoded Server.heartbeat k rest h = (refl, refl)
  read_turn-encoded Server.close_tunnel k rest h = (refl, refl)
