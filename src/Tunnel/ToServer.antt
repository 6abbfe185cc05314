-- ===== src/Tunnel/ToServer.antt =====
-- src/client.rs and src/server.rs: what the server reads is what the client wrote.
pub mod Loop
pub mod Reconnects
use stunnel.Base.{
  ℕ, zero, suc, ◌+◌, ◌%◌, ◌^◌, ◌<◌, ◌≤◌, ◌≡◌, refl, sym, ap, ◌∙◌, ◌>>=◌, Bool, true, false,
  Bool-cases, ◌⊎◌, inl, inr, Option, none, some, List, [], ◌∷◌, ◌++◌, append-nil, append_assoc, map,
  Bytes, IsU32, IsU16, All, length, length-append, ltb, ◌==◌, if◌then◌else◌, add_u32, sub_u32,
  be_u32, be_u16, from_be, from_be_one, from_be-be_u32, from_be-be_u16, length-be_u32,
  length-be_u16, take_all, take-append, drop-append, le→ltb, millis_since, arith,
}
use stunnel.Tunnel.{Cipher, IsStreamCipher, read_exact, Outcome, ended}
use stunnel.Tunnel.Exact.{read_exact-append}
use stunnel.Client as Client
use stunnel.Client.Writes as Writes
use stunnel.Server as Server
use stunnel.Server.Reads as Reads
use stunnel.Protocol.{
  verify_data, alive_timeout_time_ms, pack_cs_open_port_msg, pack_cs_connect_msg,
  pack_cs_connect_domain_msg, pack_cs_shutdown_write_msg, pack_cs_data_msg, pack_cs_close_port_msg,
  pack_cs_heartbeat_msg,
}
use stunnel.Protocol.Layout.{
  pack_cmd_id_msg_lem, pack_cmd_id_data_msg_lem, pack_cs_connect_domain_msg_lem,
}
use stunnel.Protocol.Cs

-- What a message of the client's means to the server, if it is sent at all.
unfoldable pub to_server : Client.TunnelMsg → List Server.TunnelMsg
to_server (Client.cs_open_port id tx) = Server.cs_open_port id ∷ []
to_server (Client.cs_connect id buf) = Server.cs_data Cs.connect id buf ∷ []
to_server (Client.cs_connect_dn id buf port) = Server.cs_connect_dn id buf port ∷ []
to_server (Client.cs_shutdown_write id) = Server.cs_shutdown_write id ∷ []
to_server (Client.cs_close_port id) = Server.cs_close_port id ∷ []
to_server (Client.cs_data id buf) = Server.cs_data Cs.data_msg id buf ∷ []
to_server Client.heartbeat = Server.cs_heartbeat ∷ []
to_server _ = []

unfoldable pub all_to_server : List Client.TunnelMsg → List Server.TunnelMsg
all_to_server [] = []
all_to_server (m ∷ msgs) = to_server m ++ all_to_server msgs

-- The ranges that the Rust types give, and lengths that fit their field.
abbrev pub IsSendable : Client.TunnelMsg → Type 0
IsSendable (Client.cs_open_port id tx) = IsU32 id
IsSendable (Client.cs_connect id buf) = IsU32 id × IsU32 (length buf)
IsSendable (Client.cs_connect_dn id buf port) = IsU32 id × IsU32 (length buf + 2) × IsU16 port
IsSendable (Client.cs_shutdown_write id) = IsU32 id
IsSendable (Client.cs_close_port id) = IsU32 id
IsSendable (Client.cs_data id buf) = IsU32 id × IsU32 (length buf)
IsSendable _ = Unit

module _ (c : Cipher) (laws : IsStreamCipher c) where
  -- The bytes of a message, and the cryptor behind it.
  unfoldable pub encoded : c.Cryptor → Client.TunnelMsg → Bytes × c.Cryptor
  encoded k (Client.cs_open_port id tx) = (pack_cs_open_port_msg id, k)
  encoded k (Client.cs_connect id buf) =
      let (data_bytes, k') = c.encrypt k buf in (pack_cs_connect_msg id data_bytes, k')
  encoded k (Client.cs_connect_dn id buf port) =
      let (data_bytes, k') = c.encrypt k buf in (pack_cs_connect_domain_msg id data_bytes port, k')
  encoded k (Client.cs_shutdown_write id) = (pack_cs_shutdown_write_msg id, k)
  encoded k (Client.cs_close_port id) = (pack_cs_close_port_msg id, k)
  encoded k (Client.cs_data id buf) =
      let (data_bytes, k') = c.encrypt k buf in (pack_cs_data_msg id data_bytes, k')
  encoded k Client.heartbeat = (pack_cs_heartbeat_msg, k)
  encoded k _ = ([], k)

  -- A turn of the server's loop on the bytes of one message, which mean these messages.
  abbrev pub TurnsTo : List Server.TunnelMsg → Client.TunnelMsg → c.Cryptor → Bytes → Type 0
  TurnsTo [] m k rest = (encoded k m).0 ≡ [] × ((encoded k m).1 ≡ k)
  TurnsTo (got ∷ []) m k rest =
      (0 < length (encoded k m).0)
      × (Reads.read_turn c k ((encoded k m).0 ++ rest) ≡ some (Reads.got got (encoded k m).1 rest))
  TurnsTo (_ ∷ _ ∷ _) m k rest = ⊥

  abbrev pub Turns : Client.TunnelMsg → c.Cryptor → Bytes → Type 0
  Turns m k rest = TurnsTo (to_server m) m k rest

  read_turn-read_rest :
      (op id : ℕ) (k : c.Cryptor) (rest : Bytes)
      → (op == Cs.heartbeat) ≡ false
      → IsU32 id
      → Reads.read_turn c k ((op ∷ be_u32 id) ++ rest) ≡ Reads.read_rest c op id k rest
  unfolding Reads.read_turn Reads.read_op
  read_turn-read_rest op id k rest other small =
      rw
        (
          read_exact-append 1 (op ∷ []) (be_u32 id ++ rest) refl,
          from_be_one op,
          other,
          read_exact-append 4 (be_u32 id) rest (sym (length-be_u32 id)),
          from_be-be_u32 id small,
        )
        refl

  read_data-lem :
      (op id : ℕ) (k : c.Cryptor) (buf rest : Bytes)
      → IsU32 (length buf)
      → let (data_bytes, k') = c.encrypt k buf in
        Reads.read_data c op id k (be_u32 (length data_bytes % 2 ^ 32) ++ (data_bytes ++ rest))
        ≡ some (Reads.got (Server.cs_data op id buf) k' rest)
  unfolding Reads.read_data
  read_data-lem op id k buf rest small =
      let data_bytes = (c.encrypt k buf).0 in
      let whole : length data_bytes % 2 ^ 32 ≡ length data_bytes =
        omega (arith, laws.length-encrypt k buf) in
      rw
        (
          whole,
          read_exact-append 4 (be_u32 (length data_bytes)) (data_bytes ++ rest)
              (sym (length-be_u32 _)),
          from_be-be_u32 (length data_bytes) (omega (arith, laws.length-encrypt k buf)),
          read_exact-append (length data_bytes) data_bytes rest refl,
          laws.decrypt-encrypt k buf,
        )
        refl

  -- A message with an id, a length and bytes, as the server splits it.
  read_turn_data :
      (op id : ℕ) (len bs rest : Bytes) (k : c.Cryptor)
      → (op == Cs.heartbeat) ≡ false
      → IsU32 id
      → Reads.read_turn c k ((op ∷ be_u32 id ++ (len ++ bs)) ++ rest)
        ≡ Reads.read_rest c op id k (len ++ (bs ++ rest))
  read_turn_data op id len bs rest k other small =
      rw (append_assoc (be_u32 id) (len ++ bs) rest, append_assoc len bs rest)
        (read_turn-read_rest op id k (len ++ (bs ++ rest)) other small)

  read_domain-lem :
      (id : ℕ) (k : c.Cryptor) (buf : Bytes) (port : ℕ) (rest : Bytes)
      → IsU32 (length buf + 2)
      → IsU16 port
      → let (data_bytes, k') = c.encrypt k buf in
        Reads.read_domain c id k
          (be_u32 (add_u32 (length data_bytes % 2 ^ 32) 2) ++ ((data_bytes ++ be_u16 port) ++ rest))
        ≡ some (Reads.got (Server.cs_connect_dn id buf port) k' rest)
  unfolding Reads.read_domain Reads.split_domain
  read_domain-lem id k buf port rest small port_small =
      rw
        (
          len_is,
          read_exact-append 4 (be_u32 len) ((data_bytes ++ be_u16 port) ++ rest)
              (sym (length-be_u32 _)),
          from_be-be_u32 len (omega (arith, same)),
          read_exact-append len (data_bytes ++ be_u16 port) rest (omega (arith, whole)),
          pos_is,
          le→ltb (length (data_bytes ++ be_u16 port)) (length data_bytes) (omega (arith, whole)),
          take-append data_bytes (be_u16 port),
          drop-append data_bytes (be_u16 port),
          take_all 2 (be_u16 port) (omega (arith, length-be_u16 port)),
          from_be-be_u16 port port_small,
          laws.decrypt-encrypt k buf,
        )
        refl
    where
      data_bytes : Bytes
      data_bytes = (c.encrypt k buf).0

      len : ℕ
      len = length data_bytes + 2

      same : length data_bytes ≡ length buf
      same = laws.length-encrypt k buf

      whole : length (data_bytes ++ be_u16 port) ≡ length data_bytes + 2
      whole = omega (arith, length-append data_bytes (be_u16 port), length-be_u16 port)

      len_is : add_u32 (length data_bytes % 2 ^ 32) 2 ≡ len
      len_is = omega (arith, same)

      pos_is : sub_u32 len 2 ≡ length data_bytes
      pos_is = omega (arith, same)

  pub read_turn-encoded :
      (m : Client.TunnelMsg) (k : c.Cryptor) (rest : Bytes) → IsSendable m → Turns m k rest
  unfolding encoded to_server Reads.read_turn Reads.read_rest pack_cs_open_port_msg
      pack_cs_connect_msg pack_cs_shutdown_write_msg pack_cs_data_msg pack_cs_close_port_msg
      pack_cs_heartbeat_msg
  read_turn-encoded (Client.cs_open_port id tx) k rest h =
      rw (pack_cmd_id_msg_lem Cs.open_port id)
        (omega arith, read_turn-read_rest Cs.open_port id k rest refl h)
  read_turn-encoded (Client.cs_connect id buf) k rest (h, small) =
      rw (pack_cmd_id_data_msg_lem Cs.connect id (c.encrypt k buf).0) (
        omega arith,
        read_turn_data Cs.connect id _ _ rest k refl h
            ∙ read_data-lem Cs.connect id k buf rest small,
      )
  read_turn-encoded (Client.cs_connect_dn id buf port) k rest (h, small, port_small) =
      rw (pack_cs_connect_domain_msg_lem id (c.encrypt k buf).0 port) (
        omega arith,
        read_turn_data Cs.connect_domain_name id _ _ rest k refl h
            ∙ read_domain-lem id k buf port rest small port_small,
      )
  read_turn-encoded (Client.cs_shutdown_write id) k rest h =
      rw (pack_cmd_id_msg_lem Cs.shutdown_write id)
        (omega arith, read_turn-read_rest Cs.shutdown_write id k rest refl h)
  read_turn-encoded (Client.cs_close_port id) k rest h =
      rw (pack_cmd_id_msg_lem Cs.close_port id)
        (omega arith, read_turn-read_rest Cs.close_port id k rest refl h)
  read_turn-encoded (Client.cs_data id buf) k rest (h, small) =
      rw (pack_cmd_id_data_msg_lem Cs.data_msg id (c.encrypt k buf).0) (
        omega arith,
        read_turn_data Cs.data_msg id _ _ rest k refl h
            ∙ read_data-lem Cs.data_msg id k buf rest small,
      )
  read_turn-encoded Client.heartbeat k rest h =
      rw (read_exact-append 1 (Cs.heartbeat ∷ []) rest refl, from_be_one Cs.heartbeat)
        (omega arith, refl)
  read_turn-encoded Client.sc_heartbeat k rest h = (refl, refl)
  read_turn-encoded (Client.sc_close_port id) k rest h = (refl, refl)
  read_turn-encoded (Client.sc_shutdown_write id) k rest h = (refl, refl)
  read_turn-encoded (Client.sc_connect_ok id buf) k rest h = (refl, refl)
  read_turn-encoded (Client.sc_data id buf) k rest h = (refl, refl)
  read_turn-encoded (Client.tunnel_port_half_drop id) k rest h = (refl, refl)
