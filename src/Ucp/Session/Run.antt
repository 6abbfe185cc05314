-- ===== src/Ucp/Session/Run.antt =====
-- src/ucp/stream.rs, src/ucp/listener.rs, src/ucp/internal.rs: the run of three datagrams that opens a session.
use stunnel.Base.{ℕ, ◌≡◌, some, [], ◌∷◌, Bytes, SocketAddr}
use stunnel.Ucp.State.{UcpState}
use stunnel.Ucp.Stream.{InnerStream, new, new_metrics}
use stunnel.Ucp.Stream.Output.{output}
use stunnel.Ucp.Stream.Machine.{input}
use stunnel.Ucp.Session.Datagrams.{arrived, Accepted, client_opening}

-- The stream has a session with the peer, and nothing to send again.
pub record InSession (session_id : ℕ) (s : InnerStream) : Type 0 where
  pub state_is : s.state ≡ UcpState.established
  pub session_id_is : s.session_id ≡ session_id
  pub una_is : s.una ≡ 2
  pub send_queue_is : s.send_queue ≡ []

-- The clock of a stream when it is made, when it takes or makes its first packet, at its first output and when
-- it takes its second packet.
pub record Times : Type 0 where
  pub created : ℕ
  pub begun : ℕ
  pub sent_at : ℕ
  pub ended : ℕ

module _ (crc : Bytes → ℕ) (client server : SocketAddr) (random : ℕ) (c s : Times) where
  abbrev pub connecting_stream : InnerStream
  connecting_stream = client_opening crc server random c.created c.begun c.sent_at

  -- The run: each end sends what the other takes.
  pub record Opened : Type 0 where
    pub syn : Bytes
    pub syn_ack : Bytes
    pub ack : Bytes
    pub accepting_stream : InnerStream
    pub client_stream : InnerStream
    pub server_stream : InnerStream
    pub sends_syn : connecting_stream.socket ≡ (syn, server) ∷ []
    pub takes_syn :
        Accepted crc syn
        × (input crc (new client new_metrics s.created) s.begun (arrived crc syn) client
            ≡ some accepting_stream)
    pub sends_syn_ack : (output crc accepting_stream s.sent_at).socket ≡ (syn_ack, client) ∷ []
    pub takes_syn_ack :
        Accepted crc syn_ack
        × (input crc connecting_stream c.ended (arrived crc syn_ack) server ≡ some client_stream)
    pub sends_ack : client_stream.socket ≡ (syn, server) ∷ (ack, server) ∷ []
    pub takes_ack :
        Accepted crc ack
        × (input crc (output crc accepting_stream s.sent_at) s.ended (arrived crc ack) client
            ≡ some server_stream)
    pub client_is : InSession random client_stream
    pub server_is : InSession random server_stream
