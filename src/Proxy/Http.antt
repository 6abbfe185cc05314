-- ===== src/Proxy/Http.antt =====
-- src/proxy/http.rs: the handshake of an HTTP proxy. The crate async_h1, which parses the request and prints the
-- response, is a parameter.
use stunnel.Base.{
  ℕ, Bool, Option, none, some, [], ◌∷◌, ◌++◌, Bytes, ◌==◌, ◌-◌, if◌then◌else◌, SocketAddr,
}
use stunnel.Proxy.{Destination, domain_name, unknown, M, Proxy}

-- What the code asks of a request: whether its method is CONNECT, the host of its URL, and the port, that of
-- the URL's scheme where none is written.
pub record Request : Type 0 where
  pub is_connect : Bool
  pub host_str : Option Bytes
  pub port_or_known_default : Option ℕ

-- `decode` gives `none` on an error or where no request comes, and the bytes left; a response is bytes by its
-- status.
pub record AsyncH1 : Type 0 where
  pub decode : Bytes → Option Request × Bytes
  pub encode : ℕ → Bytes

module _ (h1 : AsyncH1) where
  unfoldable pub target : Option Request → Destination
  target none = unknown
  target (some request) =
      connect_target request.is_connect request.host_str request.port_or_known_default
    where
      connect_target : Bool → Option Bytes → Option ℕ → Destination
      connect_target is_connect (some host) (some port) =
          if is_connect then domain_name host port else unknown
      connect_target is_connect (some host) none = unknown
      connect_target is_connect none port = unknown

  -- It gives no error.
  unfoldable pub handshake : M Destination
  handshake conn =
      let (request, rest) = h1.decode conn.unread in
      (some (target request), record conn { unread = rest })

  -- `io::copy` of the encoder to the stream, as one write.
  unfoldable pub copy : ℕ → M (Unit {0})
  copy status conn = if conn.takes == 0 then (none, conn) else (
    some tt,
    record conn { replies = conn.replies ++ h1.encode status ∷ []; takes = conn.takes - 1 },
  )

  unfoldable pub destination_unreached : M (Unit {0})
  destination_unreached = copy 404

  unfoldable pub destination_connected : SocketAddr → M (Unit {0})
  destination_connected bind_addr = copy 200

  -- `impl Proxy for Http`
  unfoldable pub http : Proxy
  http = record {
    handshake = handshake;
    destination_unreached = destination_unreached;
    destination_connected = destination_connected;
  }
