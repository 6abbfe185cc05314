-- ===== src/Programs/Client.antt =====
-- src/bin/stunnel_client.rs: the arguments that matter, the tunnels, and how streams are given to them.
pub mod Fair
use stunnel.Base.{
  ℕ, zero, suc, ◌+◌, ◌%◌, ◌>>=◌, Bool, true, false, ◌||◌, Option, none, some, List, [], ◌∷◌, ◌++◌,
  Bytes, length, ltb, ◌==◌, if◌then◌else◌,
}
use stunnel.Util.{SubSenders, get_elem?}
use stunnel.Util.Bus.{channel_bus}
use stunnel.Client.{Tunnel, TunnelPort, open_port}
use stunnel.Cryptor.{key_size_range}

-- What `main` reads: the key, the count of tunnels, `none` where it is not a u32, and the flag for UCP.
pub record Options : Type 0 where
  pub key : Bytes
  pub tunnel_count : Option ℕ
  pub enable_ucp : Bool

unfoldable pub count : Option ℕ → ℕ
count none = 1
count (some zero) = 1
count (some (suc n)) = suc n

-- `TcpTunnel::new` and `UcpTunnel::new`, without the task, on a bus of ten channels and the main one.
unfoldable pub new_tunnel : ℕ → Tunnel
new_tunnel fresh =
    let (main_sender, sub_senders, receivers) = channel_bus fresh 10 in
    record { id = 1; senders = sub_senders; opened = [] }

unfoldable pub new_tunnels : ℕ → ℕ → List Tunnel
new_tunnels fresh zero = []
new_tunnels fresh (suc n) = new_tunnel fresh ∷ new_tunnels (fresh + 11) n

-- `none` where the length of the key is out of range.
unfoldable pub start : Options → Option (List Tunnel)
start opts =
    let (min, max) = key_size_range in
    if ltb (length opts.key) min || ltb max (length opts.key)
    then none
    else some (new_tunnels 0 (if opts.enable_ucp then 1 else count opts.tunnel_count))

pub data ProxyKind : Type 0 where
  http : ProxyKind
  socks5 : ProxyKind

-- A task `run_proxy_tunnel`: the proxy, the number of the tunnel and the port.
pub record Served : Type 0 where
  pub proxy : ProxyKind
  pub tunnel : ℕ
  pub port : TunnelPort

pub record Serving : Type 0 where
  pub tunnels : List Tunnel
  pub index : ℕ
  pub served : List Served

-- `tunnels[index] = tunnel`
unfoldable pub set : List Tunnel → ℕ → Tunnel → List Tunnel
set [] i t = []
set (x ∷ xs) zero t = t ∷ xs
set (x ∷ xs) (suc i) t = x ∷ set xs i t

-- A stream that comes: the port of its local address, or `none` on an error; `channel` is the port's new channel.
-- The outer `none` is a panic.
unfoldable pub serve : ℕ → Serving → ℕ → Option ℕ → Option Serving
serve http_port s channel none = some s
serve http_port s channel (some local_port) = do
  tunnel ← get_elem? s.tunnels s.index
  (port, tunnel') ← open_port tunnel channel
  some (record {
    tunnels = set s.tunnels s.index tunnel';
    index = (s.index + 1) % length s.tunnels;
    served =
        s.served
        ++ record {
          proxy = if local_port == http_port then http else socks5;
          tunnel = s.index;
          port = port;
        }
          ∷ [];
  })

unfoldable pub run_proxy_tunnels : ℕ → Serving → List (ℕ × Option ℕ) → Option Serving
run_proxy_tunnels http_port s [] = some s
run_proxy_tunnels http_port s (e ∷ streams) = do
  s' ← serve http_port s e.0 e.1
  run_proxy_tunnels http_port s' streams
