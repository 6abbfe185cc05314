-- ===== src/Tunnel/Acts.antt =====
-- src/server.rs, src/proxy/mod.rs: what a task of a port does, seen from outside.
use stunnel.Base.{List, [], ◌∷◌, ◌++◌, Bytes}

-- `std::net::Shutdown`
pub data Shutdown : Type 0 where
  read : Shutdown
  write : Shutdown
  both : Shutdown

-- A message to the tunnel, a call on the TCP stream, or the loss of the channel's receiver.
pub data Act (M : Type 0) : Type 0 where
  sends : M → Act M
  writes : Bytes → Act M
  shuts : Shutdown → Act M
  drains : Act M

module _ {M : Type 0} where
  -- The messages among the acts, in order.
  unfoldable pub sent : List (Act M) → List M
  sent [] = []
  sent (sends m ∷ acts) = m ∷ sent acts
  sent (writes bs ∷ acts) = sent acts
  sent (shuts how ∷ acts) = sent acts
  sent (drains ∷ acts) = sent acts

  -- The bytes that the TCP stream takes, in order.
  unfoldable pub written : List (Act M) → Bytes
  written [] = []
  written (sends m ∷ acts) = written acts
  written (writes bs ∷ acts) = bs ++ written acts
  written (shuts how ∷ acts) = written acts
  written (drains ∷ acts) = written acts
