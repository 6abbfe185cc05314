-- ===== src/Ucp/Tasks.antt =====
-- src/ucp/stream.rs: `UcpStream`, the two tasks of a stream and the operations of its owner, one step each.
-- A step is what happens under the lock of the stream, or one test of `alive` outside it. An `Option` is `none`
-- where the source panics.
pub mod Arrivals
pub mod Ending
use stunnel.Base.{
  ◌>>=◌, ℕ, Bool, true, false, not, Option, some, none, List, [], ◌∷◌, Bytes, if◌then◌else◌,
  SocketAddr,
}
use stunnel.Ucp.Packet.{parse, received}
use stunnel.Ucp.Stream.{InnerStream, UcpStreamMetrics, new, shutdown}
use stunnel.Ucp.Stream.Output.{output}
use stunnel.Ucp.Stream.Machine.{connecting, input, poll_read, poll_write}

-- Where the task `send` is: in its sleep, before its test of `alive`, or at its end.
pub data Sending : Type 0 where
  sleeping : Sending
  checking : Sending
  ended : Sending

-- Where the task `recv` is: waiting for a datagram, with one that came, behind the test of `alive`, or at its end.
-- A stream that a listener made has no such task.
pub data Receiving : Type 0 where
  waiting : Receiving
  holding : Bytes → SocketAddr → Receiving
  ended : Receiving

pub record UcpStream : Type 0 where
  pub inner : InnerStream
  pub sending : Sending
  pub receiving : Receiving

-- `SocketAddr::from_str` is a parameter, and so is the random session id.
unfoldable pub connect :
    (Bytes → Option SocketAddr) → Bytes → UcpStreamMetrics → ℕ → ℕ → ℕ → Option UcpStream
connect from_str server_addr metrics created begun random = do
  remote_addr ← from_str server_addr
  let inner = connecting (new remote_addr metrics created) begun random
  some (record { inner = inner; sending = Sending.sleeping; receiving = Receiving.waiting })

-- The loop of `send`, from its sleep of 10 milliseconds to the test of `alive`.
unfoldable pub send_output : Sending → (Bytes → ℕ) → UcpStream → ℕ → UcpStream
send_output Sending.sleeping crc s now = record s {
  inner = output crc s.inner now;
  sending = Sending.checking;
}
send_output _ crc s now = s

unfoldable pub send_check : Sending → UcpStream → UcpStream
send_check Sending.checking s = record s {
  sending = if not s.inner.alive then Sending.ended else Sending.sleeping;
}
send_check _ s = s

abbrev pub held : Option (Bytes × SocketAddr) → Receiving
held none = Receiving.waiting
held (some (datagram, remote_addr)) = Receiving.holding datagram remote_addr

-- The loop of `recv`, with the datagram that came, or none after 5 seconds or an error, to the test of `alive`.
unfoldable pub recv_check : Receiving → UcpStream → Option (Bytes × SocketAddr) → UcpStream
recv_check Receiving.waiting s result = record s {
  receiving = if not s.inner.alive then Receiving.ended else held result;
}
recv_check _ s result = s

-- A datagram that came is parsed and, if it is legal, the stream's input. The loop of a listener does the same.
unfoldable pub take_in : (Bytes → ℕ) → InnerStream → ℕ → Bytes → SocketAddr → Option InnerStream
take_in crc s now datagram remote_addr =
    let (packet, legal) = parse crc (received datagram) in
    if legal then input crc s now packet remote_addr else some s

-- The loop of `recv`, from the test of `alive` on.
unfoldable pub recv_input : Receiving → (Bytes → ℕ) → UcpStream → ℕ → Option UcpStream
recv_input (Receiving.holding datagram remote_addr) crc s now = do
  inner ← take_in crc s.inner now datagram remote_addr
  some (record s { inner = inner; receiving = Receiving.waiting })
recv_input _ crc s now = some s

-- What happens to a stream: a sleep of the task `send` is over, it tests `alive`, a wait of the task `recv` is
-- over, it goes on with what came, a listener hands the stream a datagram, the owner polls a read or a write, or
-- shuts the stream down.
pub data Event : Type 0 where
  slept : ℕ → Event
  checked : Event
  waited : Option (Bytes × SocketAddr) → Event
  took : ℕ → Event
  dispatched : ℕ → Bytes → SocketAddr → Event
  polled_read : ℕ → ℕ → Event
  polled_write : ℕ → ℕ → Bytes → Event
  shut_down : Event

-- An event of a task that is elsewhere changes nothing.
unfoldable pub step : (Bytes → ℕ) → UcpStream → Event → Option UcpStream
step crc s (slept now) = some (send_output s.sending crc s now)
step crc s checked = some (send_check s.sending s)
step crc s (waited result) = some (recv_check s.receiving s result)
step crc s (took now) = recv_input s.receiving crc s now
step crc s (dispatched now datagram remote_addr) = do
  inner ← take_in crc s.inner now datagram remote_addr
  some (record s { inner = inner })
step crc s (polled_read waker room) = some (record s { inner = (poll_read s.inner waker room).1 })
step crc s (polled_write now waker buf) =
    some (record s { inner = (poll_write s.inner now waker buf).1 })
step crc s shut_down = some (record s { inner = shutdown s.inner })

unfoldable pub run : (Bytes → ℕ) → UcpStream → List Event → Option UcpStream
run crc s [] = some s
run crc s (event ∷ events) = do s' ← step crc s event; run crc s' events
