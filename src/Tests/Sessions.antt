-- ===== src/Tests/Sessions.antt =====
-- src/ucp/internal.rs, src/ucp/stream.rs: the theorems on the opening of a session and on the end of a stream's
-- tasks, applied.
use stunnel.Base.{◌≡◌, ◌⊎◌, refl, true, false, List, some, none, [], ◌∷◌, ◌++◌, arith}
use stunnel.Ucp.Stream.{new, new_metrics, die, update_metrics}
use stunnel.Ucp.Tasks.{
  Sending, Receiving, UcpStream, Event, slept, checked, waited, took, dispatched, shut_down, step,
  run,
}
use stunnel.Ucp.Tasks.Ending.{has_input, run-silent}
use stunnel.Ucp.Session.Run.{Times, Opened}
use stunnel.Ucp.Session.Opening.{opens_session}
use stunnel.Tests.Machines.{peer, opening}

abbrev client_times : Times
client_times = record { created = 0; begun = 1; sent_at = 10000000; ended = 60000000 }

abbrev server_times : Times
server_times = record { created = 30000000; begun = 30000000; sent_at = 40000000; ended = 90000000 }

opens_session_example : Opened (λ _. 7) peer peer 99 client_times server_times
opens_session_example =
    opens_session (λ _. 7) (λ _. omega arith) peer peer 99 (omega arith) client_times server_times
      (omega arith) (omega arith)

-- A stream that has opened, with a reader that waits and a datagram that came.
abbrev silent : UcpStream
silent = record {
  inner = record (new peer new_metrics 0) { read_waker = some 8 };
  sending = Sending.sleeping;
  receiving = Receiving.holding opening peer;
}

abbrev then_events : List Event
then_events =
    shut_down ∷ took 20000000001 ∷ dispatched 20000000002 opening peer ∷ checked ∷ waited none ∷ []

run-silent_example :
    let killed = record silent {
      inner = update_metrics (die silent.inner);
      sending = Sending.checking;
    } in
    (s' : UcpStream) × (run (λ _. 7) silent (slept 20000000000 ∷ then_events) ≡ some s')
    × (step (λ _. 7) silent (slept 20000000000) ≡ some killed)
    × (killed.inner.woken ≡ (silent.inner.woken ++ 8 ∷ []) ++ [])
    × (killed.inner.socket ≡ silent.inner.socket)
    × (s'.inner.alive ≡ false)
    × (s'.sending ≡ Sending.ended)
    × (s'.receiving ≡ Receiving.ended)
    × ((has_input then_events ≡ true) ⊎ (s'.inner.socket ≡ silent.inner.socket))
unfolding new
run-silent_example = run-silent (λ _. 7) silent 20000000000 then_events refl (omega arith)
