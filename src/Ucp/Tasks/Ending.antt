-- ===== src/Ucp/Tasks/Ending.antt =====
-- src/ucp/stream.rs, src/ucp/internal.rs: how the tasks of a stream end.
use stunnel.Base.{
  ◌>>=◌, ℕ, ◌≤◌, ◌≡◌, ◌⊎◌, inl, inr, ◌≢◌, refl, sym, ap, ◌∙◌, Bool, true, false, ◌||◌, SocketAddr,
  Option, some, List, [], ◌∷◌, ◌++◌, Bytes, if◌then◌else◌, millis_since, arith,
}
use stunnel.Ucp.{ucp_stream_broken_millis}
use stunnel.Ucp.Stream.{called, die, shutdown, update_metrics}
use stunnel.Ucp.Stream.Machine.{poll_read, poll_write}
use stunnel.Ucp.Stream.Output.Alive.{output-silent}
use stunnel.Ucp.Tasks.Arrivals.{take_in-alive}
use stunnel.Ucp.Tasks.{
  Sending, Receiving, UcpStream, send_output, send_check, recv_check, recv_input, Event, slept,
  checked, waited, took, dispatched, polled_read, polled_write, shut_down, step, run,
}

abbrev is_checked : Event → Bool
is_checked checked = true
is_checked _ = false

abbrev is_input : Event → Bool
is_input (took now) = true
is_input (dispatched now datagram addr) = true
is_input _ = false

-- The task `send` tests `alive` in the events.
abbrev pub has_checked : List Event → Bool
has_checked [] = false
has_checked (e ∷ events) = is_checked e || has_checked events

-- A datagram is taken in.
abbrev pub has_input : List Event → Bool
has_input [] = false
has_input (e ∷ events) = is_input e || has_input events

-- Where `recv` is after an event: it takes in what it holds, and ends at its next test of `alive`.
abbrev tested_at : Receiving → Receiving
tested_at Receiving.waiting = Receiving.ended
tested_at r = r

abbrev taken_at : Receiving → Receiving
taken_at (Receiving.holding datagram addr) = Receiving.waiting
taken_at r = r

abbrev recv_then : Event → Receiving → Receiving
recv_then (waited result) r = tested_at r
recv_then (took now) r = taken_at r
recv_then _ r = r

abbrev pub recv_after : Receiving → List Event → Receiving
recv_after r [] = r
recv_after r (e ∷ events) = recv_after (recv_then e r) events

abbrev send_after : Sending → Bool → Sending
send_after at tested = if tested then Sending.ended else at

-- A stream that is dead, while its task `send` is about to test `alive` or has ended.
pub record Closing (s : UcpStream) : Type 0 where
  pub dead : s.inner.alive ≡ false
  pub awake : s.sending ≢ Sending.sleeping

-- What an event leaves of it.
pub record Closes (s : UcpStream) (tested input : Bool) (at : Receiving) (s' : UcpStream)
    : Type 0 where
  pub dead : s'.inner.alive ≡ false
  pub sending_is : s'.sending ≡ send_after s.sending tested
  pub receiving_is : s'.receiving ≡ at
  pub quiet : input ≡ false → s'.inner.socket ≡ s.inner.socket

same : (s : UcpStream) → s.inner.alive ≡ false → Closes s false false s.receiving s
same s dead = record { dead = dead; sending_is = refl; receiving_is = refl; quiet = λ h. refl }

module _ (crc : Bytes → ℕ) where
  slept-Closes :
      (at : Sending) (s : UcpStream) (now : ℕ)
      → s.inner.alive ≡ false
      → at ≢ Sending.sleeping
      → send_output at crc s now ≡ s
  unfolding send_output
  slept-Closes Sending.sleeping s now dead awake = absurd (awake refl)
  slept-Closes Sending.checking s now dead awake = refl
  slept-Closes Sending.ended s now dead awake = refl

  checked-Closes :
      (at : Sending) (s : UcpStream)
      → s.inner.alive ≡ false
      → at ≢ Sending.sleeping
      → s.sending ≡ at
      → send_check at s ≡ record s { sending = Sending.ended }
  unfolding send_check
  checked-Closes Sending.sleeping s dead awake is = absurd (awake refl)
  checked-Closes Sending.checking s dead awake is = rw dead refl
  checked-Closes Sending.ended s dead awake is = ap (λ a. record s { sending = a }) is

  waited-Closes :
      (at : Receiving) (s : UcpStream) (result : Option (Bytes × SocketAddr))
      → s.inner.alive ≡ false
      → s.receiving ≡ at
      → recv_check at s result ≡ record s { receiving = tested_at at }
  unfolding recv_check
  waited-Closes Receiving.waiting s result dead is = rw dead refl
  waited-Closes (Receiving.holding datagram addr) s result dead is =
      ap (λ r. record s { receiving = r }) is
  waited-Closes Receiving.ended s result dead is = ap (λ r. record s { receiving = r }) is

  took-Closes :
      (at : Receiving) (s : UcpStream) (now : ℕ)
      → s.inner.alive ≡ false
      → s.receiving ≡ at
      → (s' : UcpStream) × (recv_input at crc s now ≡ some s')
        × Closes s false true (taken_at at) s'
  unfolding recv_input
  took-Closes Receiving.waiting s now dead is =
      (s, refl, record { dead = dead; sending_is = refl; receiving_is = is; quiet = λ h. refl })
  took-Closes (Receiving.holding datagram addr) s now dead is =
      let (inner, took_in, kept) = take_in-alive crc s.inner now datagram addr in
      (
        record s { inner = inner; receiving = Receiving.waiting },
        rw took_in refl,
        record {
          dead = kept ∙ dead;
          sending_is = refl;
          receiving_is = refl;
          quiet = λ h. absurd (cc h);
        },
      )
  took-Closes Receiving.ended s now dead is =
      (s, refl, record { dead = dead; sending_is = refl; receiving_is = is; quiet = λ h. refl })

  step-Closes :
      (s : UcpStream) (e : Event)
      → Closing s
      → (s' : UcpStream) × (step crc s e ≡ some s')
        × Closes s (is_checked e) (is_input e) (recv_then e s.receiving) s'
  unfolding step poll_read poll_write die
  step-Closes s (slept now) closing =
      (s, ap some (slept-Closes s.sending s now closing.dead closing.awake), same s closing.dead)
  step-Closes s checked closing = (
    record s { sending = Sending.ended },
    ap some (checked-Closes s.sending s closing.dead closing.awake refl),
    record { dead = closing.dead; sending_is = refl; receiving_is = refl; quiet = λ h. refl },
  )
  step-Closes s (waited result) closing = (
    record s { receiving = tested_at s.receiving },
    ap some (waited-Closes s.receiving s result closing.dead refl),
    record { dead = closing.dead; sending_is = refl; receiving_is = refl; quiet = λ h. refl },
  )
  step-Closes s (took now) closing = took-Closes s.receiving s now closing.dead refl
  step-Closes s (dispatched now datagram addr) closing =
      let (inner, took_in, kept) = take_in-alive crc s.inner now datagram addr in
      (
        record s { inner = inner },
        rw took_in refl,
        record {
          dead = kept ∙ closing.dead;
          sending_is = refl;
          receiving_is = refl;
          quiet = λ h. absurd (cc h);
        },
      )
  step-Closes s (polled_read waker room) closing = (s, rw closing.dead refl, same s closing.dead)
  step-Closes s (polled_write now waker buf) closing =
      (s, rw closing.dead refl, same s closing.dead)
  step-Closes s shut_down closing = (
    record s { inner = shutdown s.inner },
    refl,
    record { dead = refl; sending_is = refl; receiving_is = refl; quiet = λ h. refl },
  )

  Closes-twice :
      (s s' s'' : UcpStream) (x y x' y' : Bool) (r r' : Receiving)
      → Closes s x y r s'
      → Closes s' x' y' r' s''
      → Closes s (x || x') (y || y') r' s''
  Closes-twice s s' s'' x y x' y' r r' h h' = record {
    dead = h'.dead;
    sending_is = h'.sending_is ∙ ap (λ at. send_after at x') h.sending_is ∙ both s.sending x x';
    receiving_is = h'.receiving_is;
    quiet = λ none_in. h'.quiet (ground arith) ∙ h.quiet (ground arith);
  }
    where
      both :
          (at : Sending) (x x' : Bool) → send_after (send_after at x) x' ≡ send_after at (x || x')
      both at true true = refl
      both at true false = refl
      both at false x' = refl

  awake_still :
      (at : Sending) (x : Bool) → at ≢ Sending.sleeping → send_after at x ≢ Sending.sleeping
  awake_still at true h e = cc e
  awake_still at false h e = h e

  -- A stream that is closing stays dead and does not panic, whatever comes and whatever its owner does.
  run-Closes :
      (events : List Event) (s : UcpStream)
      → Closing s
      → (s' : UcpStream) × (run crc s events ≡ some s')
        × Closes s (has_checked events) (has_input events) (recv_after s.receiving events) s'
  unfolding run
  run-Closes [] s closing = (s, refl, same s closing.dead)
  run-Closes (e ∷ events) s closing =
      let (s1, stepped, first) = step-Closes s e closing in
      let closing1 : Closing s1 = record {
        dead = first.dead;
        awake = λ sleeps.
            awake_still s.sending (is_checked e) closing.awake (sym first.sending_is ∙ sleeps);
      } in
      let (s2, ran, later) = run-Closes events s1 closing1 in
      let rest = Closes-twice s s1 s2 _ _ _ _ _ _ first later in
      (
        s2,
        rw stepped ran,
        record {
          dead = rest.dead;
          sending_is = rest.sending_is;
          receiving_is = rest.receiving_is ∙ ap (λ r. recv_after r events) first.receiving_is;
          quiet = rest.quiet;
        },
      )

  quiet_or : {P : Type 0} (b : Bool) → (b ≡ false → P) → (b ≡ true) ⊎ P
  quiet_or true h = inl refl
  quiet_or false h = inr (h refl)

  -- When nothing of its session has come for 20 seconds, the next output of the task `send` kills a
  -- stream, wakes its reader and its writer, and sends nothing. Whatever datagrams come then, also
  -- from a listener, and whatever the owner does, the stream stays dead, nothing panics, and nothing
  -- is sent unless a datagram is taken in. The task `send` ends at its test of `alive`; the task
  -- `recv` takes in at most the datagram that it holds, and ends at its next test.
  pub run-silent :
      (s : UcpStream) (now : ℕ) (events : List Event)
      → s.sending ≡ Sending.sleeping
      → ucp_stream_broken_millis ≤ millis_since now s.inner.alive_time
      → let killed = record s {
        inner = update_metrics (die s.inner);
        sending = Sending.checking;
      } in
        (s' : UcpStream) × (run crc s (slept now ∷ events) ≡ some s')
        × (step crc s (slept now) ≡ some killed)
        × (killed.inner.woken
            ≡ (s.inner.woken ++ called s.inner.read_waker) ++ called s.inner.write_waker)
        × (killed.inner.socket ≡ s.inner.socket)
        × (s'.inner.alive ≡ false)
        × (s'.sending ≡ (if has_checked events then Sending.ended else Sending.checking))
        × (s'.receiving ≡ recv_after s.receiving events)
        × ((has_input events ≡ true) ⊎ (s'.inner.socket ≡ s.inner.socket))
  unfolding run step send_output update_metrics die
  run-silent s now events asleep silent =
      let killed : UcpStream = record s {
        inner = update_metrics (die s.inner);
        sending = Sending.checking;
      } in
      let closing : Closing killed = record { dead = refl; awake = λ e. cc e } in
      let (s', ran, closes) = run-Closes events killed closing in
      let turn : step crc s (slept now) ≡ some killed =
        ap (λ at. some (send_output at crc s now)) asleep
        ∙ ap (λ inner. some (record s { inner = inner; sending = Sending.checking }))
            (output-silent crc now s.inner silent) in
      (
        s',
        ap (λ o. o >>= λ x. run crc x events) turn ∙ ran,
        turn,
        refl,
        refl,
        closes.dead,
        closes.sending_is,
        closes.receiving_is,
        quiet_or (has_input events) closes.quiet,
      )
