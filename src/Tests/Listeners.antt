-- ===== src/Tests/Listeners.antt =====
-- src/ucp/listener.rs: the theorems on the listener, applied to one that has no stream yet.
use stunnel.Base.{
  ℕ, ◌≤◌, ◌<◌, ◌≡◌, refl, ◌⊎◌, true, false, inl, inr, Bool-cases, addr_eq, [], ◌∷◌, Option, none,
  some, SocketAddr, millis_since, arith,
}
use stunnel.Ucp.Packet.{parse, received}
use stunnel.Ucp.Listener.{UcpListener, bind, arrival, remove_dead_stream}
use stunnel.Ucp.Listener.Addresses.{get, addr_eq→eq}
use stunnel.Ucp.Stream.{new, die}
use stunnel.Ucp.Listener.Agrees.{IsListener, stream_of, if_alive, remove_dead_stream_lem}
use stunnel.Ucp.Listener.Dispatch.{Dispatched, arrival-Dispatched}
use stunnel.Tests.Machines.{peer, listening, opening}

abbrev bound : UcpListener
bound = bind (λ _. listening) 0

bound-IsListener : IsListener bound
unfolding bind get
bound-IsListener = record { agree = λ a. refl; unique = tt; known = λ a h e. absurd (cc e) }

arrival-Dispatched_example :
    let (packet, legal) = parse (λ _. 7) (received opening) in
    (l' : UcpListener) × (made : Option ℕ) × (arrival (λ _. 7) bound 5000000 (some (opening, peer))
      ≡ some (l', made))
    × (((legal ≡ true) × Dispatched (λ _. 7) bound 5000000 packet peer l' made)
        ⊎ ((legal ≡ false) × (l' ≡ bound) × (made ≡ none)))
arrival-Dispatched_example =
    arrival-Dispatched (λ _. 7) bound 5000000 opening peer bound-IsListener (omega arith)

-- The stream of one address, which has died.
abbrev serving : UcpListener
serving = record bound {
  metrics_map = (peer, 0) ∷ [];
  stream_map = (peer, 0) ∷ [];
  streams = λ _. die listening;
  next = 1;
}

serving-IsListener : IsListener serving
unfolding get new die
serving-IsListener = record { agree = λ a. refl; unique = (refl, tt); known = known_one }
  where
    known_one : (a : SocketAddr) (h : ℕ) → get a ((peer, 0) ∷ []) ≡ some h → (h < 1) × (peer ≡ a)
    known_one a h e = elim (Bool-cases (addr_eq peer a)) [
      | inl same ↦
          let zero_is : 0 ≡ h = cc (rw same at e) in
          (rw (← zero_is) (omega arith), addr_eq→eq peer a same)
      | inr other ↦ absurd (cc (rw other at e))
    ]

remove_dead_stream_lem_example :
    IsListener (remove_dead_stream serving 2000000000)
    × (((millis_since 2000000000 serving.timestamp < 1000)
          × (remove_dead_stream serving 2000000000 ≡ serving))
        ⊎ ((1000 ≤ millis_since 2000000000 serving.timestamp)
            × ((remove_dead_stream serving 2000000000).timestamp ≡ 2000000000)
            × ((addr : SocketAddr)
                → stream_of (remove_dead_stream serving 2000000000) addr
                  ≡ if_alive (stream_of serving addr))))
remove_dead_stream_lem_example = remove_dead_stream_lem serving 2000000000 serving-IsListener
