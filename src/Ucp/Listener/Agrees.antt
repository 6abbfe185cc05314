-- ===== src/Ucp/Listener/Agrees.antt =====
-- src/ucp/listener.rs: the two maps of the listener agree, and `remove_dead_stream` keeps the streams that are alive.
use stunnel.Base.{
  ℕ, ◌<◌, ◌≡◌, refl, sym, ◌∙◌, ap, inl, inr, ◌⊎◌, Bool, true, false, not, ◌||◌, Bool-cases, Option,
  none, some, List, [], ◌∷◌, ltb, ltb→lt, ◌≤◌, if◌then◌else◌, SocketAddr, addr_eq, millis_since,
  arith,
}
use stunnel.Ucp.Stream.{InnerStream}
use stunnel.Ucp.Listener.{UcpListener, dead_keys, remove_keys, remove_dead_stream}
use stunnel.Ucp.Listener.Addresses.{
  addr_eq_self, addr_eq→eq, get, remove, get-remove_same, get-remove_other,
}

-- No address stands twice, as in a `HashMap`.
abbrev pub Unique : List (SocketAddr × ℕ) → Type 0
Unique [] = Unit
Unique (e ∷ map) = (get e.0 map ≡ none) × Unique map

pub Unique-remove :
    (addr : SocketAddr) (map : List (SocketAddr × ℕ)) → Unique map → Unique (remove addr map)
unfolding remove
Unique-remove addr [] h = tt
Unique-remove addr (e ∷ map) (fresh, rest) = elim (Bool-cases (addr_eq e.0 addr)) [
  | inl same ↦ rw same (Unique-remove addr map rest)
  | inr other ↦
      let differs : addr_eq addr e.0 ≡ false = not_same addr e.0 other in
      rw other (get-remove_other addr e.0 map differs ∙ fresh, Unique-remove addr map rest)
]
  where
    not_same : (a b : SocketAddr) → addr_eq b a ≡ false → addr_eq a b ≡ false
    not_same a b h = elim (Bool-cases (addr_eq a b)) [
      | inl same ↦ absurd (cc (h, addr_eq_self b, addr_eq→eq a b same))
      | inr other ↦ other
    ]

-- The maps agree, each stream is that of its address, and a number that is used is one of those given out.
pub record IsListener (l : UcpListener) : Type 0 where
  pub agree : (addr : SocketAddr) → get addr l.metrics_map ≡ get addr l.stream_map
  pub unique : Unique l.stream_map
  pub known :
      (addr : SocketAddr) (h : ℕ)
      → get addr l.stream_map ≡ some h
      → (h < l.next) × ((l.streams h).remote_addr ≡ addr)

-- The stream that the listener has for an address.
abbrev pub at : (ℕ → InnerStream) → Option ℕ → Option InnerStream
at streams none = none
at streams (some h) = some (streams h)

abbrev pub stream_of : UcpListener → SocketAddr → Option InnerStream
stream_of l addr = at l.streams (get addr l.stream_map)

mem : SocketAddr → List SocketAddr → Bool
mem addr [] = false
mem addr (key ∷ keys) = addr_eq key addr || mem addr keys

abbrev handle_unless : Bool → Option ℕ → Option ℕ
handle_unless true o = none
handle_unless false o = o

get-remove_keys :
    (addr : SocketAddr) (keys : List SocketAddr) (map : List (SocketAddr × ℕ))
    → get addr (remove_keys keys map) ≡ handle_unless (mem addr keys) (get addr map)
unfolding remove_keys mem
get-remove_keys addr [] map = refl
get-remove_keys addr (key ∷ keys) map = elim (Bool-cases (addr_eq key addr)) [
  | inl same ↦ rw same (
      get-remove_keys addr keys (remove key map)
      ∙ rw (addr_eq→eq key addr same, get-remove_same addr map) (both_none (mem addr keys)))
  | inr other ↦
      rw other
        (get-remove_keys addr keys (remove key map) ∙ rw (get-remove_other key addr map other) refl)
]
  where
    both_none : (b : Bool) → handle_unless b none ≡ none
    both_none true = refl
    both_none false = refl

Unique-remove_keys :
    (keys : List SocketAddr) (map : List (SocketAddr × ℕ))
    → Unique map
    → Unique (remove_keys keys map)
unfolding remove_keys
Unique-remove_keys [] map h = h
Unique-remove_keys (key ∷ keys) map h =
    Unique-remove_keys keys (remove key map) (Unique-remove key map h)

-- A stream, if it is alive.
abbrev pub if_alive : Option InnerStream → Option InnerStream
if_alive none = none
if_alive (some s) = if s.alive then some s else none

module _ (streams : ℕ → InnerStream) where
  abbrev is_dead : Option ℕ → Bool
  is_dead none = false
  is_dead (some h) = not (streams h).alive

  mem-dead_keys :
      (addr : SocketAddr) (map : List (SocketAddr × ℕ))
      → Unique map
      → mem addr (dead_keys streams map) ≡ is_dead (get addr map)
  unfolding mem dead_keys get
  mem-dead_keys addr [] h = refl
  mem-dead_keys addr (e ∷ map) (fresh, rest) = elim (Bool-cases (addr_eq e.0 addr)) [
    | inl same ↦ elim (Bool-cases (streams e.1).alive) [
      | inl lives ↦
          rw (lives, same)
            (mem-dead_keys addr map rest
              ∙ ap is_dead (rw (addr_eq→eq e.0 addr same) at fresh)
              ∙ sym (ap not lives))
      | inr dead ↦ rw (dead, same) (sym (ap not dead))
    ]
    | inr other ↦ elim (Bool-cases (streams e.1).alive) [
      | inl lives ↦ rw (lives, other) (mem-dead_keys addr map rest)
      | inr dead ↦ rw (dead, other) (mem-dead_keys addr map rest)
    ]
  ]

  at-handle_unless :
      (o : Option ℕ) → at streams (handle_unless (is_dead o) o) ≡ if_alive (at streams o)
  at-handle_unless none = refl
  at-handle_unless (some h) = by_alive (streams h).alive
    where
      by_alive :
          (b : Bool)
          → at streams (handle_unless (not b) (some h)) ≡ (if b then some (streams h) else none)
      by_alive true = refl
      by_alive false = refl

module _ (l : UcpListener) (now : ℕ) (ok : IsListener l) where
  abbrev swept : UcpListener
  swept = record l {
    stream_map = remove_keys (dead_keys l.streams l.stream_map) l.stream_map;
    metrics_map = remove_keys (dead_keys l.streams l.stream_map) l.metrics_map;
    timestamp = now;
  }

  swept-IsListener : IsListener swept
  swept-IsListener = record {
    agree = λ addr.
        get-remove_keys addr (dead_keys l.streams l.stream_map) l.metrics_map
        ∙ rw (ok.agree addr)
            (sym (get-remove_keys addr (dead_keys l.streams l.stream_map) l.stream_map));
    unique = Unique-remove_keys (dead_keys l.streams l.stream_map) l.stream_map ok.unique;
    known = λ addr h e. ok.known addr h (
        handle (mem addr (dead_keys l.streams l.stream_map)) (get addr l.stream_map)
          (sym (get-remove_keys addr (dead_keys l.streams l.stream_map) l.stream_map) ∙ e));
  }
    where
      handle : {h : ℕ} (b : Bool) (o : Option ℕ) → handle_unless b o ≡ some h → o ≡ some h
      handle true o e = absurd (cc e)
      handle false o e = e

  stream_of-swept : (addr : SocketAddr) → stream_of swept addr ≡ if_alive (stream_of l addr)
  stream_of-swept addr =
      ap (at l.streams) (
        get-remove_keys addr (dead_keys l.streams l.stream_map) l.stream_map
        ∙ rw (mem-dead_keys l.streams addr l.stream_map ok.unique) refl)
      ∙ at-handle_unless l.streams (get addr l.stream_map)

  -- In a listener whose two maps agree, `remove_dead_stream` changes nothing within a second of the
  -- last time. After that the streams that are dead leave both maps, those alive stay under their
  -- addresses, and the time is noted. The maps agree again.
  pub remove_dead_stream_lem :
      IsListener (remove_dead_stream l now)
      × (((millis_since now l.timestamp < 1000) × (remove_dead_stream l now ≡ l))
          ⊎ ((1000 ≤ millis_since now l.timestamp)
              × ((remove_dead_stream l now).timestamp ≡ now)
              × ((addr : SocketAddr)
                  → stream_of (remove_dead_stream l now) addr ≡ if_alive (stream_of l addr))))
  unfolding remove_dead_stream
  remove_dead_stream_lem = elim (Bool-cases (ltb (millis_since now l.timestamp) 1000)) [
    | inl early ↦ rw early (ok, inl (ltb→lt _ _ early, refl))
    | inr due ↦ rw due (swept-IsListener, inr (ground arith, refl, stream_of-swept))
  ]
