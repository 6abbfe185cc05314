-- ===== src/Programs/Client/Fair.antt =====
-- src/bin/stunnel_client.rs: the streams go to the tunnels in turn, and no call on the way panics.
use stunnel.Base.{
  ℕ, zero, suc, ◌+◌, ◌%◌, ◌<◌, ◌≤◌, ◌≡◌, refl, sym, ap, ◌∙◌, inl, inr, ◌⊎◌, Bool, true, false,
  Bool-cases, Option, none, some, List, [], ◌∷◌, ◌++◌, append_assoc, append-nil, map, All, length,
  add_u32, ltb, ltb→lt, ◌==◌, if◌then◌else◌, arith,
}
use native.Mathlib.Nat.{mod-lt}
use stunnel.Util.{get_elem?}
use stunnel.Util.Bus.{channel_bus, IsBus, channel_bus-IsBus, get_one_sender-IsBus}
use stunnel.Client.{Tunnel, TunnelPort, open_port, cs_open_port}
use stunnel.Programs.Client.{
  Options, count, new_tunnel, new_tunnels, start, Served, Serving, http, socks5, set, serve,
  run_proxy_tunnels,
}

abbrev HasBus : Tunnel → Type 0
HasBus t = IsBus t.senders

record IsServing (n : ℕ) (s : Serving) : Type 0 where
  buses : All HasBus s.tunnels
  many : length s.tunnels ≡ n
  within : s.index < n

open_port-HasBus :
    (t : Tunnel) (channel : ℕ)
    → HasBus t
    → (port : TunnelPort) × (t' : Tunnel) × (open_port t channel ≡ some (port, t')) × HasBus t'
unfolding open_port
open_port-HasBus t channel h =
    let (sender, senders', e, bus) = get_one_sender-IsBus t.senders h in
    (
      record { port_id = t.id; tx = sender },
      record t {
        id = add_u32 t.id 1;
        senders = senders';
        opened = t.opened ++ cs_open_port t.id channel ∷ [];
      },
      rw e refl,
      bus,
    )

-- A tunnel at a place within.
get_elem?-HasBus :
    (ts : List Tunnel) (i : ℕ)
    → All HasBus ts
    → i < length ts
    → (t : Tunnel) × (get_elem? ts i ≡ some t) × HasBus t
unfolding get_elem?
get_elem?-HasBus [] i all h = absurd (omega arith)
get_elem?-HasBus (t ∷ ts) zero (b, all) h = (t, refl, b)
get_elem?-HasBus (t ∷ ts) (suc i) (b, all) h = get_elem?-HasBus ts i all (omega arith)

set-All :
    (ts : List Tunnel) (i : ℕ) (t : Tunnel) → All HasBus ts → HasBus t → All HasBus (set ts i t)
unfolding set
set-All [] i t all b = tt
set-All (x ∷ ts) zero t (a, all) b = (b, all)
set-All (x ∷ ts) (suc i) t (a, all) b = (a, set-All ts i t all b)

length-set : (ts : List Tunnel) (i : ℕ) (t : Tunnel) → length (set ts i t) ≡ length ts
unfolding set
length-set [] i t = refl
length-set (x ∷ ts) zero t = refl
length-set (x ∷ ts) (suc i) t = ap suc (length-set ts i t)

-- The tunnels of the streams that come from turn `i` on.
abbrev pub turns : ℕ → ℕ → List (ℕ × Option ℕ) → List ℕ
turns n i [] = []
turns n i ((channel, none) ∷ streams) = turns n i streams
turns n i ((channel, some port) ∷ streams) = i ∷ turns n ((i + 1) % n) streams

abbrev pub tunnels_of : List Served → List ℕ
tunnels_of served = map (λ s. s.tunnel) served

tunnels_of-append : (xs ys : List Served) → tunnels_of (xs ++ ys) ≡ tunnels_of xs ++ tunnels_of ys
tunnels_of-append [] ys = refl
tunnels_of-append (x ∷ xs) ys = ap (◌∷◌ x.tunnel) (tunnels_of-append xs ys)

module _ (http_port n : ℕ) (pos : 0 < n) where
  serve-IsServing :
      (s : Serving) (channel port : ℕ)
      → IsServing n s
      → (s' : Serving) × (serve http_port s channel (some port) ≡ some s')
        × IsServing n s'
        × (s'.index ≡ (s.index + 1) % n)
        × (tunnels_of s'.served ≡ tunnels_of s.served ++ s.index ∷ [])
  unfolding serve
  serve-IsServing s channel port ok =
      let (t, e, bus) =
        get_elem?-HasBus s.tunnels s.index ok.buses (omega (arith, ok.many, ok.within)) in
      let (p, t', opened, bus') = open_port-HasBus t channel bus in
      let one : Served = record {
        proxy = if port == http_port then http else socks5;
        tunnel = s.index;
        port = p;
      } in
      (
        record {
          tunnels = set s.tunnels s.index t';
          index = (s.index + 1) % length s.tunnels;
          served = s.served ++ one ∷ [];
        },
        rw (e, opened) refl,
        record {
          buses = set-All s.tunnels s.index t' ok.buses bus';
          many = length-set s.tunnels s.index t' ∙ ok.many;
          within = rw ok.many (mod-lt (s.index + 1) pos);
        },
        ap (λ k. (s.index + 1) % k) ok.many,
        tunnels_of-append s.served (one ∷ []),
      )

  run_step :
      (s s1 : Serving) (m : ℕ × Option ℕ) (streams : List (ℕ × Option ℕ))
      → serve http_port s m.0 m.1 ≡ some s1
      → run_proxy_tunnels http_port s (m ∷ streams) ≡ run_proxy_tunnels http_port s1 streams
  unfolding run_proxy_tunnels
  run_step s s1 m streams e = rw e refl

  -- Any streams: none makes the loop panic, and each is served, by the tunnels in turn.
  run_proxy_tunnels-turns :
      (streams : List (ℕ × Option ℕ)) (s : Serving)
      → IsServing n s
      → (s' : Serving) × (run_proxy_tunnels http_port s streams ≡ some s')
        × (tunnels_of s'.served ≡ tunnels_of s.served ++ turns n s.index streams)
  unfolding run_proxy_tunnels serve
  run_proxy_tunnels-turns [] s ok = (s, refl, sym (append-nil (tunnels_of s.served)))
  run_proxy_tunnels-turns ((channel, none) ∷ streams) s ok = run_proxy_tunnels-turns streams s ok
  run_proxy_tunnels-turns ((channel, some port) ∷ streams) s ok =
      let (s1, e, ok1, index_is, served_is) = serve-IsServing s channel port ok in
      let (s2, run, rest) = run_proxy_tunnels-turns streams s1 ok1 in
      (
        s2,
        run_step s s1 (channel, some port) streams e ∙ run,
        rest ∙ rw (served_is, index_is) (append_assoc (tunnels_of s.served) (s.index ∷ []) _),
      )

new_tunnels-HasBus : (fresh n : ℕ) → All HasBus (new_tunnels fresh n)
unfolding new_tunnels new_tunnel channel_bus
new_tunnels-HasBus fresh zero = tt
new_tunnels-HasBus fresh (suc n) =
    (channel_bus-IsBus fresh 10 (omega arith), new_tunnels-HasBus (fresh + 11) n)

length-new_tunnels : (fresh n : ℕ) → length (new_tunnels fresh n) ≡ n
unfolding new_tunnels
length-new_tunnels fresh zero = refl
length-new_tunnels fresh (suc n) = ap suc (length-new_tunnels (fresh + 11) n)

-- How many tunnels the options ask for.
abbrev pub asked : Options → ℕ
asked opts = if opts.enable_ucp then 1 else count opts.tunnel_count

asked_pos : (opts : Options) → 0 < asked opts
unfolding count
asked_pos opts = by_flag opts.enable_ucp opts.tunnel_count
  where
    by_flag : (b : Bool) (o : Option ℕ) → 0 < (if b then 1 else count o)
    by_flag true o = omega arith
    by_flag false none = omega arith
    by_flag false (some zero) = omega arith
    by_flag false (some (suc n)) = omega arith

-- The client refuses a key of less than 4 or more than 56 bytes. With any other it has as many
-- tunnels as asked for, one at least, and whatever streams come, it does not panic, and gives those
-- that come without an error to the tunnels in turn.
pub run_proxy_tunnels-start :
    (opts : Options) (http_port : ℕ) (streams : List (ℕ × Option ℕ))
    → (((length opts.key < 4) ⊎ (56 < length opts.key)) × (start opts ≡ none))
      ⊎ ((4 ≤ length opts.key)
          × (length opts.key ≤ 56)
          × ((tunnels : List Tunnel) × (start opts ≡ some tunnels)
              × (length tunnels ≡ asked opts)
              × ((s : Serving) × (run_proxy_tunnels http_port
                      (record { tunnels = tunnels; index = 0; served = [] })
                      streams
                    ≡ some s)
                  × (tunnels_of s.served ≡ turns (asked opts) 0 streams))))
unfolding start
run_proxy_tunnels-start opts http_port streams = elim (Bool-cases (ltb (length opts.key) 4)) [
  | inl short ↦ inl (inl (ltb→lt (length opts.key) 4 short), rw short refl)
  | inr enough ↦ elim (Bool-cases (ltb 56 (length opts.key))) [
    | inl long ↦ inl (inr (ltb→lt 56 (length opts.key) long), rw (enough, long) refl)
    | inr fits ↦
        let tunnels : List Tunnel = new_tunnels 0 (asked opts) in
        let (s, e, served) =
          run_proxy_tunnels-turns http_port (asked opts) (asked_pos opts) streams
            (record { tunnels = tunnels; index = 0; served = [] })
            (record {
              buses = new_tunnels-HasBus 0 (asked opts);
              many = length-new_tunnels 0 (asked opts);
              within = asked_pos opts;
            }) in
        inr (
          ground arith,
          ground arith,
          (tunnels, rw (enough, fits) refl, length-new_tunnels 0 (asked opts), (s, e, served)),
        )
  ]
]
