-- ===== src/Server/Reads/Front.antt =====
-- src/server.rs: of a front of the bytes that a client wrote the server reads a front of the messages.
use stunnel.Base.{
  ℕ, zero, suc, ◌<◌, ◌≡◌, refl, sym, ap, ◌∙◌, ◌⊎◌, ◌>>=◌, Bool, true, false, Bool-cases, inl, inr,
  Option, none, some, List, [], ◌∷◌, ◌++◌, append_assoc, Bytes, length, length-take, leb, leb→le,
  ltb, ◌==◌, if◌then◌else◌, sub_u32, from_be, take, drop, take-append-drop, arith,
}
use stunnel.Tunnel.{Cipher, read_exact, Outcome, ended, refused}
use stunnel.Tunnel.Exact.{read_exact-append}
use stunnel.Server.{TunnelMsg}
use stunnel.Server.Reads.{
  Turn, got, ends, split_domain, read_domain, read_data, read_rest, read_op, read_turn, read_loop,
  verify_client, process_tunnel_read, eq_bytes,
}
use stunnel.Server.Reads.Fuel.{Leaves, read_turn-Leaves}
use stunnel.Protocol.{verify_data}
use stunnel.Protocol.Cs

-- The first list begins the second.
abbrev pub IsFront {ℓ} : {A : Type ℓ} → List A → List A → Type ℓ
IsFront xs ys = (rest : List _) × (ys ≡ xs ++ rest)

-- A read of the bytes that are there is the same with more bytes behind them.
abbrev Same : ℕ → Bytes → Bytes → Type 0
Same n bs more =
    (xs : Bytes) × (ys : Bytes) × (read_exact n bs ≡ some (xs, ys))
    × (read_exact n (bs ++ more) ≡ some (xs, ys ++ more))

read_exact-either : (n : ℕ) (bs more : Bytes) → (read_exact n bs ≡ none) ⊎ Same n bs more
read_exact-either n bs more = elim (Bool-cases (leb n (length bs))) [
  | inl enough ↦ inr (
    take n bs,
    drop n bs,
    rw enough refl,
    ap (read_exact n) (
          ap (λ l. l ++ more) (sym (take-append-drop n bs))
          ∙ append_assoc (take n bs) (drop n bs) more)
        ∙ read_exact-append n (take n bs) (drop n bs ++ more)
            (omega (arith, length-take n bs, leb→le n (length bs) enough)),
  )
  | inr short ↦ inl (rw short refl)
]

module _ (c : Cipher) (more : Bytes) where
  -- The turn with more bytes behind those of a turn.
  abbrev Extends : Option (Turn c) → Option (Turn c) → Type 0
  Extends none r = Unit
  Extends (some (ends outcome)) r = r ≡ some (ends outcome)
  Extends (some (got msg k bs)) r = r ≡ some (got msg k (bs ++ more))

  either-Extends :
      (b : Bool) (x y x' y' : Option (Turn c))
      → Extends x x'
      → Extends y y'
      → Extends (if b then x else y) (if b then x' else y')
  either-Extends true x y x' y' l r = l
  either-Extends false x y x' y' l r = r

  read_exact-Extends :
      (n : ℕ) (bs : Bytes) (f : Bytes × Bytes → Option (Turn c))
      → ((xs ys : Bytes) → Extends (f (xs, ys)) (f (xs, ys ++ more)))
      → Extends (read_exact n bs >>= f) (read_exact n (bs ++ more) >>= f)
  read_exact-Extends n bs f h = elim (read_exact-either n bs more) [
    | inl short ↦ rw short tt
    | inr (xs, ys, here, there) ↦ rw (here, there) (h xs ys)
  ]

  split_domain-Extends :
      (id len : ℕ) (buf : Bytes) (k : c.Cryptor) (bs : Bytes)
      → Extends
          (some (split_domain c id len buf k bs))
          (some (split_domain c id len buf k (bs ++ more)))
  unfolding split_domain
  split_domain-Extends id len buf k bs = elim (Bool-cases (ltb (length buf) (sub_u32 len 2))) [
    | inl past ↦ rw (split_domain, past) refl
    | inr within ↦ rw (split_domain, within) refl
  ]

  read_domain-Extends :
      (id : ℕ) (k : c.Cryptor) (bs : Bytes)
      → Extends (read_domain c id k bs) (read_domain c id k (bs ++ more))
  unfolding read_domain
  read_domain-Extends id k bs = read_exact-Extends 4 bs _ (λ len bs1.
      read_exact-Extends (from_be len) bs1 _
        (λ buf bs2. split_domain-Extends id (from_be len) buf k bs2))

  read_data-Extends :
      (op id : ℕ) (k : c.Cryptor) (bs : Bytes)
      → Extends (read_data c op id k bs) (read_data c op id k (bs ++ more))
  unfolding read_data
  read_data-Extends op id k bs =
      read_exact-Extends 4 bs _
        (λ len bs1. read_exact-Extends (from_be len) bs1 _ (λ buf bs2. refl))

  read_rest-Extends :
      (op id : ℕ) (k : c.Cryptor) (bs : Bytes)
      → Extends (read_rest c op id k bs) (read_rest c op id k (bs ++ more))
  unfolding read_rest
  read_rest-Extends op id k bs = either-Extends (op == Cs.open_port) _ _ _ _ refl (
      either-Extends (op == Cs.close_port) _ _ _ _ refl (
        either-Extends (op == Cs.shutdown_write) _ _ _ _ refl (
          either-Extends (op == Cs.connect_domain_name) _ _ _ _ (read_domain-Extends id k bs)
            (read_data-Extends op id k bs))))

  read_turn-Extends :
      (k : c.Cryptor) (bs : Bytes) → Extends (read_turn c k bs) (read_turn c k (bs ++ more))
  unfolding read_turn read_op
  read_turn-Extends k bs = read_exact-Extends 1 bs _ (λ op bs1.
      either-Extends (from_be op == Cs.heartbeat) _ _ _ _ refl
        (read_exact-Extends 4 bs1 _ (λ id bs2. read_rest-Extends (from_be op) (from_be id) k bs2)))

  step : ℕ → Option (Turn c) → List TunnelMsg × Outcome
  step n r = elim r [
    | some (got msg k' bs') ↦ let (msgs, outcome) = read_loop c n k' bs' in (msg ∷ msgs, outcome)
    | some (ends outcome) ↦ ([], outcome)
    | none ↦ ([], ended)
  ]

  read_loop-IsFront :
      (fuel fuel' : ℕ) (k : c.Cryptor) (bs : Bytes)
      → length (bs ++ more) < fuel'
      → IsFront (read_loop c fuel k bs).0 (read_loop c fuel' k (bs ++ more)).0
  unfolding read_loop step
  read_loop-IsFront zero fuel' k bs h = (_, refl)
  read_loop-IsFront (suc fuel) zero k bs h = absurd (omega arith)
  read_loop-IsFront (suc fuel) (suc fuel') k [] h = unfold read_turn in (_, refl)
  read_loop-IsFront (suc fuel) (suc fuel') k (b ∷ bs) h =
      go (read_turn c k (b ∷ bs)) (read_turn c k (b ∷ bs ++ more)) (read_turn-Extends k (b ∷ bs))
        (read_turn-Leaves c (length (bs ++ more)) k (b ∷ bs ++ more) (omega arith))
        (λ k' bs' h'. read_loop-IsFront fuel fuel' k' bs' h')
    where
      go :
          (r r' : Option (Turn c))
          → Extends r r'
          → Leaves c (length (bs ++ more)) r'
          → ((k' : c.Cryptor) (bs' : Bytes)
              → length (bs' ++ more) < fuel'
              → IsFront (read_loop c fuel k' bs').0 (read_loop c fuel' k' (bs' ++ more)).0)
          → IsFront (step fuel r).0 (step fuel' r').0
      go none r' e l later = (_, refl)
      go (some (ends outcome)) r' e l later = ([], rw e refl)
      go (some (got msg k' bs')) r' e l later =
          let (rest, front) = later k' bs' (omega (arith, rw e at l)) in
          (rest, rw e (ap (◌∷◌ msg) front))

  verify_client-IsFront :
      (k : c.Cryptor) (bs : Bytes)
      → IsFront (verify_client c k bs).0 (verify_client c k (bs ++ more)).0
  unfolding verify_client
  verify_client-IsFront k bs = elim (read_exact-either (length verify_data) bs more) [
    | inl short ↦ rw (verify_client, short) (_, refl)
    | inr (xs, ys, here, there) ↦
        rw (verify_client, here, there)
          (verified (eq_bytes (c.decrypt k xs).0 verify_data) (c.decrypt k xs).1 ys)
  ]
    where
      verified :
          (b : Bool) (k' : c.Cryptor) (ys : Bytes)
          → IsFront
              (if b then read_loop c (suc (length ys)) k' ys else ([], refused)).0
              (if b
                then read_loop c (suc (length (ys ++ more))) k' (ys ++ more)
                else ([], refused)).0
      verified true k' ys =
          read_loop-IsFront (suc (length ys)) (suc (length (ys ++ more))) k' ys (omega arith)
      verified false k' ys = ([], refl)

  -- A tunnel that breaks: the server reads a front of what it reads with more bytes.
  pub process_tunnel_read-IsFront :
      (key bs : Bytes)
      → IsFront (process_tunnel_read c key bs).0 (process_tunnel_read c key (bs ++ more)).0
  unfolding process_tunnel_read
  process_tunnel_read-IsFront key bs = elim (read_exact-either 8 bs more) [
    | inl short ↦ rw (process_tunnel_read, short) (_, refl)
    | inr (xs, ys, here, there) ↦
        rw (process_tunnel_read, here, there) (verify_client-IsFront (c.with_ctr key xs) ys)
  ]
