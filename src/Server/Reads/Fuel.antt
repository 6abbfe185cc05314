-- ===== src/Server/Reads/Fuel.antt =====
-- src/server.rs: the loop of `process_tunnel_read` ends. Each turn reads a byte at least, so fuel above the
-- number of bytes is enough.
use stunnel.Base.{
  ℕ, zero, suc, ◌+◌, ◌≤◌, ◌<◌, ◌≡◌, refl, ap, ◌>>=◌, Bool, true, false, Bool-cases, inl, inr,
  Option, none, some, List, [], ◌∷◌, Bytes, length, length-drop, leb, leb→le, ltb, ◌==◌,
  if◌then◌else◌, sub_u32, from_be, take, drop, arith,
}
use native.Mathlib.Nat.{suc-add}
use stunnel.Tunnel.{Cipher, read_exact, Outcome, ended}
use stunnel.Server.{TunnelMsg}
use stunnel.Server.Reads.{
  Turn, got, ends, split_domain, read_domain, read_data, read_rest, read_op, read_turn, read_loop,
}
use stunnel.Protocol.Cs

module _ (c : Cipher) where
  -- A turn that leaves at most `n` bytes, if it goes on.
  abbrev pub Leaves : ℕ → Option (Turn c) → Type 0
  Leaves n none = Unit
  Leaves n (some (ends outcome)) = Unit
  Leaves n (some (got msg k bs)) = length bs ≤ n

  either-Leaves :
      (n : ℕ) (b : Bool) (x y : Option (Turn c))
      → Leaves n x
      → Leaves n y
      → Leaves n (if b then x else y)
  either-Leaves n true x y l r = l
  either-Leaves n false x y l r = r

  read_exact-Leaves :
      (n m : ℕ) (bs : Bytes) (f : Bytes × Bytes → Option (Turn c))
      → ((xs ys : Bytes) → length ys + m ≡ length bs → Leaves n (f (xs, ys)))
      → Leaves n (read_exact m bs >>= f)
  read_exact-Leaves n m bs f h = elim (Bool-cases (leb m (length bs))) [
    | inl enough ↦
        rw enough (h (take m bs) (drop m bs) (omega (arith, length-drop m bs, leb→le _ _ enough)))
    | inr short ↦ rw short tt
  ]

  split_domain-Leaves :
      (n id len : ℕ) (buf : Bytes) (k : c.Cryptor) (bs : Bytes)
      → length bs ≤ n
      → Leaves n (some (split_domain c id len buf k bs))
  unfolding split_domain
  split_domain-Leaves n id len buf k bs h = elim (Bool-cases (ltb (length buf) (sub_u32 len 2))) [
    | inl past ↦ rw (split_domain, past) tt
    | inr within ↦ rw (split_domain, within) h
  ]

  read_domain-Leaves :
      (n id : ℕ) (k : c.Cryptor) (bs : Bytes) → length bs ≤ n → Leaves n (read_domain c id k bs)
  unfolding read_domain
  read_domain-Leaves n id k bs h = read_exact-Leaves n 4 bs _ (λ len bs1 e.
      read_exact-Leaves n (from_be len) bs1 _
        (λ buf bs2 e'. split_domain-Leaves n id (from_be len) buf k bs2 (omega arith)))

  read_data-Leaves :
      (n op id : ℕ) (k : c.Cryptor) (bs : Bytes) → length bs ≤ n → Leaves n (read_data c op id k bs)
  unfolding read_data
  read_data-Leaves n op id k bs h =
      read_exact-Leaves n 4 bs _
        (λ len bs1 e. read_exact-Leaves n (from_be len) bs1 _ (λ buf bs2 e'. omega arith))

  read_rest-Leaves :
      (n op id : ℕ) (k : c.Cryptor) (bs : Bytes) → length bs ≤ n → Leaves n (read_rest c op id k bs)
  unfolding read_rest
  read_rest-Leaves n op id k bs h = either-Leaves n (op == Cs.open_port) _ _ h (
      either-Leaves n (op == Cs.close_port) _ _ h (
        either-Leaves n (op == Cs.shutdown_write) _ _ h (
          either-Leaves n (op == Cs.connect_domain_name) _ _ (read_domain-Leaves n id k bs h)
            (read_data-Leaves n op id k bs h))))

  pub read_turn-Leaves :
      (n : ℕ) (k : c.Cryptor) (bs : Bytes) → length bs ≤ suc n → Leaves n (read_turn c k bs)
  unfolding read_turn read_op
  read_turn-Leaves n k bs h = read_exact-Leaves n 1 bs _ (λ op bs1 e.
      either-Leaves n (from_be op == Cs.heartbeat) _ _ (omega arith) (
        read_exact-Leaves n 4 bs1 _
          (λ id bs2 e'. read_rest-Leaves n (from_be op) (from_be id) k bs2 (omega arith))))

  -- With fuel above the number of bytes the server's loop over a tunnel does not run out: more fuel
  -- changes nothing.
  pub read_loop_fuel :
      (fuel more : ℕ) (k : c.Cryptor) (bs : Bytes)
      → length bs < fuel
      → read_loop c (fuel + more) k bs ≡ read_loop c fuel k bs
  unfolding read_loop
  read_loop_fuel zero more k bs h = absurd (omega arith)
  read_loop_fuel (suc fuel) more k [] h = rw (suc-add fuel more) (unfold read_turn in refl)
  read_loop_fuel (suc fuel) more k (b ∷ bs) h = rw (suc-add fuel more) (
      go (read_turn c k (b ∷ bs)) (read_turn-Leaves (length bs) k (b ∷ bs) (omega arith))
        (λ k' bs' h'. read_loop_fuel fuel more k' bs' (omega arith)))
    where
      step : ℕ → Option (Turn c) → List TunnelMsg × Outcome
      step n r = elim r [
        | some (got msg k' bs') ↦
            let (msgs, outcome) = read_loop c n k' bs' in (msg ∷ msgs, outcome)
        | some (ends outcome) ↦ ([], outcome)
        | none ↦ ([], ended)
      ]

      go :
          (r : Option (Turn c))
          → Leaves (length bs) r
          → ((k' : c.Cryptor) (bs' : Bytes)
              → length bs' ≤ length bs
              → read_loop c (fuel + more) k' bs' ≡ read_loop c fuel k' bs')
          → step (fuel + more) r ≡ step fuel r
      go none l later = refl
      go (some (ends outcome)) l later = refl
      go (some (got msg k' bs')) l later = ap (λ x. (msg ∷ x.0, x.1)) (later k' bs' l)
