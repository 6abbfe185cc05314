-- ===== src/Util.antt =====
-- src/lib.rs, `util`: the senders of a bus of channels, taken in turn.
pub mod Bus
use stunnel.Base.{
  ℕ, zero, suc, ◌+◌, ◌≡◌, refl, ap, ◌>>=◌, Option, none, some, List, [], ◌∷◌, ◌++◌, append_assoc,
  length, length-append, leb, le→leb, lt→leb, if◌then◌else◌, arith,
}

pub record SubSenders {ℓ} (A : Type ℓ) : Type ℓ where
  pub senders : List A
  pub turn : ℕ

-- `Vec::get`
unfoldable pub get_elem? {ℓ} : {A : Type ℓ} → List A → ℕ → Option A
get_elem? [] i = none
get_elem? (a ∷ rest) zero = some a
get_elem? (a ∷ rest) (suc i) = get_elem? rest i

-- `none` is the panic of `unwrap` where there is no sender.
unfoldable pub get_one_sender {ℓ} : {A : Type ℓ} → SubSenders A → Option (A × SubSenders A)
get_one_sender s =
    let next = s.turn + 1 in
    let turn = if leb (length s.senders) next then 0 else next in
    do sender ← get_elem? s.senders s.turn; some (sender, record s { turn = turn })

-- `k` calls, and the senders they gave.
unfoldable pub get_senders {ℓ} : {A : Type ℓ} → ℕ → SubSenders A → Option (List A × SubSenders A)
get_senders zero s = some ([], s)
get_senders (suc k) s = do
  (sender, s') ← get_one_sender s
  (senders, s'') ← get_senders k s'
  some (sender ∷ senders, s'')

module _ {ℓ} {A : Type ℓ} where
  get_elem?-append : (xs ys : List A) (y : A) → get_elem? (xs ++ y ∷ ys) (length xs) ≡ some y
  unfolding get_elem?
  get_elem?-append [] ys y = refl
  get_elem?-append (x ∷ xs) ys y = get_elem?-append xs ys y

  -- The turns that are left of a round, from the sender `y` on.
  rest_of_round :
      (xs ys : List A) (y : A)
      → get_senders (suc (length ys)) (record { senders = xs ++ y ∷ ys; turn = length xs })
        ≡ some (y ∷ ys, record { senders = xs ++ y ∷ ys; turn = 0 })
  unfolding get_senders get_one_sender
  rest_of_round xs [] y =
      rw
        (
          get_elem?-append xs [] y,
          le→leb (length (xs ++ y ∷ [])) (length xs + 1) (omega (arith, length-append xs (y ∷ []))),
        )
        refl
  rest_of_round xs (y' ∷ ys) y = rw step (
      ap (λ r. r >>= λ x. some (y ∷ x.0, x.1))
        (rw (append_assoc xs (y ∷ []) (y' ∷ ys), length-append xs (y ∷ [])) at
          (rest_of_round (xs ++ y ∷ []) ys y')))
    where
      step :
          get_one_sender (record { senders = xs ++ y ∷ y' ∷ ys; turn = length xs })
          ≡ some (y, record { senders = xs ++ y ∷ y' ∷ ys; turn = length xs + 1 })
      step =
          rw
            (
              get_elem?-append xs (y' ∷ ys) y,
              lt→leb (length (xs ++ y ∷ y' ∷ ys)) (length xs + 1)
                  (omega (arith, length-append xs (y ∷ y' ∷ ys))),
            )
            refl

  -- As many calls of `get_one_sender` as there are senders, from the first turn on, give each sender
  -- once, in order, and end where they began.
  pub round_robin :
      (senders : List A)
      → get_senders (length senders) (record { senders = senders; turn = 0 })
        ≡ some (senders, record { senders = senders; turn = 0 })
  unfolding get_senders
  round_robin [] = refl
  round_robin (y ∷ ys) = rest_of_round [] ys y
