-- ===== src/Util/Bus.antt =====
-- src/lib.rs, `util`: `channel_bus`, and that its senders never run out.
use stunnel.Base.{
  ℕ, zero, suc, ◌+◌, ◌<◌, ◌≡◌, refl, ap, inl, inr, Bool-cases, some, List, [], ◌∷◌, length, leb,
  arith,
}
use stunnel.Util.{SubSenders, get_elem?, get_one_sender}

-- `n` channels, named by the numbers from `first` on.
unfoldable pub channels : ℕ → ℕ → List ℕ
channels first zero = []
channels first (suc n) = first ∷ channels (suc first) n

-- A bus: the main sender, the other senders, and the receivers. A channel is a number, and `fresh` is the first that
-- is not in use.
unfoldable pub channel_bus : ℕ → ℕ → ℕ × SubSenders ℕ × List ℕ
channel_bus fresh bus_num =
    let others = channels (suc fresh) bus_num in
    (fresh, record { senders = others; turn = 0 }, fresh ∷ others)

-- The turn is that of a sender.
abbrev pub IsBus {ℓ} : {A : Type ℓ} → SubSenders A → Type 0
IsBus s = s.turn < length s.senders

length-channels : (first n : ℕ) → length (channels first n) ≡ n
unfolding channels
length-channels first zero = refl
length-channels first (suc n) = ap suc (length-channels (suc first) n)

pub channel_bus-IsBus : (fresh bus_num : ℕ) → 0 < bus_num → IsBus (channel_bus fresh bus_num).1
unfolding channel_bus
channel_bus-IsBus fresh bus_num h = omega (arith, length-channels (suc fresh) bus_num)

get_elem?-lt :
    {A : Type 0} (xs : List A) (i : ℕ) → i < length xs → (a : A) × (get_elem? xs i ≡ some a)
unfolding get_elem?
get_elem?-lt [] i h = absurd (omega arith)
get_elem?-lt (x ∷ xs) zero h = (x, refl)
get_elem?-lt (x ∷ xs) (suc i) h = get_elem?-lt xs i (omega arith)

-- A call gives a sender, and the next call will.
pub get_one_sender-IsBus :
    {A : Type 0} (s : SubSenders A)
    → IsBus s
    → (a : A) × (s' : SubSenders A) × (get_one_sender s ≡ some (a, s')) × IsBus s'
unfolding get_one_sender
get_one_sender-IsBus s h =
    let (a, e) = get_elem?-lt s.senders s.turn h in
    elim (Bool-cases (leb (length s.senders) (s.turn + 1))) [
      | inl wraps ↦ (a, record s { turn = 0 }, rw (e, wraps) refl, omega arith)
      | inr on ↦ (a, record s { turn = s.turn + 1 }, rw (e, on) refl, ground arith)
    ]
