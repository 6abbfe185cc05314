-- ===== src/Cryptor.antt =====
-- src/cryptor.rs: the loops of `Cryptor` over the buffers of the crate crypto. `CtrMode<Blowfish>` of that
-- crate is a parameter; the random counter of `new` is an argument.
pub mod Stream
use stunnel.Base.{
  ℕ, zero, suc, ◌>>=◌, ◌≡◌, Option, none, some, [], ◌++◌, Bytes, length, take, drop, leb,
  if◌then◌else◌,
}

-- `BufferResult`: the input is used up, or the output has no room left.
pub data BufferResult : Type 0 where
  underflow : BufferResult
  overflow : BufferResult

-- `CtrMode<Blowfish>`. A call takes the state, the bytes left to read and the room of the write buffer; it
-- gives the bytes written, those left to read and the result. `none` is its error.
pub record CtrMode : Type 1 where
  pub State : Type 0
  pub new : Bytes → Bytes → State
  pub encrypt : State → Bytes → ℕ → Option (Bytes × Bytes × BufferResult × State)
  pub decrypt : State → Bytes → ℕ → Option (Bytes × Bytes × BufferResult × State)

-- The size of the write buffer.
abbrev pub room : ℕ
room = 2048

module _ (m : CtrMode) where
  pub record Cryptor : Type 0 where
    pub cryptor : m.State
    pub ctr : Bytes

  unfoldable pub with_ctr : Bytes → Bytes → Cryptor
  with_ctr key ctr = record { cryptor = m.new key ctr; ctr = ctr }

  -- `random` are the eight bytes that the crate rand gives.
  unfoldable pub new : Bytes → Bytes → Cryptor
  unfolding with_ctr
  new key random = with_ctr key random

  abbrev pub ctr_as_slice : Cryptor → Bytes
  ctr_as_slice k = k.ctr

  -- The loop of `encrypt` and of `decrypt` over the call that it makes, with fuel. A round reads what fits
  -- the write buffer, which is emptied then.
  unfoldable pub crypt_loop :
      (m.State → Bytes → ℕ → Option (Bytes × Bytes × BufferResult × m.State))
      → ℕ
      → m.State
      → Bytes
      → Bytes
      → Option (Bytes × m.State)
  crypt_loop call zero s input result = none
  crypt_loop call (suc fuel) s input result = elim (call s input room) [
    | none ↦ none
    | some (written, rest, underflow, s') ↦ some (result ++ written, s')
    | some (written, rest, overflow, s') ↦ crypt_loop call fuel s' rest (result ++ written)
  ]

  -- A round reads a byte at least, or is the last.
  unfoldable pub encrypt : Cryptor → Bytes → Option (Bytes × Cryptor)
  encrypt k bytes = do
    (result, s') ← crypt_loop m.encrypt (suc (length bytes)) k.cryptor bytes []
    some (result, record k { cryptor = s' })

  unfoldable pub decrypt : Cryptor → Bytes → Option (Bytes × Cryptor)
  decrypt k bytes = do
    (result, s') ← crypt_loop m.decrypt (suc (length bytes)) k.cryptor bytes []
    some (result, record k { cryptor = s' })

-- `Cryptor::key_size_range`
abbrev pub key_size_range : ℕ × ℕ
key_size_range = (4, 56)

abbrev pub ctr_size : ℕ
ctr_size = 8
