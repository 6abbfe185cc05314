-- ===== src/Tunnel.antt =====
-- What the two ends of a tunnel share: the cipher, src/cryptor.rs, and reads of a byte stream.
use stunnel.Base.{ℕ, ◌≡◌, Option, none, some, Bytes, length, take, drop, leb, if◌then◌else◌}
pub mod Exact
pub mod Acts
pub mod Halves
pub mod ToServer
pub mod ToClient

-- The operations of `Cryptor`, of src/cryptor.rs, as the tunnel uses them.
pub record Cipher : Type 1 where
  pub Cryptor : Type 0
  pub with_ctr : Bytes → Bytes → Cryptor
  pub encrypt : Cryptor → Bytes → Bytes × Cryptor
  pub decrypt : Cryptor → Bytes → Bytes × Cryptor

-- A stream cipher: from the same state, decryption gives back what was encrypted and moves as far.
pub record IsStreamCipher (c : Cipher) : Type 0 where
  pub length-encrypt : (k : c.Cryptor) (bs : Bytes) → length (c.encrypt k bs).0 ≡ length bs
  pub decrypt-encrypt :
      (k : c.Cryptor) (bs : Bytes) → c.decrypt k (c.encrypt k bs).0 ≡ (bs, (c.encrypt k bs).1)

-- `Read::read_exact`: the bytes read and those left; `none` is the error at the end of the stream.
abbrev pub read_exact : ℕ → Bytes → Option (Bytes × Bytes)
read_exact n bs = if leb n (length bs) then some (take n bs, drop n bs) else none

-- How the reading of a tunnel ends.
pub data Outcome : Type 0 where
  -- The stream ends, and `read_exact` gives an error.
  ended : Outcome
  -- An operation that is not known.
  stopped : Outcome
  -- The first bytes are not those of a client with the key.
  refused : Outcome
  -- A slice is out of range.
  panicked : Outcome
