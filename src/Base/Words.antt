-- ===== src/Base/Words.antt =====
-- Machine words as native numbers: u32 and usize arithmetic that wraps, and big-endian bytes.
use Prim.Native.Nat.{ℕ, ◌+◌, ◌-◌, ◌*◌, ◌/◌, ◌%◌, ◌^◌, ◌<◌}
use mathlib.Core.Path.{◌≡◌}
use mathlib.Core.Bool.{Bool}
use mathlib.Core.List.{List, [], ◌∷◌}
use native.Mathlib.Omega.{arith}
use stunnel.Base.Tests.{ltb}
use stunnel.Base.Lists.{All, length}

abbrev pub Bytes : Type 0
Bytes = List ℕ

abbrev pub IsByte : ℕ → Type 0
IsByte b = b < 256

abbrev pub IsU16 : ℕ → Type 0
IsU16 v = v < 2 ^ 16

abbrev pub IsU32 : ℕ → Type 0
IsU32 v = v < 2 ^ 32

-- `a + b` and `a - b` on u32, with the wrap-around of a release build.
abbrev pub add_u32 : ℕ → ℕ → ℕ
add_u32 a b = (a + b) % 2 ^ 32

abbrev pub sub_u32 : ℕ → ℕ → ℕ
sub_u32 a b = (a + 2 ^ 32 - b) % 2 ^ 32

abbrev pub mul_u32 : ℕ → ℕ → ℕ
mul_u32 a b = a * b % 2 ^ 32

-- `a - b` on usize, of 64 bits.
abbrev pub sub_usize : ℕ → ℕ → ℕ
sub_usize a b = (a + 2 ^ 64 - b) % 2 ^ 64

-- `(v as i32) < 0`
abbrev pub is_negative_i32 : ℕ → Bool
is_negative_i32 v = ltb (2 ^ 31 - 1) v

-- The bytes of a u32 and of a u16 in network order, as `to_be` leaves them in memory.
unfoldable pub be_u32 : ℕ → Bytes
be_u32 v = v / 2 ^ 24 % 256 ∷ v / 2 ^ 16 % 256 ∷ v / 2 ^ 8 % 256 ∷ v % 256 ∷ []

unfoldable pub be_u16 : ℕ → Bytes
be_u16 v = v / 2 ^ 8 % 256 ∷ v % 256 ∷ []

-- `from_be` of the bytes in memory.
unfoldable pub from_be : Bytes → ℕ
from_be bs = go 0 bs
  where
    go : ℕ → Bytes → ℕ
    go acc [] = acc
    go acc (b ∷ bs) = go (acc * 256 + b) bs

pub from_be-be_u32 : (v : ℕ) → IsU32 v → from_be (be_u32 v) ≡ v
unfolding from_be be_u32
from_be-be_u32 v h = omega arith

pub from_be-be_u16 : (v : ℕ) → IsU16 v → from_be (be_u16 v) ≡ v
unfolding from_be be_u16
from_be-be_u16 v h = omega arith

pub be_u32-IsByte : (v : ℕ) → All IsByte (be_u32 v)
unfolding be_u32
be_u32-IsByte v = omega arith

pub length-be_u32 : (v : ℕ) → length (be_u32 v) ≡ 4
unfolding be_u32
length-be_u32 v = omega arith

pub length-be_u16 : (v : ℕ) → length (be_u16 v) ≡ 2
unfolding be_u16
length-be_u16 v = omega arith

pub be_u32-from_be : (bs : Bytes) → length bs ≡ 4 → All IsByte bs → be_u32 (from_be bs) ≡ bs
unfolding be_u32 from_be
be_u32-from_be (a ∷ b ∷ c ∷ d ∷ []) h (ha, (hb, (hc, (hd, _)))) = ground arith
be_u32-from_be _ h bytes = absurd (omega arith)

pub from_be-singleton : (bs : Bytes) → length bs ≡ 1 → from_be bs ∷ [] ≡ bs
unfolding from_be
from_be-singleton (a ∷ []) h = ground arith
from_be-singleton _ h = absurd (omega arith)

pub from_be_one : (b : ℕ) → from_be (b ∷ []) ≡ b
unfolding from_be
from_be_one b = omega arith
