-- ===== src/Tunnel/Exact.antt =====
-- Reads of the front of a byte stream.
use stunnel.Base.{
  ℕ, ◌≡◌, refl, some, ◌++◌, Bytes, length, le→leb, length-append, take-append, drop-append, arith,
}
use stunnel.Tunnel.{read_exact}

pub read_exact-append :
    (n : ℕ) (xs ys : Bytes) → n ≡ length xs → read_exact n (xs ++ ys) ≡ some (xs, ys)
read_exact-append n xs ys e =
    rw
      (
        e,
        le→leb (length xs) (length (xs ++ ys)) (omega (arith, length-append xs ys)),
        take-append xs ys,
        drop-append xs ys,
      )
      refl
