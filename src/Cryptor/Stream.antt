-- ===== src/Cryptor/Stream.antt =====
-- src/cryptor.rs: the loops transform byte after byte, and `Cryptor` is a stream cipher, as the tunnel wants it.
use stunnel.Base.{
  ℕ, zero, suc, ◌≡◌, refl, ap, ◌∙◌, ◌<◌, inl, inr, Bool-cases, Option, none, some, [], ◌∷◌, ◌++◌,
  append_assoc, Bytes, length, length-drop, take, drop, take_all, leb, leb→le, if◌then◌else◌, arith,
}
use stunnel.Tunnel.{Cipher, IsStreamCipher}
use stunnel.Cryptor.{
  BufferResult, underflow, overflow, CtrMode, Cryptor, with_ctr, crypt_loop, encrypt, decrypt, room,
}

-- Byte after byte.
module _ {S : Type 0} (f : S → ℕ → ℕ × S) where
  unfoldable pub bytewise : S → Bytes → Bytes × S
  bytewise s [] = ([], s)
  bytewise s (b ∷ bs) = let (rest, s') = bytewise (f s b).1 bs in ((f s b).0 ∷ rest, s')

  length-bytewise : (s : S) (bs : Bytes) → length (bytewise s bs).0 ≡ length bs
  unfolding bytewise
  length-bytewise s [] = refl
  length-bytewise s (b ∷ bs) = ap suc (length-bytewise (f s b).1 bs)

  -- The output and the state of a call of the crate with so much room.
  abbrev pub Processes : Option (Bytes × Bytes × BufferResult × S) → S → Bytes → ℕ → Type 0
  Processes r s bs n =
      let (written, s') = bytewise s (take n bs) in
      r ≡ some (written, drop n bs, (if leb (length bs) n then underflow else overflow), s')

  bytewise-append_split :
      (s : S) (bs : Bytes) (n : ℕ)
      → let (front, s1) = bytewise s (take n bs) in
        let (back, s2) = bytewise s1 (drop n bs) in bytewise s bs ≡ (front ++ back, s2)
  unfolding bytewise
  bytewise-append_split s bs zero = refl
  bytewise-append_split s [] (suc n) = refl
  bytewise-append_split s (b ∷ bs) (suc n) = rw (bytewise-append_split (f s b).1 bs n) refl

-- What the crate documents of the counter mode: a call transforms as many bytes as there are to read and as fit,
-- one after the other, and reports whether it read all. Decryption of a byte gives back what was encrypted and
-- moves as far.
pub record IsCounterMode (m : CtrMode) : Type 0 where
  pub encrypt_byte : m.State → ℕ → ℕ × m.State
  pub decrypt_byte : m.State → ℕ → ℕ × m.State
  pub decrypt-encrypt_byte :
      (s : m.State) (b : ℕ) → decrypt_byte s (encrypt_byte s b).0 ≡ (b, (encrypt_byte s b).1)
  pub encrypts :
      (s : m.State) (bs : Bytes) (n : ℕ) → Processes encrypt_byte (m.encrypt s bs n) s bs n
  pub decrypts :
      (s : m.State) (bs : Bytes) (n : ℕ) → Processes decrypt_byte (m.decrypt s bs n) s bs n

module _ (m : CtrMode) where
  -- With fuel above the number of bytes the loop ends, and it is the transformation of each byte in turn.
  crypt_loop-bytewise :
      (f : m.State → ℕ → ℕ × m.State)
      (call : m.State → Bytes → ℕ → Option (Bytes × Bytes × BufferResult × m.State))
      → ((s : m.State) (bs : Bytes) (n : ℕ) → Processes f (call s bs n) s bs n)
      → (fuel : ℕ) (s : m.State) (bs result : Bytes) → length bs < fuel
      → crypt_loop m call fuel s bs result
        ≡ some (result ++ (bytewise f s bs).0, (bytewise f s bs).1)
  unfolding crypt_loop
  crypt_loop-bytewise f call does zero s bs result h = absurd (omega arith)
  crypt_loop-bytewise f call does (suc fuel) s bs result h =
      elim (Bool-cases (leb (length bs) room)) [
        | inl last ↦
            rw (crypt_loop, does s bs room, last, take_all room bs (leb→le (length bs) room last))
              refl
        | inr more ↦
            let shorter : length (drop room bs) < fuel = ground (arith, length-drop room bs) in
            rw (crypt_loop, does s bs room, more)
              (crypt_loop-bytewise f call does fuel _ (drop room bs) _ shorter
                ∙ rw (append_assoc, bytewise-append_split f s bs room) refl)
      ]

module _ (m : CtrMode) (laws : IsCounterMode m) where
  -- Over a counter mode, as the crate crypto documents it, `encrypt` ends without an error on bytes
  -- of any length, and gives what the mode makes of them byte after byte.
  pub encrypt-bytewise :
      (k : Cryptor m) (bs : Bytes)
      → let (result, s') = bytewise laws.encrypt_byte k.cryptor bs in
        encrypt m k bs ≡ some (result, record k { cryptor = s' })
  unfolding encrypt
  encrypt-bytewise k bs =
      rw
        (crypt_loop-bytewise m laws.encrypt_byte m.encrypt laws.encrypts (suc (length bs)) k.cryptor
          bs [] (omega arith))
        refl

  decrypt-bytewise :
      (k : Cryptor m) (bs : Bytes)
      → let (result, s') = bytewise laws.decrypt_byte k.cryptor bs in
        decrypt m k bs ≡ some (result, record k { cryptor = s' })
  unfolding decrypt
  decrypt-bytewise k bs =
      rw
        (crypt_loop-bytewise m laws.decrypt_byte m.decrypt laws.decrypts (suc (length bs)) k.cryptor
          bs [] (omega arith))
        refl

  bytewise-bytewise :
      (s : m.State) (bs : Bytes)
      → let (result, s') = bytewise laws.encrypt_byte s bs in
        bytewise laws.decrypt_byte s result ≡ (bs, s')
  unfolding bytewise
  bytewise-bytewise s [] = refl
  bytewise-bytewise s (b ∷ bs) =
      rw (laws.decrypt-encrypt_byte s b, bytewise-bytewise (laws.encrypt_byte s b).1 bs) refl

-- The result of an operation, and in the case of an error, which does not come, no bytes.
abbrev result_or : {m : CtrMode} → Cryptor m → Option (Bytes × Cryptor m) → Bytes × Cryptor m
result_or k (some r) = r
result_or k none = ([], k)

-- The tunnel's cipher by the operations of `Cryptor`.
unfoldable pub cipher : CtrMode → Cipher
cipher m = record {
  Cryptor = Cryptor m;
  with_ctr = with_ctr m;
  encrypt = λ k bs. result_or k (encrypt m k bs);
  decrypt = λ k bs. result_or k (decrypt m k bs);
}

-- Over a counter mode, as the crate crypto documents it, the cryptor's operations are a stream
-- cipher, as the tunnel's theorems want one: encryption keeps the length, and decryption from the
-- same state gives back what was encrypted and moves as far.
pub cipher-IsStreamCipher : (m : CtrMode) → IsCounterMode m → IsStreamCipher (cipher m)
unfolding cipher
cipher-IsStreamCipher m laws = record {
  length-encrypt =
      λ k bs. rw (encrypt-bytewise m laws k bs) (length-bytewise laws.encrypt_byte k.cryptor bs);
  decrypt-encrypt = λ k bs.
      rw
        (
          encrypt-bytewise m laws k bs,
          decrypt-bytewise m laws k (bytewise laws.encrypt_byte k.cryptor bs).0,
          bytewise-bytewise m laws k.cryptor bs,
        )
        refl;
}
