-- ===== src/Base/Lists.antt =====
-- Lists measured by native numbers, and buffers that are read and written in place.
use Prim.Native.Nat.{ℕ, zero, suc, ◌+◌, ◌-◌, ◌≤◌, min}
use Prim.Native.Nat.add
use mathlib.Core.Path.{◌≡◌, refl, sym, ap, ◌∙◌}
use mathlib.Core.List.{List, [], ◌∷◌, ◌++◌}
use native.Mathlib.Omega.{arith}

module _ {ℓ} {A : Type ℓ} where
  abbrev pub length : List A → ℕ
  length [] = 0
  length (x ∷ xs) = suc (length xs)

  abbrev pub take : ℕ → List A → List A
  take zero xs = []
  take (suc n) [] = []
  take (suc n) (x ∷ xs) = x ∷ take n xs

  abbrev pub drop : ℕ → List A → List A
  drop zero xs = xs
  drop (suc n) [] = []
  drop (suc n) (x ∷ xs) = drop n xs

  unfoldable pub replicate : ℕ → A → List A
  replicate zero a = []
  replicate (suc n) a = a ∷ replicate n a

  -- `buf[off..off + n]`
  abbrev pub slice : ℕ → ℕ → List A → List A
  slice off n xs = take n (drop off xs)

  -- The list `bs` laid over the front of a buffer, which keeps its length.
  abbrev pub overlay : List A → List A → List A
  overlay [] xs = xs
  overlay (b ∷ bs) [] = []
  overlay (b ∷ bs) (x ∷ xs) = b ∷ overlay bs xs

  -- `buf[off..off + bs.len()].copy_from_slice(bs)`
  abbrev pub splice : ℕ → List A → List A → List A
  splice zero bs xs = overlay bs xs
  splice (suc n) bs [] = []
  splice (suc n) bs (x ∷ xs) = x ∷ splice n bs xs

  abbrev pub All {κ} : (A → Type κ) → List A → Type κ
  All P [] = Unit {κ}
  All P (x ∷ xs) = P x × All P xs

module _ {ℓ} {A : Type ℓ} where
  pub length-append : (xs ys : List A) → length (xs ++ ys) ≡ length xs + length ys
  length-append [] ys = omega arith
  length-append (x ∷ xs) ys = omega (arith, length-append xs ys)

  pub length-take : (n : ℕ) (xs : List A) → length (take n xs) ≡ min n (length xs)
  length-take zero xs = omega arith
  length-take (suc n) [] = omega arith
  length-take (suc n) (x ∷ xs) = omega (arith, length-take n xs)

  pub length-drop : (n : ℕ) (xs : List A) → length (drop n xs) ≡ length xs - n
  length-drop zero xs = omega arith
  length-drop (suc n) [] = omega arith
  length-drop (suc n) (x ∷ xs) = omega (arith, length-drop n xs)

  pub length-replicate : (n : ℕ) (a : A) → length (replicate n a) ≡ n
  unfolding replicate
  length-replicate zero a = refl
  length-replicate (suc n) a = ap suc (length-replicate n a)

  pub length-overlay : (bs xs : List A) → length (overlay bs xs) ≡ length xs
  length-overlay [] xs = refl
  length-overlay (b ∷ bs) [] = refl
  length-overlay (b ∷ bs) (x ∷ xs) = ap suc (length-overlay bs xs)

  pub length-splice : (off : ℕ) (bs xs : List A) → length (splice off bs xs) ≡ length xs
  length-splice zero bs xs = length-overlay bs xs
  length-splice (suc n) bs [] = refl
  length-splice (suc n) bs (x ∷ xs) = ap suc (length-splice n bs xs)

  pub take-append-drop : (n : ℕ) (xs : List A) → take n xs ++ drop n xs ≡ xs
  take-append-drop zero xs = refl
  take-append-drop (suc n) [] = refl
  take-append-drop (suc n) (x ∷ xs) = ap (◌∷◌ x) (take-append-drop n xs)

  pub take_all : (n : ℕ) (xs : List A) → length xs ≤ n → take n xs ≡ xs
  take_all zero [] h = refl
  take_all zero (x ∷ xs) h = absurd (omega arith)
  take_all (suc n) [] h = refl
  take_all (suc n) (x ∷ xs) h = ap (◌∷◌ x) (take_all n xs (omega arith))

  pub take-append : (xs ys : List A) → take (length xs) (xs ++ ys) ≡ xs
  take-append [] ys = refl
  take-append (x ∷ xs) ys = ap (◌∷◌ x) (take-append xs ys)

  pub drop-append : (xs ys : List A) → drop (length xs) (xs ++ ys) ≡ ys
  drop-append [] ys = refl
  drop-append (x ∷ xs) ys = drop-append xs ys

  take-overlay :
      (n : ℕ) (bs xs : List A)
      → n ≤ length bs
      → length bs ≤ length xs
      → take n (overlay bs xs) ≡ take n bs
  take-overlay zero bs xs h k = refl
  take-overlay (suc n) [] xs h k = absurd (omega arith)
  take-overlay (suc n) (b ∷ bs) [] h k = absurd (omega arith)
  take-overlay (suc n) (b ∷ bs) (x ∷ xs) h k =
      ap (◌∷◌ b) (take-overlay n bs xs (omega arith) (omega arith))

  -- Reading what was laid over the front.
  pub slice-overlay :
      (i n : ℕ) (bs xs : List A)
      → i + n ≤ length bs
      → length bs ≤ length xs
      → slice i n (overlay bs xs) ≡ slice i n bs
  slice-overlay zero n bs xs h k = take-overlay n bs xs (omega arith) k
  slice-overlay (suc i) zero bs xs h k = refl
  slice-overlay (suc i) (suc n) [] xs h k = absurd (omega arith)
  slice-overlay (suc i) (suc n) (b ∷ bs) [] h k = absurd (omega arith)
  slice-overlay (suc i) (suc n) (b ∷ bs) (x ∷ xs) h k =
      slice-overlay i (suc n) bs xs (omega arith) (omega arith)

  take_nil : (n : ℕ) → ◌≡◌ {A = List A} (take n []) []
  take_nil zero = refl
  take_nil (suc n) = refl

  drop_nil : (n : ℕ) → ◌≡◌ {A = List A} (drop n []) []
  drop_nil zero = refl
  drop_nil (suc n) = refl

  take_split : (m n : ℕ) (xs : List A) → take (m + n) xs ≡ take m xs ++ take n (drop m xs)
  take_split zero n xs = rw (add.zero n) refl
  take_split (suc m) n [] = rw (add.suc m n) (sym (take_nil n))
  take_split (suc m) n (x ∷ xs) = rw (add.suc m n) (ap (◌∷◌ x) (take_split m n xs))

  drop-drop : (m n : ℕ) (xs : List A) → drop n (drop m xs) ≡ drop (m + n) xs
  drop-drop zero n xs = rw (add.zero n) refl
  drop-drop (suc m) n [] = rw (add.suc m n) (drop_nil n)
  drop-drop (suc m) n (x ∷ xs) = rw (add.suc m n) (drop-drop m n xs)

  -- A read is the concatenation of two adjacent reads.
  pub slice_split :
      (i m n : ℕ) (xs : List A) → slice i (m + n) xs ≡ slice i m xs ++ slice (i + m) n xs
  slice_split i m n xs = take_split m n (drop i xs) ∙ rw (drop-drop i m xs) refl

  -- A read of what was written.
  pub slice-splice_same :
      (off : ℕ) (bs xs : List A)
      → off + length bs ≤ length xs
      → slice off (length bs) (splice off bs xs) ≡ bs
  slice-splice_same zero bs xs h =
      slice-overlay 0 (length bs) bs xs (omega arith) (omega arith)
      ∙ take_all (length bs) bs (omega arith)
  slice-splice_same (suc off) [] [] h = refl
  slice-splice_same (suc off) (b ∷ bs) [] h = absurd (omega arith)
  slice-splice_same (suc off) bs (x ∷ xs) h = slice-splice_same off bs xs (omega arith)

  -- A read below a write.
  pub slice-splice_before :
      (i n off : ℕ) (bs xs : List A) → i + n ≤ off → slice i n (splice off bs xs) ≡ slice i n xs
  slice-splice_before zero zero off bs xs h = refl
  slice-splice_before (suc i) zero off bs xs h = refl
  slice-splice_before i (suc n) zero bs xs h = absurd (omega arith)
  slice-splice_before zero (suc n) (suc off) bs [] h = refl
  slice-splice_before (suc i) (suc n) (suc off) bs [] h = refl
  slice-splice_before zero (suc n) (suc off) bs (x ∷ xs) h =
      ap (◌∷◌ x) (slice-splice_before 0 n off bs xs (omega arith))
  slice-splice_before (suc i) (suc n) (suc off) bs (x ∷ xs) h =
      slice-splice_before i (suc n) off bs xs (omega arith)

  drop-overlay : (i : ℕ) (bs xs : List A) → length bs ≤ i → drop i (overlay bs xs) ≡ drop i xs
  drop-overlay i [] xs h = refl
  drop-overlay zero (b ∷ bs) xs h = absurd (omega arith)
  drop-overlay (suc i) (b ∷ bs) [] h = refl
  drop-overlay (suc i) (b ∷ bs) (x ∷ xs) h = drop-overlay i bs xs (omega arith)

  drop-splice :
      (i off : ℕ) (bs xs : List A) → off + length bs ≤ i → drop i (splice off bs xs) ≡ drop i xs
  drop-splice i zero bs xs h = drop-overlay i bs xs (omega arith)
  drop-splice zero (suc off) bs xs h = absurd (omega arith)
  drop-splice (suc i) (suc off) bs [] h = refl
  drop-splice (suc i) (suc off) bs (x ∷ xs) h = drop-splice i off bs xs (omega arith)

  -- A read above a write.
  pub slice-splice_after :
      (i n off : ℕ) (bs xs : List A)
      → off + length bs ≤ i
      → slice i n (splice off bs xs) ≡ slice i n xs
  slice-splice_after i n off bs xs h = ap (take n) (drop-splice i off bs xs h)

  overlay-overlay :
      (ws bs xs : List A) → splice (length ws) bs (overlay ws xs) ≡ overlay (ws ++ bs) xs
  overlay-overlay [] bs xs = refl
  overlay-overlay (a ∷ ws) bs [] = refl
  overlay-overlay (a ∷ ws) bs (x ∷ xs) = ap (◌∷◌ a) (overlay-overlay ws bs xs)

  -- Two adjacent writes are one write.
  pub splice-splice :
      (off : ℕ) (ws bs xs : List A)
      → splice (off + length ws) bs (splice off ws xs) ≡ splice off (ws ++ bs) xs
  splice-splice zero ws bs xs = rw (add.zero (length ws)) (overlay-overlay ws bs xs)
  splice-splice (suc off) ws bs [] = rw (add.suc off (length ws)) refl
  splice-splice (suc off) ws bs (x ∷ xs) =
      rw (add.suc off (length ws)) (ap (◌∷◌ x) (splice-splice off ws bs xs))

  pub length-slice : (i n : ℕ) (xs : List A) → i + n ≤ length xs → length (slice i n xs) ≡ n
  length-slice i n xs h = omega (arith, length-take n (drop i xs), length-drop i xs)

  pub slice-append_left : (ws bs : List A) → slice 0 (length ws) (ws ++ bs) ≡ ws
  slice-append_left ws bs = take-append ws bs

  pub splice-splice_at :
      (off k : ℕ) (ws bs xs : List A)
      → length ws ≡ k
      → splice (off + k) bs (splice off ws xs) ≡ splice off (ws ++ bs) xs
  splice-splice_at off k ws bs xs h = rw (← h) (splice-splice off ws bs xs)

  pub slice-splice_at :
      (off k : ℕ) (bs xs : List A)
      → length bs ≡ k
      → off + k ≤ length xs
      → slice off k (splice off bs xs) ≡ bs
  slice-splice_at off k bs xs h fits = rw (← h) (slice-splice_same off bs xs (omega arith))

module _ {ℓ κ} {A : Type ℓ} (P : A → Type κ) where
  pub All-append : (xs ys : List A) → All P xs → All P ys → All P (xs ++ ys)
  All-append [] ys hx hy = hy
  All-append (x ∷ xs) ys hx hy = (hx.0, All-append xs ys hx.1 hy)

  pub All-take : (n : ℕ) (xs : List A) → All P xs → All P (take n xs)
  All-take zero xs h = tt
  All-take (suc n) [] h = tt
  All-take (suc n) (x ∷ xs) h = (h.0, All-take n xs h.1)

  pub All-drop : (n : ℕ) (xs : List A) → All P xs → All P (drop n xs)
  All-drop zero xs h = h
  All-drop (suc n) [] h = tt
  All-drop (suc n) (x ∷ xs) h = All-drop n xs h.1

module _ {ℓ} {A : Type ℓ} where
  -- Two equal lists that are split at the same place have equal parts.
  pub append-injective :
      (ws bs xs ys : List A) → length ws ≡ length bs → ws ++ xs ≡ bs ++ ys → (ws ≡ bs) × (xs ≡ ys)
  append-injective [] [] xs ys h e = (refl, e)
  append-injective [] (b ∷ bs) xs ys h e = absurd (omega arith)
  append-injective (w ∷ ws) [] xs ys h e = absurd (omega arith)
  append-injective (w ∷ ws) (b ∷ bs) xs ys h e =
      let rest : (ws ≡ bs) × (xs ≡ ys) = append-injective ws bs xs ys (omega arith) (cc) in
      (cc (rest.0), rest.1)
