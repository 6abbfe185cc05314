-- ===== src/Logger/Rotation.antt =====
-- src/logger.rs: a rotation moves each log file to the next number, and the oldest goes.
use stunnel.Base.{
  ℕ, zero, suc, ◌+◌, ◌-◌, ◌*◌, ◌/◌, ◌%◌, ◌<◌, ◌≤◌, ◌≡◌, ◌≢◌, refl, sym, ap, ◌∙◌, inl, inr, true,
  false, Bool-cases, Option-cases, Option, none, [], ◌∷◌, ◌++◌, Bytes, length, length-append, ltb,
  lt→ltb, ◌==◌, ==→eq, ==-self, append-injective, arith,
}
use native.Mathlib.Decide.{ℕ_discrete}
use stunnel.Logger.{
  Files, same_path, remove_file, moved, rename, digits, to_string, get_rotate_name, rotate_loop,
  rotate_file,
}

same_path_self : (p : Bytes) → same_path p p ≡ true
same_path_self [] = refl
same_path_self (b ∷ p) = rw (==-self b) (same_path_self p)

same_path→eq : (p q : Bytes) → same_path p q ≡ true → p ≡ q
same_path→eq [] [] h = refl
same_path→eq [] (b ∷ q) h = absurd (cc h)
same_path→eq (a ∷ p) [] h = absurd (cc h)
same_path→eq (a ∷ p) (b ∷ q) h = elim (Bool-cases (a == b)) [
  | inl same ↦ rw (==→eq a b same) (ap (◌∷◌ b) (same_path→eq p q (rw same at h)))
  | inr other ↦ absurd (cc (rw other at h))
]

-- The number that digits stand for.
value : ℕ → Bytes → ℕ
value acc [] = acc
value acc (d ∷ ds) = value (acc * 10 + (d - b'0')) ds

value-append : (acc : ℕ) (xs ys : Bytes) → value acc (xs ++ ys) ≡ value (value acc xs) ys
unfolding value
value-append acc [] ys = refl
value-append acc (x ∷ xs) ys = value-append (acc * 10 + (x - b'0')) xs ys

value-digits : (fuel n : ℕ) → n < fuel → value 0 (digits fuel n) ≡ n
unfolding value digits
value-digits zero n h = absurd (omega arith)
value-digits (suc fuel) n h = elim (Bool-cases (ltb n 10)) [
  | inl small ↦ rw small (omega arith)
  | inr more ↦
      let front : value 0 (digits fuel (n / 10)) ≡ n / 10 =
        value-digits fuel (n / 10) (ground arith) in
      rw (more, value-append 0 (digits fuel (n / 10)) ((b'0' + n % 10) ∷ []), front) (omega arith)
]

to_string-injective : (m n : ℕ) → to_string m ≡ to_string n → m ≡ n
to_string-injective m n e =
    sym (value-digits (suc m) m (omega arith))
    ∙ ap (value 0) e
    ∙ value-digits (suc n) n (omega arith)

module _ (path : Bytes) where
  abbrev name : ℕ → Bytes
  name k = get_rotate_name path k

  name-suc : (k : ℕ) → name (suc k) ≡ path ++ b'.' ∷ to_string (suc k)
  unfolding get_rotate_name
  name-suc k = rw (lt→ltb 0 (suc k) (omega arith)) refl

  name_first-ne : (k : ℕ) → name 0 ≢ name (suc k)
  unfolding get_rotate_name
  name_first-ne k e =
      omega (arith, ap length (e ∙ name-suc k), length-append path (b'.' ∷ to_string (suc k)))

  name-injective : (j k : ℕ) → name j ≡ name k → j ≡ k
  name-injective zero zero e = refl
  name-injective zero (suc k) e = absurd (name_first-ne k e)
  name-injective (suc j) zero e = absurd (name_first-ne j (sym e))
  name-injective (suc j) (suc k) e =
      let same : path ++ b'.' ∷ to_string (suc j) ≡ path ++ b'.' ∷ to_string (suc k) =
        sym (name-suc j) ∙ e ∙ name-suc k in
      to_string-injective (suc j) (suc k) (
        tail
          (append-injective path path (b'.' ∷ to_string (suc j)) (b'.' ∷ to_string (suc k)) refl
            same).1)
    where
      tail : {x y : ℕ} {xs ys : Bytes} → x ∷ xs ≡ y ∷ ys → xs ≡ ys
      tail h = cc h

  apart : (j k : ℕ) → j ≢ k → same_path (name j) (name k) ≡ false
  apart j k h = elim (Bool-cases (same_path (name j) (name k))) [
    | inl same ↦ absurd (h (name-injective j k (same_path→eq (name j) (name k) same)))
    | inr other ↦ other
  ]

  rename_to :
      (from to : Bytes) (files : Files)
      → files to ≡ none
      → same_path from to ≡ false
      → rename from to files to ≡ files from
  unfolding rename moved
  rename_to from to files free differs = elim (Option-cases (files from)) [
    | inl e ↦ rw (rename, moved, e) free
    | inr (content, e) ↦ rw (rename, moved, e, same_path_self to) refl
  ]

  rename_from :
      (from to : Bytes) (files : Files)
      → same_path to from ≡ false
      → rename from to files from ≡ none
  unfolding rename moved
  rename_from from to files differs = elim (Option-cases (files from)) [
    | inl e ↦ rw (rename, moved, e) e
    | inr (content, e) ↦ rw (rename, moved, e, differs, same_path_self from) refl
  ]

  rename_other :
      (from to p : Bytes) (files : Files)
      → same_path to p ≡ false
      → same_path from p ≡ false
      → rename from to files p ≡ files p
  unfolding rename moved
  rename_other from to p files a b = elim (Option-cases (files from)) [
    | inl e ↦ rw (rename, moved, e) refl
    | inr (content, e) ↦ rw (rename, moved, e, a, b) refl
  ]

  loop_other :
      (n : ℕ) (files : Files) (p : Bytes)
      → ((j : ℕ) → j ≤ n → same_path (name j) p ≡ false)
      → rotate_loop path n files p ≡ files p
  unfolding rotate_loop
  loop_other zero files p h = refl
  loop_other (suc n) files p h =
      loop_other n (rename (name n) (name (suc n)) files) p (λ j le. h j (omega arith))
      ∙ rename_other (name n) (name (suc n)) p files (h (suc n) (omega arith)) (h n (omega arith))

  -- What a file of the log holds after a rotation.
  abbrev pub before : Files → ℕ → Option Bytes
  before files zero = none
  before files (suc k) = files (name k)

  before-rename :
      (n k : ℕ) (files : Files)
      → k ≤ n
      → before (rename (name n) (name (suc n)) files) k ≡ before files k
  before-rename n zero files h = refl
  before-rename n (suc k) files h =
      rename_other (name n) (name (suc n)) (name k) files (apart (suc n) k (omega arith))
        (apart n k (omega arith))

  loop_shifts :
      (n k : ℕ) (files : Files)
      → k ≤ n
      → files (name n) ≡ none
      → rotate_loop path n files (name k) ≡ before files k
  unfolding rotate_loop
  loop_shifts zero zero files h free = free
  loop_shifts zero (suc k) files h free = absurd (omega arith)
  loop_shifts (suc n) k files h free = elim (ℕ_discrete k (suc n)) [
    | yes last ↦ rw last (
        loop_other n (rename (name n) (name (suc n)) files) (name (suc n))
          (λ j le. apart j (suc n) (omega arith))
        ∙ rename_to (name n) (name (suc n)) files free (apart n (suc n) (omega arith)))
    | no other ↦
        loop_shifts n k (rename (name n) (name (suc n)) files) (omega arith)
          (rename_from (name n) (name (suc n)) files (apart (suc n) n (omega arith)))
        ∙ before-rename n k files (omega arith)
  ]

  before-remove :
      (n k : ℕ) (files : Files) → k ≤ n → before (remove_file (name n) files) k ≡ before files k
  unfolding remove_file
  before-remove n zero files h = refl
  before-remove n (suc k) files h = rw (apart n k (omega arith)) refl

-- A rotation with a count above 0 leaves no current log file; each older file below the count holds
-- what the next younger one held, and no file with another name changes.
pub rotate_file_lem :
    (log_path : Bytes) (count : ℕ) (files : Files) (k : ℕ) (p : Bytes)
    → k < count
    → ((j : ℕ) → j < count → same_path (get_rotate_name log_path j) p ≡ false)
    → (rotate_file log_path count files (get_rotate_name log_path k) ≡ before log_path files k)
      × (rotate_file log_path count files p ≡ files p)
unfolding rotate_file remove_file
rotate_file_lem log_path zero files k p h other = absurd (omega arith)
rotate_file_lem log_path (suc n) files k p h other =
    let one_less : suc n - 1 ≡ n = omega arith in
    let oldest : Bytes = get_rotate_name log_path n in
    rw one_less (
      loop_shifts log_path n k (remove_file oldest files) (omega arith)
            (rw (same_path_self oldest) refl)
          ∙ before-remove log_path n k files (omega arith),
      loop_other log_path n (remove_file oldest files) p (λ j le. other j (omega arith))
          ∙ rw (other n (omega arith)) refl,
    )
