-- ===== src/Base/Maps.antt =====
-- `HashMap<u32, V>` as an association list in which an insertion replaces.
use Prim.Native.Nat.{ℕ}
use mathlib.Core.Path.{◌≡◌, refl}
use mathlib.Core.Logic.{◌≢◌, inl, inr}
use mathlib.Core.Bool.{false}
use mathlib.Core.Option.{Option, none, some}
use mathlib.Core.List.{List, [], ◌∷◌}
use native.Mathlib.Omega.{arith}
use stunnel.Base.Tests.{◌==◌, if◌then◌else◌, Bool-cases, ==-self}

module _ {ℓ} {V : Type ℓ} where
  unfoldable pub get : ℕ → List (ℕ × V) → Option V
  get key [] = none
  get key (e ∷ map) = let later = get key map in if e.0 == key then some e.1 else later

  unfoldable pub remove : ℕ → List (ℕ × V) → List (ℕ × V)
  remove key [] = []
  remove key (e ∷ map) = let later = remove key map in if e.0 == key then later else e ∷ later

  abbrev pub insert : ℕ → V → List (ℕ × V) → List (ℕ × V)
  insert key v map = (key, v) ∷ remove key map

  pub get-remove_same : (key : ℕ) (map : List (ℕ × V)) → get key (remove key map) ≡ none
  unfolding get remove
  get-remove_same key [] = refl
  get-remove_same key (e ∷ map) = elim (Bool-cases (e.0 == key)) [
    | inl same ↦ rw same (get-remove_same key map)
    | inr other ↦ rw (other, other) (get-remove_same key map)
  ]

  pub get-remove_other :
      (key other : ℕ) (map : List (ℕ × V))
      → other ≢ key
      → get other (remove key map) ≡ get other map
  unfolding get remove
  get-remove_other key other [] h = refl
  get-remove_other key other (e ∷ map) h = elim (Bool-cases (e.0 == key)) [
    | inl same ↦
        let differs : (e.0 == other) ≡ false = ground arith in
        rw (same, differs) (get-remove_other key other map h)
    | inr differs ↦ rw (differs, get-remove_other key other map h) refl
  ]

  pub get-insert_same : (key : ℕ) (v : V) (map : List (ℕ × V)) → get key (insert key v map) ≡ some v
  unfolding get
  get-insert_same key v map = rw (==-self key) refl

  pub get-insert_other :
      (key other : ℕ) (v : V) (map : List (ℕ × V))
      → other ≢ key
      → get other (insert key v map) ≡ get other map
  unfolding get
  get-insert_other key other v map h =
      let differs : (key == other) ≡ false = ground arith in
      rw differs (get-remove_other key other map h)
