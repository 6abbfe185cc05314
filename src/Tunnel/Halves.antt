-- ===== src/Tunnel/Halves.antt =====
-- src/client.rs, src/server.rs: how many halves a port of the maps in `PortHub` has at most, and how the messages of
-- its two ends, other ports' among them, bring it to an end.
use stunnel.Base.{
  ℕ, ◌≤◌, ◌≡◌, ◌≢◌, refl, sym, ◌∙◌, none, some, List, [], ◌∷◌, get, insert, remove, get-insert_same,
  get-insert_other, get-remove_same, get-remove_other, arith,
}
use mathlib.Core.Option.{some-injective}
use native.Mathlib.Decide.{ℕ_discrete}

module _ {P : Type 0} (count : P → ℕ) (id : ℕ) where
  -- The port is not known, or has one half at least and so many at most.
  abbrev pub AtMost : ℕ → List (ℕ × P) → Type 0
  AtMost n ports = (v : P) → get id ports ≡ some v → (1 ≤ count v) × (count v ≤ n)

  pub gone : (ports : List (ℕ × P)) → AtMost 0 ports → get id ports ≡ none
  gone ports h =
      elim (get id ports)
          as (λ o. ((v : P) → o ≡ some v → (1 ≤ count v) × (count v ≤ 0)) → o ≡ none) [
            | none ↦ λ k. refl
            | some v ↦ λ k. absurd (omega (arith, (k v refl).0, (k v refl).1))
          ]
        h

  module _ (n : ℕ) (ports : List (ℕ × P)) (h : AtMost n ports) where
    pub AtMost-remove : (k : ℕ) → AtMost n (remove k ports)
    AtMost-remove k v e = elim (ℕ_discrete id k) [
      | yes same ↦ absurd (cc (get-remove_same k ports, rw same at e))
      | no other ↦ h v (sym (get-remove_other k id ports other) ∙ e)
    ]

    pub AtMost-insert_other : (k : ℕ) (u : P) → id ≢ k → AtMost n (insert k u ports)
    AtMost-insert_other k u other v e = h v (sym (get-insert_other k id u ports other) ∙ e)

    pub AtMost-update :
        (k : ℕ) (u v : P) → get k ports ≡ some v → count u ≡ count v → AtMost n (insert k u ports)
    AtMost-update k u v e same w g = elim (ℕ_discrete id k) [
      | yes here ↦
          let is : u ≡ w = some-injective u w (sym (get-insert_same k u ports) ∙ rw here at g) in
          rw (← is, same) (h v (rw here e))
      | no other ↦ h w (sym (get-insert_other k id u ports other) ∙ g)
    ]

  pub AtMost-remove_same : (n : ℕ) (ports : List (ℕ × P)) → AtMost n (remove id ports)
  AtMost-remove_same n ports v e = absurd (cc (get-remove_same id ports, e))

  pub AtMost-insert_same :
      (n : ℕ) (u : P) (ports : List (ℕ × P))
      → 1 ≤ count u
      → count u ≤ n
      → AtMost n (insert id u ports)
  AtMost-insert_same n u ports low high v e =
      let is : u ≡ v = some-injective u v (sym (get-insert_same id u ports) ∙ e) in
      rw (← is) (low, high)

-- The messages of the two ends of a port, each in its order, among others.
pub data Merge {M : Type 0} (Other : M → Type 0) : List M → List M → List M → Type 0 where
  done : Merge Other [] [] []
  left : {xs ys zs : List M} (m : M) → Merge Other xs ys zs → Merge Other (m ∷ xs) ys (m ∷ zs)
  right : {xs ys zs : List M} (m : M) → Merge Other xs ys zs → Merge Other xs (m ∷ ys) (m ∷ zs)
  other : {xs ys zs : List M} (m : M) → Other m → Merge Other xs ys zs → Merge Other xs ys (m ∷ zs)
