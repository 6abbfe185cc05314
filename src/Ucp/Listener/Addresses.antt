-- ===== src/Ucp/Listener/Addresses.antt =====
-- src/ucp/listener.rs: `HashMap<SocketAddr, V>` as an association list in which an insertion replaces.
use stunnel.Base.{
  ◌≡◌, refl, inl, inr, true, false, Bool-cases, Option, none, some, List, [], ◌∷◌, if◌then◌else◌,
  SocketAddr, v4, v6, addr_eq, arith,
}

pub addr_eq_self : (a : SocketAddr) → addr_eq a a ≡ true
addr_eq_self (v4 ip port) = ground arith
addr_eq_self (v6 ip port flow scope) = ground arith

pub addr_eq→eq : (a b : SocketAddr) → addr_eq a b ≡ true → a ≡ b
addr_eq→eq (v4 ip port) (v4 ip' port') h = ground arith
addr_eq→eq (v6 ip port flow scope) (v6 ip' port' flow' scope') h = ground arith
addr_eq→eq (v4 ip port) (v6 ip' port' flow' scope') h = absurd (cc h)
addr_eq→eq (v6 ip port flow scope) (v4 ip' port') h = absurd (cc h)

module _ {ℓ} {V : Type ℓ} where
  unfoldable pub get : SocketAddr → List (SocketAddr × V) → Option V
  get addr [] = none
  get addr (e ∷ map) = let later = get addr map in if addr_eq e.0 addr then some e.1 else later

  unfoldable pub remove : SocketAddr → List (SocketAddr × V) → List (SocketAddr × V)
  remove addr [] = []
  remove addr (e ∷ map) =
      let later = remove addr map in if addr_eq e.0 addr then later else e ∷ later

  abbrev pub insert : SocketAddr → V → List (SocketAddr × V) → List (SocketAddr × V)
  insert addr v map = (addr, v) ∷ remove addr map

  pub get-remove_same :
      (addr : SocketAddr) (map : List (SocketAddr × V)) → get addr (remove addr map) ≡ none
  unfolding get remove
  get-remove_same addr [] = refl
  get-remove_same addr (e ∷ map) = elim (Bool-cases (addr_eq e.0 addr)) [
    | inl same ↦ rw same (get-remove_same addr map)
    | inr other ↦ rw (other, other) (get-remove_same addr map)
  ]

  pub get-remove_other :
      (addr other : SocketAddr) (map : List (SocketAddr × V))
      → addr_eq addr other ≡ false
      → get other (remove addr map) ≡ get other map
  unfolding get remove
  get-remove_other addr other [] h = refl
  get-remove_other addr other (e ∷ map) h = elim (Bool-cases (addr_eq e.0 addr)) [
    | inl same ↦
        let differs : addr_eq e.0 other ≡ false = rw (addr_eq→eq e.0 addr same) h in
        rw (same, differs) (get-remove_other addr other map h)
    | inr differs ↦ rw (differs, get-remove_other addr other map h) refl
  ]

  pub get-insert_same :
      (addr : SocketAddr) (v : V) (map : List (SocketAddr × V))
      → get addr (insert addr v map) ≡ some v
  unfolding get
  get-insert_same addr v map = rw (addr_eq_self addr) refl

  pub get-insert_other :
      (addr other : SocketAddr) (v : V) (map : List (SocketAddr × V))
      → addr_eq addr other ≡ false
      → get other (insert addr v map) ≡ get other map
  unfolding get
  get-insert_other addr other v map h = rw h (get-remove_other addr other map h)
