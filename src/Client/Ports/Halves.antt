-- ===== src/Client/Ports/Halves.antt =====
-- src/client.rs: the life of a port in `PortHub`.
use stunnel.Base.{
  ℕ, ◌≤◌, ◌≡◌, refl, sym, subst, ◌∙◌, ◌≢◌, Bool, Bool-cases, Option-cases, inl, inr, none, some, [],
  Bytes, ◌==◌, sub_u32, get, insert, remove, get-insert_same, get-insert_other, get-remove_same,
  get-remove_other, arith,
}
use native.Mathlib.Decide.{ℕ_discrete}
use stunnel.Client.{TunnelPortMsg}
use stunnel.Client.Ports.{
  Port, PortHub, add_port, update_port, drop_port_half, client_close_port, server_close_port,
  try_send_msg,
}

-- A port that is known has one half or two.
abbrev pub IsHub : PortHub → Type 0
IsHub hub = (id : ℕ) (v : Port) → get id hub.ports ≡ some v → (1 ≤ v.count) × (v.count ≤ 2)

-- An operation on port `id` as far as the ports go: the others stay, and it is gone, as it was, or has
-- one half or two.
pub record Touches (id : ℕ) (hub hub' : PortHub) : Type 0 where
  pub others : (other : ℕ) → other ≢ id → get other hub'.ports ≡ get other hub.ports
  pub keeps : IsHub hub → IsHub hub'

some_lem : {v u : Port} → some v ≡ some u → v ≡ u
some_lem h = cc h

module _ (id : ℕ) (hub : PortHub) where
  pub Touches-same : (hub' : PortHub) → hub'.ports ≡ hub.ports → Touches id hub hub'
  Touches-same hub' e = record {
    others = λ other h. rw e refl;
    keeps = λ ok k v h. ok k v (rw e at h);
  }

  Touches-remove : (hub' : PortHub) → hub'.ports ≡ remove id hub.ports → Touches id hub hub'
  Touches-remove hub' e = record {
    others = λ other h. rw e (get-remove_other id other hub.ports h);
    keeps = λ ok k v h. elim (ℕ_discrete k id) [
      | yes same ↦ absurd (cc (get-remove_same id hub.ports, rw (e, same) at h))
      | no other ↦ ok k v (sym (get-remove_other id k hub.ports other) ∙ rw e at h)
    ];
  }

  Touches-insert :
      (hub' : PortHub) (v : Port)
      → hub'.ports ≡ insert id v hub.ports
      → (IsHub hub → (1 ≤ v.count) × (v.count ≤ 2))
      → Touches id hub hub'
  Touches-insert hub' v e ok = record {
    others = λ other h. rw e (get-insert_other id other v hub.ports h);
    keeps = λ hub_ok k u h. elim (ℕ_discrete k id) [
      | yes same ↦
          subst (λ x. (1 ≤ x.count) × (x.count ≤ 2))
            (some_lem (sym (get-insert_same id v hub.ports) ∙ rw (e, same) at h)) (ok hub_ok)
      | no other ↦ hub_ok k u (sym (get-insert_other id k v hub.ports other) ∙ rw e at h)
    ];
  }

  pub add_port-Touches : (tx : ℕ) → Touches id hub (add_port hub id tx)
  unfolding add_port
  add_port-Touches tx = Touches-insert _ _ refl (λ ok. omega arith)

  pub update_port-Touches :
      (host : Bytes) (port : ℕ) → Touches id hub (update_port hub id host port)
  unfolding update_port
  update_port-Touches host port = elim (Option-cases (get id hub.ports)) [
    | inl e ↦ rw (update_port, e) (Touches-same hub refl)
    | inr (v, e) ↦ rw (update_port, e) (Touches-insert _ _ refl (λ ok. ok id v e))
  ]

  pub drop_port_half-Touches : Touches id hub (drop_port_half hub id)
  unfolding drop_port_half
  drop_port_half-Touches = elim (Option-cases (get id hub.ports)) [
    | inl e ↦ rw (drop_port_half, e) (Touches-same hub refl)
    | inr (v, e) ↦ elim (Bool-cases (sub_u32 v.count 1 == 0)) [
      | inl last ↦ rw (drop_port_half, e, last) (Touches-remove _ refl)
      | inr more ↦
          rw (drop_port_half, e, more) (Touches-insert _ _ refl (λ ok. ground (arith, ok id v e)))
    ]
  ]

  pub client_close_port-Touches : Touches id hub (client_close_port hub id)
  unfolding client_close_port
  client_close_port-Touches = elim (Option-cases (get id hub.ports)) [
    | inl e ↦ rw (client_close_port, e) (Touches-same hub refl)
    | inr (v, e) ↦ rw (client_close_port, e) (Touches-remove _ refl)
  ]

  pub server_close_port-Touches : Touches id hub (server_close_port hub id)
  unfolding server_close_port
  server_close_port-Touches = elim (Option-cases (get id hub.ports)) [
    | inl e ↦ rw (server_close_port, e) (Touches-same hub refl)
    | inr (v, e) ↦ rw (server_close_port, e) (Touches-remove _ refl)
  ]

  module _ (closed : ℕ → Bool) where
    pub try_send_msg-Touches :
        (msg : TunnelPortMsg) → Touches id hub (try_send_msg closed hub id msg)
    unfolding try_send_msg
    try_send_msg-Touches msg = elim (Option-cases (get id hub.ports)) [
      | inl e ↦ rw (try_send_msg, e) (Touches-same hub refl)
      | inr (v, e) ↦ elim (Bool-cases (closed v.tx)) [
        | inl lost ↦ rw (try_send_msg, e, lost) (Touches-remove _ refl)
        | inr open_channel ↦ rw (try_send_msg, e, open_channel) (Touches-same _ refl)
      ]
    ]

    pub known-Touches :
        (msg : TunnelPortMsg)
        → Touches id hub
            (elim (get id hub.ports) [ some value ↦ try_send_msg closed hub id msg | none ↦ hub ])
    known-Touches msg = elim (Option-cases (get id hub.ports)) [
      | inl e ↦ rw e (Touches-same hub refl)
      | inr (v, e) ↦ rw e (try_send_msg-Touches msg)
    ]

drop_port_half_last :
    (hub : PortHub) (id : ℕ) (v : Port)
    → get id hub.ports ≡ some v
    → v.count ≡ 1
    → drop_port_half hub id ≡ record hub { ports = remove id hub.ports }
unfolding drop_port_half
drop_port_half_last hub id v e one = rw (drop_port_half, e, one) refl

-- A port has two halves when it is opened, one after a half is dropped, on the same channel, and it
-- is gone after the other is; no other port is touched.
pub drop_port_half-add_port :
    (hub : PortHub) (id tx : ℕ)
    → let one = drop_port_half (add_port hub id tx) id in
      ((v : Port) × (get id one.ports ≡ some v) × (v.count ≡ 1) × (v.tx ≡ tx))
      × (get id (drop_port_half one id).ports ≡ none)
      × ((other : ℕ) → other ≢ id → get other (drop_port_half one id).ports ≡ get other hub.ports)
unfolding drop_port_half add_port
drop_port_half-add_port hub id tx = (
  (half, halved, refl, refl),
  gone,
  λ other h.
      (drop_port_half-Touches id one).others other h
      ∙ (drop_port_half-Touches id (add_port hub id tx)).others other h
      ∙ (add_port-Touches id hub tx).others other h,
)
  where
    one : PortHub
    one = drop_port_half (add_port hub id tx) id

    half : Port
    half = record { host = []; port = 0; count = 1; tx = tx }

    halved : get id one.ports ≡ some half
    halved =
        rw
          (
            drop_port_half,
            get-insert_same id (record { host = []; port = 0; count = 2; tx = tx }) hub.ports,
          )
          (get-insert_same id half _)

    gone : get id (drop_port_half one id).ports ≡ none
    gone = rw (drop_port_half_last one id half halved refl) (get-remove_same id one.ports)
