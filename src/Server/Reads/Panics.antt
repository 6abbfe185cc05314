-- ===== src/Server/Reads/Panics.antt =====
-- src/server.rs: when the reading of a tunnel panics.
use stunnel.Base.{
  ℕ, ◌<◌, ◌≡◌, ◌≢◌, refl, sym, ap, ◌∙◌, inl, inr, true, Bool-cases, Option-cases, some, ◌++◌, Bytes,
  length, length-take, take, drop, take-append-drop, ltb, ltb→lt, lt→ltb, leb, leb→le, ◌==◌, ==→eq,
  from_be, sub_u32, arith,
}
use mathlib.Core.Logic.{◌↔◌}
use stunnel.Tunnel.{Cipher, read_exact, panicked}
use stunnel.Tunnel.Exact.{read_exact-append}
use stunnel.Server.Reads.{ends, split_domain, read_domain, read_data, read_rest, read_op, read_turn}
use stunnel.Protocol.Cs

-- Bytes that begin with a message to connect to a domain name whose length is too short for a port.
abbrev pub IsShortDomain : Bytes → Type 0
IsShortDomain bs =
    (op : Bytes) × (id : Bytes) × (len : Bytes) × (buf : Bytes) × (rest : Bytes) × (bs
      ≡ op ++ (id ++ (len ++ (buf ++ rest))))
    × (length op ≡ 1)
    × (length id ≡ 4)
    × (length len ≡ 4)
    × (length buf ≡ from_be len)
    × (from_be op ≡ Cs.connect_domain_name)
    × (from_be len < 2)

-- What `read_exact` gives was read.
read_exact-eq :
    (n : ℕ) (bs xs ys : Bytes) → read_exact n bs ≡ some (xs, ys) → (bs ≡ xs ++ ys) × (length xs ≡ n)
read_exact-eq n bs xs ys h = elim (Bool-cases (leb n (length bs))) [
  | inl enough ↦
      let parts : some (take n bs, drop n bs) ≡ some (xs, ys) = rw enough at h in
      let front : take n bs ≡ xs = cc parts in
      let back : drop n bs ≡ ys = cc parts in
      (
        sym (take-append-drop n bs) ∙ rw (front, back) refl,
        ap length (sym front) ∙ length-take n bs ∙ omega (arith, leb→le n (length bs) enough),
      )
  | inr short ↦ absurd (cc (rw short at h))
]

module _ (c : Cipher) where
  split_domain_panics :
      (id len : ℕ) (buf : Bytes) (k : c.Cryptor) (bs : Bytes)
      → length buf ≡ len
      → split_domain c id len buf k bs ≡ ends panicked
      → len < 2
  unfolding split_domain
  split_domain_panics id len buf k bs whole h =
      elim (Bool-cases (ltb (length buf) (sub_u32 len 2))) [
        | inl past ↦
            let far : length buf < sub_u32 len 2 = ltb→lt (length buf) (sub_u32 len 2) past in
            omega arith
        | inr within ↦ absurd (cc (rw within at h))
      ]

  read_data_safe :
      (op id : ℕ) (k : c.Cryptor) (bs : Bytes) → read_data c op id k bs ≢ some (ends panicked)
  unfolding read_data
  read_data_safe op id k bs h = elim (Option-cases (read_exact 4 bs)) [
    | inl e ↦ absurd (cc (rw (read_data, e) at h))
    | inr ((len, bs1), e) ↦ elim (Option-cases (read_exact (from_be len) bs1)) [
      | inl e' ↦ absurd (cc (rw (read_data, e, e') at h))
      | inr ((buf, bs2), e') ↦ absurd (cc (rw (read_data, e, e') at h))
    ]
  ]

  read_rest_panics :
      (op id : ℕ) (k : c.Cryptor) (bs : Bytes)
      → read_rest c op id k bs ≡ some (ends panicked)
      → (op ≡ Cs.connect_domain_name) × (read_domain c id k bs ≡ some (ends panicked))
  unfolding read_rest
  read_rest_panics op id k bs h = elim (Bool-cases (op == Cs.open_port)) [
    | inl a ↦ absurd (cc (rw a at h))
    | inr a ↦ elim (Bool-cases (op == Cs.close_port)) [
      | inl b ↦ absurd (cc (rw (a, b) at h))
      | inr b ↦ elim (Bool-cases (op == Cs.shutdown_write)) [
        | inl d ↦ absurd (cc (rw (a, b, d) at h))
        | inr d ↦ elim (Bool-cases (op == Cs.connect_domain_name)) [
          | inl domain ↦ (==→eq op Cs.connect_domain_name domain, rw (a, b, d, domain) at h)
          | inr e ↦ absurd (read_data_safe op id k bs (rw (a, b, d, e) at h))
        ]
      ]
    ]
  ]

  read_domain_panics :
      (id : ℕ) (k : c.Cryptor) (bs : Bytes)
      → read_domain c id k bs ≡ some (ends panicked)
      → (len : Bytes) × (buf : Bytes) × (rest : Bytes) × (bs ≡ len ++ (buf ++ rest))
        × (length len ≡ 4)
        × (length buf ≡ from_be len)
        × (from_be len < 2)
  unfolding read_domain
  read_domain_panics id k bs h = elim (Option-cases (read_exact 4 bs)) [
    | inl e ↦ absurd (cc (rw (read_domain, e) at h))
    | inr ((len, bs1), e) ↦ elim (Option-cases (read_exact (from_be len) bs1)) [
      | inl e' ↦ absurd (cc (rw (read_domain, e, e') at h))
      | inr ((buf, bs2), e') ↦
          let (front, four) = read_exact-eq 4 bs len bs1 e in
          let (back, whole) = read_exact-eq (from_be len) bs1 buf bs2 e' in
          let over : split_domain c id (from_be len) buf k bs2 ≡ ends panicked =
            cc (rw (read_domain, e, e') at h) in
          (
            len,
            buf,
            bs2,
            front ∙ ap (◌++◌ len) back,
            four,
            whole,
            split_domain_panics id (from_be len) buf k bs2 whole over,
          )
    ]
  ]

  read_op_panics :
      (op : Bytes) (k : c.Cryptor) (bs bs1 : Bytes)
      → bs ≡ op ++ bs1
      → length op ≡ 1
      → read_op c (from_be op) k bs1 ≡ some (ends panicked)
      → IsShortDomain bs
  unfolding read_op
  read_op_panics op k bs bs1 begins one h = elim (Option-cases (read_exact 4 bs1)) [
    | inl e ↦ absurd (cc (rw (read_op, e) at h))
    | inr ((id, bs2), e) ↦
        let (mid, four) = read_exact-eq 4 bs1 id bs2 e in
        let (code, domain) =
          read_rest_panics (from_be op) (from_be id) k bs2 (rw (read_op, e) at h) in
        let (len, buf, rest, back, len_four, whole, short) =
          read_domain_panics (from_be id) k bs2 domain in
        (
          op,
          id,
          len,
          buf,
          rest,
          begins ∙ ap (◌++◌ op) (mid ∙ ap (◌++◌ id) back),
          one,
          four,
          len_four,
          whole,
          code,
          short,
        )
  ]

  read_turn_short :
      (k : c.Cryptor) (bs : Bytes) → read_turn c k bs ≡ some (ends panicked) → IsShortDomain bs
  unfolding read_turn
  read_turn_short k bs h = elim (Option-cases (read_exact 1 bs)) [
    | inl e ↦ absurd (cc (rw (read_turn, e) at h))
    | inr ((op, bs1), e) ↦
        let (begins, one) = read_exact-eq 1 bs op bs1 e in
        elim (Bool-cases (from_be op == Cs.heartbeat)) [
          | inl beat ↦ absurd (cc (rw (read_turn, e, beat) at h))
          | inr other ↦ read_op_panics op k bs bs1 begins one (rw (read_turn, e, other) at h)
        ]
  ]

  short_read_turn :
      (k : c.Cryptor) (bs : Bytes) → IsShortDomain bs → read_turn c k bs ≡ some (ends panicked)
  unfolding read_turn read_op read_rest read_domain split_domain
  short_read_turn k bs (op, id, len, buf, rest, is, one, four, len_four, whole, code, short) =
      let past : ltb (length buf) (sub_u32 (from_be len) 2) ≡ true =
        lt→ltb (length buf) (sub_u32 (from_be len) 2) (omega arith) in
      rw
        (
          is,
          read_exact-append 1 op (id ++ (len ++ (buf ++ rest))) (sym one),
          code,
          read_exact-append 4 id (len ++ (buf ++ rest)) (sym four),
          read_exact-append 4 len (buf ++ rest) (sym len_four),
          read_exact-append (from_be len) buf rest (sym whole),
          past,
        )
        refl

  -- A turn of the server's loop over a tunnel panics exactly on a message to connect to a domain
  -- name whose length is below 2, the length of a port.
  pub read_turn_panics :
      (k : c.Cryptor) (bs : Bytes) → (read_turn c k bs ≡ some (ends panicked)) ↔ IsShortDomain bs
  read_turn_panics k bs = (read_turn_short k bs, short_read_turn k bs)
