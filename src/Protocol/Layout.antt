-- ===== src/Protocol/Layout.antt =====
-- src/lib.rs, `protocol`: where the fields of a packed message stand.
use stunnel.Base.{
  ℕ, suc, ◌+◌, ◌-◌, ◌%◌, ◌^◌, ◌≡◌, refl, ap, [], ◌∷◌, ◌++◌, Bytes, length, replicate, splice,
  add_u32, overlay, be_u32, be_u16, length-be_u16, arith,
}
use native.Mathlib.Nat.{zero-add, suc-add}
use stunnel.Protocol.Cs
use stunnel.Protocol.{
  write_cmd_id_len, pack_cmd_id_msg, pack_cmd_id_data_msg, pack_cs_connect_domain_msg,
}

-- A write over the whole rest of a fresh buffer.
overlay_whole : (bs : Bytes) → overlay bs (replicate (length bs) 0) ≡ bs
unfolding replicate
overlay_whole [] = refl
overlay_whole (b ∷ bs) = ap (◌∷◌ b) (overlay_whole bs)

-- Two writes, one behind the other, over the whole rest of a fresh buffer.
splice-overlay :
    (bs cs : Bytes)
    → splice (length bs) cs (overlay bs (replicate (length bs + length cs) 0)) ≡ bs ++ cs
unfolding replicate
splice-overlay [] cs = rw (zero-add (length cs)) (overlay_whole cs)
splice-overlay (b ∷ bs) cs =
    rw (suc-add (length bs) (length cs)) (ap (◌∷◌ b) (splice-overlay bs cs))

nine : (n : ℕ) → 9 + n ≡ suc (suc (suc (suc (suc (suc (suc (suc (suc n))))))))
nine n = omega arith

pub pack_cmd_id_msg_lem : (cmd id : ℕ) → pack_cmd_id_msg cmd id ≡ cmd ∷ be_u32 id
unfolding pack_cmd_id_msg be_u32 replicate
pack_cmd_id_msg_lem cmd id = refl

pub pack_cmd_id_data_msg_lem :
    (cmd id : ℕ) (bs : Bytes)
    → pack_cmd_id_data_msg cmd id bs ≡ cmd ∷ be_u32 id ++ (be_u32 (length bs % 2 ^ 32) ++ bs)
unfolding pack_cmd_id_data_msg write_cmd_id_len be_u32 replicate
pack_cmd_id_data_msg_lem cmd id bs = rw (nine (length bs), overlay_whole bs) refl

pub pack_cs_connect_domain_msg_lem :
    (id : ℕ) (domain : Bytes) (port : ℕ)
    → pack_cs_connect_domain_msg id domain port
      ≡ Cs.connect_domain_name ∷ be_u32 id
        ++ (be_u32 (add_u32 (length domain % 2 ^ 32) 2) ++ (domain ++ be_u16 port))
unfolding pack_cs_connect_domain_msg write_cmd_id_len be_u32 replicate
pack_cs_connect_domain_msg_lem id domain port =
    let two : length domain + 2 ≡ length domain + length (be_u16 port) =
      omega (arith, length-be_u16 port) in
    let size : 11 + length domain ≡ 9 + (length domain + 2) = omega arith in
    let end_pos : 9 + (length domain + 2) - 2 ≡ 9 + length domain = omega arith in
    rw (size, end_pos, nine, nine, two, splice-overlay domain (be_u16 port)) refl
