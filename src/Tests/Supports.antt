-- ===== src/Tests/Supports.antt =====
-- src/cryptor.rs, src/timer.rs, src/logger.rs, src/bin/stunnel_client.rs: the theorems, applied to data.
use stunnel.Base.{
  ℕ, zero, suc, ◌+◌, ◌-◌, ◌*◌, ◌<◌, ◌≤◌, ◌≡◌, refl, ◌⊎◌, false, Option, none, some, List, [], ◌∷◌,
  Bytes, length, drop, take, leb, if◌then◌else◌, arith,
}
use stunnel.Tunnel.{IsStreamCipher}
use stunnel.Cryptor.{CtrMode, Cryptor, BufferResult, underflow, overflow, encrypt}
use stunnel.Cryptor.Stream.{
  bytewise, IsCounterMode, encrypt-bytewise, cipher, cipher-IsStreamCipher,
}
use stunnel.Timer.{Interval, poll_next}
use stunnel.Timer.Schedule.{poll_next_lem}
use stunnel.Logger.{Files, same_path, get_rotate_name, rotate_file}
use stunnel.Logger.Rotation.{before, rotate_file_lem}
use stunnel.Client.{Tunnel}
use stunnel.Programs.Client.{Options, start, Serving, run_proxy_tunnels}
use stunnel.Programs.Client.Fair.{asked, turns, tunnels_of, run_proxy_tunnels-start}

-- A counter mode whose key stream is all ones.
abbrev flip : ℕ → ℕ
flip b = if leb b 255 then 255 - b else b

abbrev flip_byte : ℕ → ℕ → ℕ × ℕ
flip_byte s b = (flip b, suc s)

abbrev flip_call : ℕ → Bytes → ℕ → Option (Bytes × Bytes × BufferResult × ℕ)
flip_call s bs n =
    let (written, s') = bytewise flip_byte s (take n bs) in
    some (written, drop n bs, (if leb (length bs) n then underflow else overflow), s')

abbrev flips : CtrMode
flips = record { State = ℕ; new = λ key ctr. 0; encrypt = flip_call; decrypt = flip_call }

flip_byte_back : (s b : ℕ) → flip_byte s (flip_byte s b).0 ≡ (b, (flip_byte s b).1)
flip_byte_back s b = ground arith

flips-IsCounterMode : IsCounterMode flips
flips-IsCounterMode = record {
  encrypt_byte = flip_byte;
  decrypt_byte = flip_byte;
  decrypt-encrypt_byte = flip_byte_back;
  encrypts = λ s bs n. refl;
  decrypts = λ s bs n. refl;
}

cipher-IsStreamCipher_example : IsStreamCipher (cipher flips)
cipher-IsStreamCipher_example = cipher-IsStreamCipher flips flips-IsCounterMode

abbrev ten_bytes : Bytes
ten_bytes = 0 ∷ 1 ∷ 2 ∷ 3 ∷ 4 ∷ 5 ∷ 6 ∷ 7 ∷ 8 ∷ 9 ∷ []

abbrev keyed : Cryptor flips
keyed = record { cryptor = 3; ctr = [] }

encrypt-bytewise_example :
    let (result, s') = bytewise flip_byte 3 ten_bytes in
    encrypt flips keyed ten_bytes ≡ some (result, record keyed { cryptor = s' })
unfolding flips-IsCounterMode
encrypt-bytewise_example = encrypt-bytewise flips flips-IsCounterMode keyed ten_bytes

-- Five seconds, polled late.
abbrev heartbeats : Interval ℕ
heartbeats = record { delay = 5000000000; interval = 5000000000; value = 9 }

poll_next_lem_example :
    ((5000000100 < heartbeats.delay)
      × (poll_next heartbeats 5000000100 5000000200 17000000300 ≡ some (none, heartbeats)))
    ⊎ ((heartbeats.delay ≤ 5000000100)
        × ((k : ℕ) × (poll_next heartbeats 5000000100 5000000200 17000000300
              ≡ some (some 9, record heartbeats { delay = 5000000200 + 5000000000 * k }))
            × (17000000300 < 5000000200 + 5000000000 * k)
            × (5000000200 + 5000000000 * k ≤ 17000000300 + 5000000000)))
poll_next_lem_example =
    poll_next_lem heartbeats 5000000100 5000000200 17000000300 (omega arith) (omega arith)
      (omega arith) (omega arith) (omega arith)

-- A log `a` with one older file.
abbrev log_files : Files
log_files p =
    if same_path (97 ∷ []) p
    then some (1 ∷ [])
    else if same_path (97 ∷ 46 ∷ 49 ∷ []) p
    then some (2 ∷ [])
    else none

abbrev elsewhere : Bytes
elsewhere = 98 ∷ []

elsewhere_other : (j : ℕ) → j < 3 → same_path (get_rotate_name (97 ∷ []) j) elsewhere ≡ false
unfolding get_rotate_name
elsewhere_other zero h = refl
elsewhere_other (suc j) h = ground arith

rotate_file_lem_example :
    (rotate_file (97 ∷ []) 3 log_files (get_rotate_name (97 ∷ []) 1) ≡ before (97 ∷ []) log_files 1)
    × (rotate_file (97 ∷ []) 3 log_files elsewhere ≡ log_files elsewhere)
rotate_file_lem_example =
    rotate_file_lem (97 ∷ []) 3 log_files 1 elsewhere (omega arith) elsewhere_other

-- Three streams and two tunnels.
abbrev three_streams : List (ℕ × Option ℕ)
three_streams = (100, some 1080) ∷ (101, some 8888) ∷ (102, none) ∷ (103, some 1080) ∷ []

abbrev two_tunnels : Options
two_tunnels = record { key = 1 ∷ 2 ∷ 3 ∷ 4 ∷ 5 ∷ []; tunnel_count = some 2; enable_ucp = false }

run_proxy_tunnels-start_example :
    (((length two_tunnels.key < 4) ⊎ (56 < length two_tunnels.key)) × (start two_tunnels ≡ none))
    ⊎ ((4 ≤ length two_tunnels.key)
        × (length two_tunnels.key ≤ 56)
        × ((tunnels : List Tunnel) × (start two_tunnels ≡ some tunnels)
            × (length tunnels ≡ asked two_tunnels)
            × ((s : Serving) × (run_proxy_tunnels 8888
                    (record { tunnels = tunnels; index = 0; served = [] })
                    three_streams
                  ≡ some s)
                × (tunnels_of s.served ≡ turns (asked two_tunnels) 0 three_streams))))
run_proxy_tunnels-start_example = run_proxy_tunnels-start two_tunnels 8888 three_streams
