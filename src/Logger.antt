-- ===== src/Logger.antt =====
-- src/logger.rs: the log files and their rotation.
pub mod Rotation
use stunnel.Base.{
  ℕ, zero, suc, ◌+◌, ◌-◌, ◌/◌, ◌%◌, Bool, true, false, ◌&&◌, Option, none, some, List, [], ◌∷◌,
  ◌++◌, Bytes, length, ltb, leb, ◌==◌, if◌then◌else◌,
}

-- The files of the system, by their paths.
abbrev pub Files : Type 0
Files = Bytes → Option Bytes

abbrev pub same_path : Bytes → Bytes → Bool
same_path [] [] = true
same_path (a ∷ xs) (b ∷ ys) = a == b && same_path xs ys
same_path _ _ = false

-- `remove_file` and `rename`, whose errors the code ignores.
unfoldable pub remove_file : Bytes → Files → Files
remove_file path files p = if same_path path p then none else files p

moved : Option Bytes → Bytes → Bytes → Files → Files
moved none from to files p = files p
moved (some content) from to files p =
    if same_path to p then some content else if same_path from p then none else files p

unfoldable pub rename : Bytes → Bytes → Files → Files
unfolding moved
rename from to files = moved (files from) from to files

-- `to_string` of a number: its decimal digits. Each round divides by ten, so as many rounds as the number
-- suffice.
unfoldable pub digits : ℕ → ℕ → Bytes
digits zero n = []
digits (suc fuel) n =
    let front = digits fuel (n / 10) in
    if ltb n 10 then (b'0' + n) ∷ [] else front ++ (b'0' + n % 10) ∷ []

abbrev pub to_string : ℕ → Bytes
to_string n = digits (suc n) n

unfoldable pub get_rotate_name : Bytes → ℕ → Bytes
get_rotate_name log_path num = if ltb 0 num then log_path ++ b'.' ∷ to_string num else log_path

-- The loop of `rotate_file`, by the number of the oldest file.
unfoldable pub rotate_loop : Bytes → ℕ → Files → Files
rotate_loop log_path zero files = files
rotate_loop log_path (suc rotate_num) files =
    rotate_loop log_path rotate_num (
      rename (get_rotate_name log_path rotate_num) (get_rotate_name log_path (suc rotate_num))
        files)

-- It is called with a count above 0.
unfoldable pub rotate_file : Bytes → ℕ → Files → Files
rotate_file log_path rotate_count files =
    let rotate_num = rotate_count - 1 in
    rotate_loop log_path rotate_num (remove_file (get_rotate_name log_path rotate_num) files)

-- The variables of `log_thread_func` with the files: `file` tells whether the log is open, for appending.
pub record LogThread : Type 0 where
  pub size : ℕ
  pub file : Bool
  pub files : Files

abbrev or_empty : Option Bytes → Bytes
or_empty none = []
or_empty (some content) = content

-- `OpenOptions::open` makes an empty file where there is none; `opens` tells whether it succeeds.
unfoldable pub open_log : Bytes → Bool → LogThread → LogThread
open_log log_path false t = record t { file = false }
open_log log_path true t = record t {
  file = true;
  files = λ p. if same_path log_path p then some (or_empty (t.files log_path)) else t.files p;
}

unfoldable pub append : Bytes → Bytes → LogThread → LogThread
append log_path bytes t =
    if t.file
    then record t {
      size = t.size + length bytes;
      files = λ p.
          if same_path log_path p then some (or_empty (t.files log_path) ++ bytes) else t.files p;
    }
    else t

-- A turn of the loop on a message of the queue.
unfoldable pub log_turn : Bytes → ℕ → ℕ → LogThread → Bytes × Bool → LogThread
log_turn log_path rotate_count rotate_size t (bytes, opens) =
    let t' = append log_path bytes t in
    if ltb rotate_size t'.size && ltb 0 rotate_count
    then (let rotated = record t' { files = rotate_file log_path rotate_count t'.files } in
        record (open_log log_path opens rotated) { size = 0 })
    else t'

-- `log_thread_func` over the messages that the queue gives, each with whether a reopening succeeds.
unfoldable pub log_loop : Bytes → ℕ → ℕ → LogThread → List (Bytes × Bool) → LogThread
log_loop log_path rotate_count rotate_size t [] = t
log_loop log_path rotate_count rotate_size t (m ∷ msgs) =
    log_loop log_path rotate_count rotate_size (log_turn log_path rotate_count rotate_size t m) msgs

unfoldable pub log_thread_func : Bytes → ℕ → ℕ → Bool → Files → List (Bytes × Bool) → LogThread
log_thread_func log_path rotate_count rotate_size opens files msgs =
    log_loop log_path rotate_count rotate_size
      (open_log log_path opens (record { size = 0; file = false; files = files })) msgs
