-- ===== src/OomMonitor.antt =====
-- worker/gdalprocess/oom_monitor.go: the monitor that stops the greatest of the worker processes when
-- memory gets short. The files of /proc are given as texts, the pattern of the processes' names and
-- the arithmetic of float32 in `getPollInterval` are parameters. Texts are ASCII.
use gsky.Prelude.{
  ℕ, zero, suc, ◌+◌, ◌-◌, ◌*◌, Bool, true, false, not, ◌&&◌, ◌||◌, Option, none, some, List, [],
  ◌∷◌, ◌++◌, ltb, leb, ◌==◌, if◌then◌else◌, length, take, drop, Bytes, bytes_eq, codes,
}
use gsky.Prelude.Int.{ℤ, pos, negsuc, sub_ℕ, lt_ℤ}
use gsky.Prelude.Result.{Result, ok, err, panic, ◌>>=◌}
use gsky.Dap4.{trim_space, trim_left, trim_right, split, unsigned, parse_decimal}
use gsky.DrillMerger.{lookup, update, is_listed}
pub mod Greatest
pub mod Fields
mod Maximum
mod Tests

-- strconv.ParseInt(s, 10, 64)
abbrev pub in_int64 : Bool → Option ℕ → Option ℤ
in_int64 minus none = none
in_int64 false (some n) = if ltb 9223372036854775807 n then none else some (pos n)
in_int64 true (some n) = if ltb 9223372036854775808 n then none else some (sub_ℕ 0 n)

unfoldable pub parse_int : Bytes → Option ℤ
unfolding parse_decimal
parse_int [] = none
parse_int (c ∷ s) =
    if c == b'-'
    then in_int64 true (unsigned s)
    else if c == b'+'
    then in_int64 false (unsigned s)
    else in_int64 false (unsigned (c ∷ s))

pub record ProcInfo : Type 0 where
  pub k_bytes : List (Bytes × ℤ)
  pub strings : List (Bytes × Bytes)

-- A value of the table: a text, or a number of kB. Slices out of range are a panic.
pub data Value : Type 0 where
  text : Bytes → Value
  kilobytes : ℤ → Value

abbrev pub number_value : Option ℤ → Result Value
number_value none = err "failed to parse"
number_value (some n) = ok (kilobytes n)

unfoldable pub parse_value : Bytes → Result Value
unfolding parse_int
parse_value val =
    if ltb (length val) 2
    then panic
    else if not (bytes_eq (drop (length val - 2) val) (codes "kB"))
    then ok (text val)
    else if length val == 2
    then panic
    else number_value (parse_int (take (length val - 3) val))

abbrev pub store_value : Bytes → Value → ProcInfo → ProcInfo
store_value key (text val) info = record info { strings = update key (λ _. val) info.strings }
store_value key (kilobytes n) info = record info { k_bytes = update key (λ _. n) info.k_bytes }

-- The variables of the loop: keysKV, numFound and the table.
pub record Scan : Type 0 where
  pub keys : List (Bytes × Bool)
  pub num_found : ℕ
  pub info : ProcInfo

abbrev pub fields_of : List Bytes → Option (Bytes × Bytes)
fields_of (a ∷ b ∷ []) = some (trim_space a, trim_space b)
fields_of _ = none

abbrev pub is_key : Option Bool → Bool
is_key none = false
is_key (some _) = true

-- A line with a key that is looked for; whether all are found.
abbrev pub scan_field : Bytes → Bytes → Scan → Result (Scan × Bool)
scan_field key val s = parse_value val >>= λ v. ok (
  record {
    keys = update key (λ _. true) s.keys;
    num_found = s.num_found + 1;
    info = store_value key v s.info;
  },
  s.num_found + 1 == length s.keys,
)

abbrev pub scan_pair : Option (Bytes × Bytes) → Scan → Result (Scan × Bool)
scan_pair none s = ok (s, false)
scan_pair (some (key, val)) s =
    if is_key (lookup key s.keys) then scan_field key val s else ok (s, false)

unfoldable pub scan_line : Bytes → Scan → Result (Scan × Bool)
unfolding parse_value lookup update split trim_left trim_right
scan_line line s = scan_pair (fields_of (split b':' line)) s

unfoldable pub scan_lines : List Bytes → Scan → Result (Scan × Bool)
unfolding scan_line
scan_lines [] s = ok (s, false)
scan_lines (line ∷ lines) s =
    scan_line line s >>= λ r. let rest = scan_lines lines r.0 in if r.1 then ok r else rest

abbrev pub all_true : List (Bytes × Bool) → Bool
all_true [] = true
all_true ((k, found) ∷ keys) = if found then all_true keys else false

-- keysKV: a map, so that a key that is looked for twice is there once.
unfoldable pub keys_of : List Bytes → List (Bytes × Bool) → List (Bytes × Bool)
unfolding update
keys_of [] keys = keys
keys_of (key ∷ more) keys = keys_of more (update key (λ _. false) keys)

abbrev pub found_all : Scan × Bool → Result ProcInfo
found_all (s, true) = ok s.info
found_all (s, false) = if all_true s.keys then ok s.info else err "not found"

-- The text of the file, or `none` if it cannot be read.
unfoldable pub parse_proc_info : Option Bytes → List Bytes → Result ProcInfo
unfolding scan_lines keys_of
parse_proc_info none lookup_keys = err "no such file"
parse_proc_info (some content) lookup_keys =
    scan_lines (split 10 content) (record {
      keys = keys_of lookup_keys [];
      num_found = 0;
      info = record { k_bytes = []; strings = [] };
    })
    >>= found_all

-- A missing entry of a map reads as zero, or as the empty text.
abbrev pub number_at : Bytes → List (Bytes × ℤ) → ℤ
number_at key m = elim (lookup key m) [ none ↦ pos 0 | some n ↦ n ]

abbrev pub text_at : Bytes → List (Bytes × Bytes) → Bytes
text_at key m = elim (lookup key m) [ none ↦ [] | some s ↦ s ]

pub record MemoryInfo : Type 0 where
  pub total_memory : ℤ
  pub available_memory : ℤ

unfoldable pub get_memory_info : Option Bytes → Result MemoryInfo
unfolding parse_proc_info lookup
get_memory_info content =
    parse_proc_info content (codes "MemTotal" ∷ codes "MemAvailable" ∷ []) >>= λ info. ok (record {
      total_memory = number_at (codes "MemTotal") info.k_bytes;
      available_memory = number_at (codes "MemAvailable") info.k_bytes;
    })

pub record ProcessStatus : Type 0 where
  pub name : Bytes
  pub pid : ℤ
  pub vm_rss : ℤ

-- An entry of /proc: its name, whether it is a directory, and the text of its status.
pub record ProcEntry : Type 0 where
  pub name : Bytes
  pub is_dir : Bool
  pub status : Option Bytes

module _ (matches : Bytes → Bool) (current_pid : ℤ) where
  abbrev pub is_watched_pid : ℤ → Bool
  is_watched_pid pid = lt_ℤ (pos 1) pid && (lt_ℤ pid current_pid || lt_ℤ current_pid pid)

  abbrev pub status_info : ℤ → ProcInfo → Option ProcessStatus
  status_info pid info =
      let name = text_at (codes "Name") info.strings in
      if matches name
      then some (record { name = name; pid = pid; vm_rss = number_at (codes "VmRSS") info.k_bytes })
      else none

  -- An entry whose status cannot be read or lacks a key is passed over; a panic is not.
  abbrev pub or_skip : ℤ → Result ProcInfo → Result (Option ProcessStatus)
  or_skip pid (ok info) = ok (status_info pid info)
  or_skip pid (err e) = ok none
  or_skip pid panic = panic

  abbrev pub status_of : ProcEntry → Option ℤ → Result (Option ProcessStatus)
  status_of entry none = ok none
  status_of entry (some pid) =
      if is_watched_pid pid
      then or_skip pid (parse_proc_info entry.status (codes "Name" ∷ codes "VmRSS" ∷ []))
      else ok none

  -- The body of the loop of findProcessStatus.
  unfoldable pub entry_status : ProcEntry → Result (Option ProcessStatus)
  unfolding parse_proc_info parse_int lookup
  entry_status entry = if entry.is_dir then status_of entry (parse_int entry.name) else ok none

  abbrev pub add_status : Option ProcessStatus → List ProcessStatus → List ProcessStatus
  add_status none ps = ps
  add_status (some p) ps = p ∷ ps

  unfoldable pub find_process_status : List ProcEntry → Result (List ProcessStatus)
  unfolding entry_status
  find_process_status [] = ok []
  find_process_status (entry ∷ entries) =
      entry_status entry >>= λ o. find_process_status entries >>= λ ps. ok (add_status o ps)

-- maxProc
abbrev pub no_process : ProcessStatus
no_process = record { name = []; pid = negsuc 0; vm_rss = negsuc 0 }

unfoldable pub max_proc : List ProcessStatus → ProcessStatus → ProcessStatus
max_proc [] best = best
max_proc (p ∷ ps) best = max_proc ps (if lt_ℤ best.vm_rss p.vm_rss then p else best)

-- getPollInterval. `predicted` is int(float32(remaining) / float32(fillRate) * 1000.0).
unfoldable pub get_poll_interval : (ℕ → ℤ) → ℤ → MemoryInfo → ℤ
get_poll_interval predicted oom_threshold mem =
    clip_interval (remaining mem.available_memory oom_threshold)
  where
    remaining : ℤ → ℤ → ℤ
    remaining (pos m) (pos n) = sub_ℕ m n
    remaining (pos m) (negsuc n) = pos (m + suc n)
    remaining (negsuc m) (pos n) = negsuc (m + n)
    remaining (negsuc m) (negsuc n) = sub_ℕ n m

    clip : ℤ → ℤ
    clip t = if lt_ℤ t (pos 100) then pos 100 else if lt_ℤ (pos 1000) t then pos 1000 else t

    clip_interval : ℤ → ℤ
    clip_interval (pos zero) = pos 0
    clip_interval (negsuc n) = pos 0
    clip_interval (pos (suc n)) = clip (predicted (suc n))

-- A round of StartMonitorLoop, up to the signal: it sleeps, or it kills a process, if there is one.
pub data Round : Type 0 where
  sleep : ℤ → Round
  kill : ℤ → Round

abbrev pub kill_greatest : ProcessStatus → Round
kill_greatest p = if lt_ℤ (pos 0) p.pid then kill p.pid else sleep (pos 1000)

unfoldable pub monitor_round :
    (ℕ → ℤ) → ℤ → (Bytes → Bool) → ℤ → Option Bytes → List ProcEntry → Result Round
unfolding get_memory_info get_poll_interval find_process_status max_proc
monitor_round predicted oom_threshold matches current_pid meminfo entries =
    get_memory_info meminfo >>= λ mem.
    let interval = get_poll_interval predicted oom_threshold mem in
    if not (lt_ℤ interval (pos 100))
    then ok (sleep interval)
    else (find_process_status matches current_pid entries >>= λ ps.
        ok (kill_greatest (max_proc ps no_process)))
