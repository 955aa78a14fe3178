-- ===== src/OomMonitor/Fields.antt =====
-- A process whose name has one letter stops the monitor.
use gsky.Prelude.{
  ℕ, ◌≡◌, refl, ap, ap₂, ◌∙◌, Bool, true, false, some, List, [], ◌∷◌, ◌++◌, ◌==◌, Bytes, codes,
  arith,
}
use gsky.Prelude.Int.{ℤ}
use gsky.Prelude.Result.{panic, ◌>>=◌}
use gsky.Dap4.{is_space, split, trim_left, trim_right, trim_space}
use gsky.DrillMerger.{lookup, update}
use gsky.OomMonitor.{
  ProcEntry, parse_int, parse_value, fields_of, scan_pair, found_all, scan_line, scan_lines,
  keys_of, Scan, is_watched_pid, parse_proc_info, entry_status, find_process_status,
}

-- "Name:", a tab, the letter and the end of the line, and the other lines.
abbrev pub one_letter_status : ℕ → Bytes → Bytes
one_letter_status c rest = codes "Name:" ++ (9 ∷ (c ∷ (10 ∷ rest)))

name_line :
    (c : ℕ) (rest : Bytes)
    → (c == 10) ≡ false
    → split 10 (one_letter_status c rest) ≡ (codes "Name:" ++ (9 ∷ (c ∷ []))) ∷ split 10 rest
unfolding split
name_line c rest h = rw h refl

name_fields :
    (c : ℕ)
    → (c == b':') ≡ false
    → split b':' (codes "Name:" ++ (9 ∷ (c ∷ []))) ≡ codes "Name" ∷ (9 ∷ (c ∷ [])) ∷ []
unfolding split
name_fields c h = rw h refl

trim_letter : (c : ℕ) → is_space c ≡ false → trim_space (9 ∷ (c ∷ [])) ≡ c ∷ []
unfolding trim_left trim_right
trim_letter c h = rw h (rw h refl)

abbrev wanted_keys : List Bytes
wanted_keys = codes "Name" ∷ codes "VmRSS" ∷ []

abbrev wanted : Scan
wanted = record {
  keys = (codes "Name", false) ∷ (codes "VmRSS", false) ∷ [];
  num_found = 0;
  info = record { k_bytes = []; strings = [] };
}

name_trimmed : trim_space (codes "Name") ≡ codes "Name"
unfolding trim_left trim_right
name_trimmed = refl

name_wanted : lookup (codes "Name") wanted.keys ≡ some false
unfolding lookup
name_wanted = refl

letter_panics : (c : ℕ) → parse_value (c ∷ []) ≡ panic
unfolding parse_value
letter_panics c = refl

name_pair :
    (c : ℕ)
    → (c == b':') ≡ false
    → is_space c ≡ false
    → fields_of (split b':' (codes "Name:" ++ (9 ∷ (c ∷ [])))) ≡ some (codes "Name", c ∷ [])
name_pair c k s =
    ap fields_of (name_fields c k) ∙ ap₂ (λ a b. some (a, b)) name_trimmed (trim_letter c s)

scan_pair-panics : (c : ℕ) → scan_pair (some (codes "Name", c ∷ [])) wanted ≡ panic
unfolding lookup
scan_pair-panics c = rw (letter_panics c) refl

scan_line-panics :
    (c : ℕ)
    → (c == b':') ≡ false
    → is_space c ≡ false
    → scan_line (codes "Name:" ++ (9 ∷ (c ∷ []))) wanted ≡ panic
unfolding scan_line
scan_line-panics c k s = ap (λ f. scan_pair f wanted) (name_pair c k s) ∙ scan_pair-panics c

scan_lines-panics :
    (line : Bytes) (lines : List Bytes)
    → scan_line line wanted ≡ panic
    → scan_lines (line ∷ lines) wanted ≡ panic
unfolding scan_lines
scan_lines-panics line lines e = rw e refl

wanted_scan :
    (content : Bytes)
    → parse_proc_info (some content) wanted_keys
      ≡ (scan_lines (split 10 content) wanted >>= found_all)
unfolding parse_proc_info keys_of update
wanted_scan content = refl

one_letter_panics :
    (c : ℕ) (rest : Bytes)
    → (c == 10) ≡ false
    → (c == b':') ≡ false
    → is_space c ≡ false
    → parse_proc_info (some (one_letter_status c rest)) wanted_keys ≡ panic
one_letter_panics c rest h k s =
    wanted_scan (one_letter_status c rest)
    ∙ ap (λ lines. scan_lines lines wanted >>= found_all) (name_line c rest h)
    ∙ ap (λ r. r >>= found_all)
        (scan_lines-panics (codes "Name:" ++ (9 ∷ (c ∷ []))) (split 10 rest)
          (scan_line-panics c k s))

-- The monitor panics when it comes to the status of a process whose name is a single byte, not
-- white space and no colon: the value on the line with the name is too short to end in a unit.
pub find_process_status_panics :
    (matches : Bytes → Bool) (current_pid : ℤ) (entry : ProcEntry) (entries : List ProcEntry)
    (pid : ℤ) (c : ℕ) (rest : Bytes)
    → entry.is_dir ≡ true
    → parse_int entry.name ≡ some pid
    → is_watched_pid matches current_pid pid ≡ true
    → entry.status ≡ some (one_letter_status c rest)
    → (c == b':') ≡ false
    → is_space c ≡ false
    → find_process_status matches current_pid (entry ∷ entries) ≡ panic
unfolding find_process_status entry_status
find_process_status_panics matches current_pid entry entries pid c rest dir num watched st k s =
    let h : (c == 10) ≡ false = ground arith in
    let e : parse_proc_info entry.status wanted_keys ≡ panic =
      ap (λ o. parse_proc_info o wanted_keys) st ∙ one_letter_panics c rest h k s in
    rw (dir, num, watched, e) refl
