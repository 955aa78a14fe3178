-- ===== src/OomMonitor/Tests.antt =====
-- Tests of worker/gdalprocess/oom_monitor.go on texts like those of /proc.
use gsky.Prelude.{
  ℕ, ◌≡◌, refl, true, Bool, Option, some, List, [], ◌∷◌, ◌++◌, String, get_elem?, Bytes, bytes_eq,
  codes,
}
use gsky.Prelude.Int.{ℤ, pos, lt_ℤ}
use gsky.Prelude.Result.{ok, err, panic}
use gsky.Dap4.{parse_decimal}
use gsky.OomMonitor.{
  ProcessStatus, ProcEntry, MemoryInfo, get_memory_info, get_poll_interval, find_process_status,
  kill, sleep, parse_int, parse_proc_info, monitor_round,
}
use gsky.OomMonitor.Greatest.{MayBeKilled, monitor_round-kill}
use gsky.OomMonitor.Maximum.{IsGreatest}
use gsky.OomMonitor.Fields.{one_letter_status, find_process_status_panics}

abbrev line : String → Bytes
line s = codes s ++ (10 ∷ [])

abbrev meminfo : String → Option Bytes
meminfo available = some (line "MemTotal: 900 kB" ++ (line "Buffers: 5 kB" ++ line available))

abbrev entry : String → String → String → ProcEntry
entry pid name size = record {
  name = codes pid;
  is_dir = true;
  status = some (line name ++ (line "State: S" ++ line size));
}

abbrev entries : List ProcEntry
entries =
    entry "1" "Name: init" "VmRSS: 99 kB"
    ∷ entry "acpi" "Name: gdal" "VmRSS: 98 kB"
    ∷ entry "31" "Name: gdal" "VmRSS: 20 kB"
    ∷ entry "32" "Name: gdal" "VmRSS: 40 kB"
    ∷ entry "33" "Name: bash" "VmRSS: 70 kB"
    ∷ []

abbrev is_gdal : Bytes → Bool
is_gdal name = bytes_eq name (codes "gdal")

abbrev predicted : ℕ → ℤ
predicted n = pos n

greatest_killed :
    monitor_round predicted (pos 300) is_gdal (pos 30) (meminfo "MemAvailable: 200 kB") entries
    ≡ ok (kill (pos 32))
unfolding monitor_round
greatest_killed = refl

memory_left :
    monitor_round predicted (pos 300) is_gdal (pos 30) (meminfo "MemAvailable: 800 kB") entries
    ≡ ok (sleep (pos 500))
unfolding monitor_round
memory_left = refl

key_missing :
    parse_proc_info (meminfo "MemFree: 200 kB") (codes "MemAvailable" ∷ []) ≡ err "not found"
unfolding parse_proc_info
key_missing = refl

monitor_round-kill_example :
    (mem : MemoryInfo) × (ps : List ProcessStatus) × (q : ProcessStatus) × (i : ℕ)
    × (get_memory_info (meminfo "MemAvailable: 200 kB") ≡ ok mem)
    × (lt_ℤ (get_poll_interval predicted (pos 300) mem) (pos 100) ≡ true)
    × (find_process_status is_gdal (pos 30) entries ≡ ok ps)
    × (get_elem? ps i ≡ some q)
    × (q.pid ≡ pos 32)
    × MayBeKilled is_gdal (pos 30) q
    × IsGreatest q ps
monitor_round-kill_example =
    monitor_round-kill is_gdal (pos 30) predicted (pos 300) (meminfo "MemAvailable: 200 kB") entries
      greatest_killed

abbrev short_named : ProcEntry
short_named = record {
  name = codes "34";
  is_dir = true;
  status = some (one_letter_status b'R' (line "VmRSS: 7 kB"));
}

find_process_status_panics_example :
    find_process_status is_gdal (pos 30) (short_named ∷ entries) ≡ panic
unfolding parse_int parse_decimal
find_process_status_panics_example =
    find_process_status_panics is_gdal (pos 30) short_named entries (pos 34) b'R'
      (line "VmRSS: 7 kB") refl refl refl refl refl refl
