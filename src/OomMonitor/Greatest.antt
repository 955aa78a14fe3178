-- ===== src/OomMonitor/Greatest.antt =====
-- Which process the monitor kills.
use gsky.Prelude.{
  All-elem, ℕ, ◌≡◌, sym, ◌∙◌, subst, ap, inl, inr, Bool, true, false, Bool-cases, Option, none,
  some, codes, List, [], ◌∷◌, get_elem?, Bytes, All,
}
use gsky.Prelude.Int.{ℤ, pos, lt_ℤ}
use gsky.Prelude.Result.{ok, panic, ◌>>=◌, >>=-eq-ok, Result-cases}
use gsky.OomMonitor.{
  ProcInfo, ProcessStatus, ProcEntry, MemoryInfo, is_watched_pid, status_info, status_of,
  entry_status, add_status, find_process_status, no_process, max_proc, get_memory_info,
  get_poll_interval, text_at, parse_proc_info, parse_int, sleep, kill, kill_greatest, monitor_round,
}
use gsky.OomMonitor.Maximum.{IsGreatest, max_proc-IsGreatest, max_proc-elem}

module _ (matches : Bytes → Bool) (current_pid : ℤ) where
  -- A process that may be killed: its name matches, and it is neither the first process nor the
  -- server itself.
  abbrev pub MayBeKilled : ProcessStatus → Type 0
  MayBeKilled p = (matches p.name ≡ true) × (is_watched_pid matches current_pid p.pid ≡ true)

  abbrev MayBeKilled? : Option ProcessStatus → Type 0
  MayBeKilled? none = Unit {0}
  MayBeKilled? (some p) = MayBeKilled p

  status_info-MayBeKilled :
      (pid : ℤ) (info : ProcInfo)
      → is_watched_pid matches current_pid pid ≡ true
      → MayBeKilled? (status_info matches current_pid pid info)
  status_info-MayBeKilled pid info h =
      elim (Bool-cases (matches (text_at (codes "Name") info.strings))) [
        | inl named ↦ rw named (named, h)
        | inr other ↦ rw other tt
      ]

  status_of-MayBeKilled :
      (entry : ProcEntry) (number : Option ℤ) {o : Option ProcessStatus}
      → status_of matches current_pid entry number ≡ ok o
      → MayBeKilled? o
  status_of-MayBeKilled entry none {o} e = let same : none ≡ o = cc in subst MayBeKilled? same tt
  status_of-MayBeKilled entry (some pid) {o} e =
      elim (Bool-cases (is_watched_pid matches current_pid pid)) [
        | inl watched ↦
            elim (Result-cases (parse_proc_info entry.status (codes "Name" ∷ codes "VmRSS" ∷ []))) [
              | inl (info, parsed) ↦
                  let e' : ok (status_info matches current_pid pid info) ≡ ok o =
                    rw (watched, parsed) at e in
                  let same : status_info matches current_pid pid info ≡ o = cc in
                  subst MayBeKilled? same (status_info-MayBeKilled pid info watched)
              | inr (inl (failure, parsed)) ↦
                  let e' : ok none ≡ ok o = rw (watched, parsed) at e in
                  let same : none ≡ o = cc in subst MayBeKilled? same tt
              | inr (inr parsed) ↦ let e' : panic ≡ ok o = rw (watched, parsed) at e in absurd (cc)
            ]
        | inr other ↦
            let e' : ok none ≡ ok o = rw other at e in
            let same : none ≡ o = cc in subst MayBeKilled? same tt
      ]

  entry_status-MayBeKilled :
      (entry : ProcEntry) {o : Option ProcessStatus}
      → entry_status matches current_pid entry ≡ ok o
      → MayBeKilled? o
  unfolding entry_status
  entry_status-MayBeKilled entry {o} e = elim (Bool-cases entry.is_dir) [
    | inl dir ↦
        let e' : status_of matches current_pid entry (parse_int entry.name) ≡ ok o = rw dir at e in
        status_of-MayBeKilled entry (parse_int entry.name) e'
    | inr file ↦
        let e' : ok none ≡ ok o = rw file at e in
        let same : none ≡ o = cc in subst MayBeKilled? same tt
  ]

  add_status-MayBeKilled :
      (o : Option ProcessStatus) (ps : List ProcessStatus)
      → MayBeKilled? o
      → All MayBeKilled ps
      → All MayBeKilled (add_status matches current_pid o ps)
  add_status-MayBeKilled none ps h hs = hs
  add_status-MayBeKilled (some p) ps h hs = (h, hs)

  find_process_status-MayBeKilled :
      (entries : List ProcEntry) {ps : List ProcessStatus}
      → find_process_status matches current_pid entries ≡ ok ps
      → All MayBeKilled ps
  unfolding find_process_status
  find_process_status-MayBeKilled [] {ps} e =
      let same : [] ≡ ps = cc in subst (All MayBeKilled) same tt
  find_process_status-MayBeKilled (entry ∷ entries) {ps} e =
      let (o, e1, r1) = >>=-eq-ok (entry_status matches current_pid entry) _ e in
      let (rest, e2, r2) = >>=-eq-ok (find_process_status matches current_pid entries) _ r1 in
      let same : add_status matches current_pid o rest ≡ ps = cc in
      subst (All MayBeKilled) same (
        add_status-MayBeKilled o rest (entry_status-MayBeKilled entry e1)
          (find_process_status-MayBeKilled entries e2))

  kill_greatest-pid :
      (q : ProcessStatus) {pid : ℤ}
      → kill_greatest q ≡ kill pid
      → (lt_ℤ (pos 0) q.pid ≡ true) × (q.pid ≡ pid)
  kill_greatest-pid q {pid} e = elim (Bool-cases (lt_ℤ (pos 0) q.pid)) [
    | inl named ↦ let e' : kill q.pid ≡ kill pid = rw named at e in (named, cc)
    | inr unnamed ↦ let e' : sleep (pos 1000) ≡ kill pid = rw unnamed at e in absurd (cc)
  ]

  kill_greatest-elem :
      (ps : List ProcessStatus) {pid : ℤ}
      → ok (kill_greatest (max_proc ps no_process)) ≡ ok (kill pid)
      → (i : ℕ) × (get_elem? ps i ≡ some (max_proc ps no_process))
        × ((max_proc ps no_process).pid ≡ pid)
  kill_greatest-elem ps {pid} e =
      let e' : kill_greatest (max_proc ps no_process) ≡ kill pid = cc in
      let (above, same) = kill_greatest-pid (max_proc ps no_process) e' in
      elim (max_proc-elem ps no_process) [
        | inl default ↦
            let below : false ≡ true = ap (λ p. lt_ℤ (pos 0) p.pid) (sym default) ∙ above in
            absurd (cc)
        | inr (i, at) ↦ (i, at, same)
      ]

  -- A round kills a process only when the memory is so short that it does not sleep. The process is one of
  -- those that were found; its name matches, it is neither the first process nor the server
  -- itself, and none of those that were found takes more memory.
  pub monitor_round-kill :
      (predicted : ℕ → ℤ) (oom_threshold : ℤ) (meminfo : Option Bytes) (entries : List ProcEntry)
      {pid : ℤ}
      → monitor_round predicted oom_threshold matches current_pid meminfo entries ≡ ok (kill pid)
      → (mem : MemoryInfo) × (ps : List ProcessStatus) × (q : ProcessStatus) × (i : ℕ)
        × (get_memory_info meminfo ≡ ok mem)
        × (lt_ℤ (get_poll_interval predicted oom_threshold mem) (pos 100) ≡ true)
        × (find_process_status matches current_pid entries ≡ ok ps)
        × (get_elem? ps i ≡ some q)
        × (q.pid ≡ pid)
        × MayBeKilled q
        × IsGreatest q ps
  unfolding monitor_round
  monitor_round-kill predicted oom_threshold meminfo entries {pid} e =
      let (mem, e1, r1) = >>=-eq-ok (get_memory_info meminfo) _ e in
      elim (Bool-cases (lt_ℤ (get_poll_interval predicted oom_threshold mem) (pos 100))) [
        | inr long ↦
            let e' : ok (sleep (get_poll_interval predicted oom_threshold mem)) ≡ ok (kill pid) =
              rw long at r1 in
            absurd (cc)
        | inl short ↦
            let r : (find_process_status matches current_pid entries >>= λ ps.
            ok (kill_greatest (max_proc ps no_process)))
                ≡ ok (kill pid) =
              rw short at r1 in
            let (ps, e2, r2) = >>=-eq-ok (find_process_status matches current_pid entries) _ r in
            let (i, at, is) = kill_greatest-elem ps r2 in
            (
              mem,
              ps,
              max_proc ps no_process,
              i,
              e1,
              short,
              e2,
              at,
              is,
              All-elem MayBeKilled ps i (find_process_status-MayBeKilled entries e2) at,
              (max_proc-IsGreatest ps no_process).1,
            )
      ]
