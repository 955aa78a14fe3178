-- ===== src/Pool/Progress.antt =====
-- Every task gets its reply as long as a process runs or is replaced.
use gsky.Prelude.{
  ℕ, zero, suc, ◌+◌, ◌*◌, ◌≤◌, ◌<◌, ◌≡◌, refl, subst, true, some, List, [], ◌∷◌, ◌++◌, arith, ltb,
  length, All, ◌⊎◌, inl, inr,
}
use gsky.Pool.{
  Task, Loop, PoolState, dial_failed, started, Event, send, take, work, put_back, replace,
  remove_at, outcome, try_task, replace_process, step, run,
}
use gsky.Pool.Kept.{
  sum_of, open_tasks, replies_to, processes, events_left, added, lost, IsQuiet, >>=-eq-some,
  some-injective, step-Stepped, run-counts,
}

-- All tasks have their replies.
abbrev pub IsDone : PoolState → Type 0
IsDone s = (s.admitted ≡ []) × (s.queue ≡ []) × (s.working ≡ []) × (s.returned ≡ [])

-- Something can happen that is not left to the outside.
abbrev pub GoesOn : ℕ → PoolState → Type 0
GoesOn pool s = (e : Event) × (s' : PoolState) × IsQuiet e × (step pool e s ≡ some s')

first_of : {A : Type 0} (xs : List A) → (xs ≡ []) ⊎ ((x : A) × (rest : List A) × (xs ≡ x ∷ rest))
first_of [] = inl refl
first_of (x ∷ xs) = inr (x, xs, refl)

zero_or_suc : (n : ℕ) → (n ≡ 0) ⊎ ((m : ℕ) × (n ≡ suc m))
zero_or_suc zero = inl refl
zero_or_suc (suc n) = inr (n, refl)

-- A task that a process has can be tried.
by_working :
    (pool : ℕ) (s : PoolState) (w : Task × Loop) (rest : List (Task × Loop))
    → s.working ≡ w ∷ rest
    → GoesOn pool s
unfolding step remove_at
by_working pool s (task, loop) rest e = (
  work 0 dial_failed,
  try_task (outcome loop dial_failed) task loop (record s { working = rest }),
  record {},
  rw e refl,
)

by_exit : (pool n : ℕ) (s : PoolState) → s.exits ≡ suc n → s.monitors ≡ true → GoesOn pool s
unfolding step
by_exit pool n s e on =
    (replace (started 1), replace_process (started 1) n s, record {}, rw (e, on) refl)

by_queue :
    (pool : ℕ) (s : PoolState) (task : Task) (queue : List Task) (loop : Loop) (loops : List Loop)
    → s.queue ≡ task ∷ queue
    → s.idle ≡ loop ∷ loops
    → GoesOn pool s
unfolding step remove_at
by_queue pool s task queue loop loops e e' = (
  take 0,
  record s { queue = queue; idle = loops; working = (task, loop) ∷ s.working },
  record {},
  rw (e', e) refl,
)

by_admitted :
    (pool : ℕ) (s : PoolState) (task : Task) (rest : List Task)
    → s.queue ≡ []
    → 0 < pool
    → s.admitted ≡ task ∷ rest
    → GoesOn pool s
unfolding step remove_at
by_admitted pool s task rest empty some_pool e =
    let room : ltb 0 (200 * pool) ≡ true = ground arith in
    (
      send 0,
      record s { admitted = rest; queue = s.queue ++ (task ∷ []) },
      record {},
      rw (e, empty, room) refl,
    )

by_returned :
    (pool : ℕ) (s : PoolState) (task : Task) (rest : List Task)
    → s.queue ≡ []
    → 0 < pool
    → s.returned ≡ task ∷ rest
    → GoesOn pool s
unfolding step remove_at
by_returned pool s task rest empty some_pool e =
    let room : ltb 0 (200 * pool) ≡ true = ground arith in
    (
      put_back 0,
      record s { returned = rest; queue = s.queue ++ (task ∷ []) },
      record {},
      rw (e, empty, room) refl,
    )

no_loops : (s : PoolState) → s.idle ≡ [] → s.working ≡ [] → s.exits ≡ 0 → processes s ≡ 0
no_loops s e e' e'' = rw (e, e', e'') refl

step-GoesOn :
    (pool : ℕ) (s : PoolState)
    → 0 < pool
    → s.monitors ≡ true
    → processes s ≡ pool
    → IsDone s ⊎ GoesOn pool s
step-GoesOn pool s some_pool on same = elim (first_of s.working) [
  | inr (w, rest, e) ↦ inr (by_working pool s w rest e)
  | inl no_work ↦ elim (zero_or_suc s.exits) [
    | inr (n, e) ↦ inr (by_exit pool n s e on)
    | inl no_exit ↦ elim (first_of s.queue) [
      | inr (task, queue, e) ↦ elim (first_of s.idle) [
        | inr (loop, loops, e') ↦ inr (by_queue pool s task queue loop loops e e')
        | inl no_idle ↦ absurd (omega (arith, no_loops s no_idle no_work no_exit))
      ]
      | inl empty ↦ elim (first_of s.admitted) [
        | inr (task, rest, e) ↦ inr (by_admitted pool s task rest empty some_pool e)
        | inl no_admitted ↦ elim (first_of s.returned) [
          | inr (task, rest, e) ↦ inr (by_returned pool s task rest empty some_pool e)
          | inl no_returned ↦ inl (no_admitted, empty, no_work, no_returned)
        ]
      ]
    ]
  ]
]

-- How many of the events that are not left to the outside can happen.
run-shorter :
    (pool : ℕ) (es : List Event) (s : PoolState) {s' : PoolState}
    → All IsQuiet es
    → run pool es s ≡ some s'
    → length es + events_left s' ≤ events_left s
unfolding run
run-shorter pool [] s q h =
    subst (λ s'. 0 + events_left s' ≤ events_left s) (some-injective h) (omega arith)
run-shorter pool (e ∷ es) s (qe, q) h =
    let (s₁, one, rest) = >>=-eq-some (step pool e s) _ h in
    omega (arith, run-shorter pool es s₁ q rest, (step-Stepped pool e s one).fewer qe)

abbrev pub HasReplies : PoolState → PoolState → Type 0
HasReplies s s' = (id : ℕ) → replies_to id s' ≡ open_tasks id s + replies_to id s

-- From a state in which as many processes run or wait to be replaced as the pool has, one at least,
-- any sequence of the events that the pool itself goes on with is no longer than the trials that are
-- left allow. As long as no process failed to start, another of them can happen, unless all tasks
-- are done; and when they are, every task has got exactly one reply, a result or an error.
pub run-replies :
    (pool : ℕ) (es : List Event) (s s' : PoolState)
    → 0 < pool
    → processes s ≡ pool
    → All IsQuiet es
    → run pool es s ≡ some s'
    → (length es + events_left s' ≤ events_left s)
      × (s'.monitors ≡ true → IsDone s' ⊎ GoesOn pool s')
      × (IsDone s' → HasReplies s s')
run-replies pool es s s' some_pool same q h =
    let (counts, kept) = run-counts pool es s h in
    (
      run-shorter pool es s q h,
      λ on.
          let (same', _) = kept on in
          step-GoesOn pool s' some_pool on (omega (arith, same', none_lost es q)),
      λ (a, b, c, d) id.
          let none_open : open_tasks id s' ≡ 0 = rw (a, b, c, d) refl in
          omega (arith, counts id, none_open, none_added id es q),
    )
  where
    none_added : (id : ℕ) (es : List Event) → All IsQuiet es → sum_of (added id) es ≡ 0
    none_added id [] q = refl
    none_added id (e ∷ es) (qe, q) = omega (arith, quiet_adds id e qe, none_added id es q)
      where
        quiet_adds : (id : ℕ) (e : Event) → IsQuiet e → added id e ≡ 0
        quiet_adds id (Event.add i) qe = absurd qe
        quiet_adds id (send i) qe = refl
        quiet_adds id (take i) qe = refl
        quiet_adds id (work i t) qe = refl
        quiet_adds id (put_back i) qe = refl
        quiet_adds id (Event.die i fails) qe = refl
        quiet_adds id (replace c) qe = refl

    none_lost : (es : List Event) → All IsQuiet es → sum_of lost es ≡ 0
    none_lost [] q = refl
    none_lost (e ∷ es) (qe, q) = omega (arith, quiet_keeps e qe, none_lost es q)
      where
        quiet_keeps : (e : Event) → IsQuiet e → lost e ≡ 0
        quiet_keeps (Event.die i fails) qe = absurd qe
        quiet_keeps _ qe = refl
