-- ===== src/Pool/Kept.antt =====
-- No task is lost and none is answered twice, and no process is lost that is watched.
use gsky.Prelude.{
  ℕ, zero, suc, ◌+◌, ◌-◌, ◌*◌, ◌<◌, ◌≡◌, refl, sym, ap, subst, ◌∙◌, Bool, true, false, Option, none,
  some, List, [], ◌∷◌, ◌++◌, arith, ltb, leb, ◌==◌, if◌then◌else◌, length, Bool-cases, inl, inr,
  ◌>>=◌,
}
use gsky.Pool.{
  Task, Reply, resp, error, Trial, encode_failed, decode_failed, served, Loop, PoolState, Creation,
  started, not_dialled, not_started, Event, add, send, take, work, put_back, die, replace,
  remove_at, reply, go_on, leave, retry_task, answer, try_task, outcome, enqueue, add_queue,
  replace_process, note_exit, receive, monitored, step, run,
}

abbrev pub one_if : Bool → ℕ
one_if true = 1
one_if false = 0

abbrev pub sum_of : {A : Type 0} → (A → ℕ) → List A → ℕ
sum_of f [] = 0
sum_of f (x ∷ xs) = f x + sum_of f xs

sum_of-append :
    {A : Type 0} (f : A → ℕ) (xs ys : List A) → sum_of f (xs ++ ys) ≡ sum_of f xs + sum_of f ys
sum_of-append f [] ys = omega arith
sum_of-append f (x ∷ xs) ys = omega (arith, sum_of-append f xs ys)

pub >>=-eq-some :
    {A B : Type 0} (o : Option A) (f : A → Option B) {b : B}
    → (o >>= f) ≡ some b
    → (a : A) × (o ≡ some a) × (f a ≡ some b)
>>=-eq-some none f h = absurd (cc)
>>=-eq-some (some a) f h = (a, refl, h)

abbrev sum_with : {A : Type 0} → (A → ℕ) → Option (A × List A) → ℕ
sum_with f none = 0
sum_with f (some (x, rest)) = f x + sum_of f rest

pub remove_at-sum :
    {A : Type 0} (f : A → ℕ) (i : ℕ) (xs : List A) {x : A} {rest : List A}
    → remove_at i xs ≡ some (x, rest)
    → sum_of f xs ≡ f x + sum_of f rest
unfolding remove_at
remove_at-sum f i [] e = absurd (cc)
remove_at-sum f zero (y ∷ xs) e = ap (sum_with f) e
remove_at-sum f (suc i) (y ∷ xs) e =
    let ((x, rest), found, same) = >>=-eq-some (remove_at i xs) _ e in
    omega (arith, remove_at-sum f i xs found, ap (sum_with f) same)

-- How often a number stands for a task that is in the system, and among the replies.
abbrev pub has_id : ℕ → Task → ℕ
has_id id task = one_if (task.id == id)

abbrev pub open_tasks : ℕ → PoolState → ℕ
open_tasks id s =
    sum_of (has_id id) s.admitted
    + (sum_of (has_id id) s.queue
        + (sum_of (λ w. has_id id w.0) s.working + sum_of (has_id id) s.returned))

abbrev pub replies_to : ℕ → PoolState → ℕ
replies_to id s = sum_of (λ r. one_if (r.0 == id)) s.replies

-- The processes that run, and those that wait to be replaced.
abbrev pub is_running : Loop → ℕ
is_running loop = one_if loop.is_up

abbrev pub processes : PoolState → ℕ
processes s = sum_of is_running s.idle + (sum_of (λ w. is_running w.1) s.working + s.exits)

-- What is left of the way of a task: the trials that it has, each with the events that it needs.
abbrev pub way : ℕ → Task → ℕ
way n task = n + 4 * (5 - task.num_trials)

abbrev pub events_left : PoolState → ℕ
events_left s =
    sum_of (way 4) s.admitted
    + (sum_of (way 3) s.queue
        + (sum_of (λ w. way 2 w.0) s.working + (sum_of (way 4) s.returned + s.exits)))

-- A trial of a task that was taken out of `working`.
record Tried (task : Task) (loop : Loop) (s s' : PoolState) : Type 0 where
  counts :
      (id : ℕ)
      → open_tasks id s' + replies_to id s' ≡ has_id id task + (open_tasks id s + replies_to id s)
  fewer : events_left s' < way 2 task + events_left s
  same_processes : processes s' ≡ is_running loop + processes s
  same_monitor : s'.monitors ≡ s.monitors

leave-Tried :
    (task : Task) (loop : Loop) (s s₁ : PoolState)
    → ((id : ℕ)
        → open_tasks id s₁ + replies_to id s₁
          ≡ has_id id task + (open_tasks id s + replies_to id s))
    → suc (events_left s₁) < way 2 task + events_left s
    → processes s₁ ≡ processes s
    → s₁.monitors ≡ s.monitors
    → Tried task loop s (leave loop s₁)
leave-Tried task loop s s₁ counts fewer same m = elim (Bool-cases loop.is_up) [
  | inl up ↦ rw up (record {
    counts = counts;
    fewer = omega (arith, fewer);
    same_processes = omega (arith, same);
    same_monitor = m;
  })
  | inr down ↦ rw down (record {
    counts = counts;
    fewer = omega (arith, fewer);
    same_processes = omega (arith, same);
    same_monitor = m;
  })
]

retry_task-Tried :
    (task : Task) (loop : Loop) (s : PoolState) → Tried task loop s (retry_task task loop s)
unfolding retry_task
retry_task-Tried task loop s = elim (Bool-cases (leb 5 (suc task.num_trials))) [
  | inl last ↦
      rw last
        (leave-Tried task loop s (reply task error s) (λ id. omega arith) (omega arith) refl refl)
  | inr again ↦ rw again (
      leave-Tried task loop s
        (record s {
          returned = record { id = task.id; num_trials = suc task.num_trials } ∷ s.returned;
        })
        (λ id. omega arith) (ground arith) refl refl)
]

go_on-Tried :
    (task : Task) (loop loop' : Loop) (r : Reply) (s : PoolState)
    → loop'.is_up ≡ loop.is_up
    → Tried task loop s (go_on loop' (reply task r s))
go_on-Tried task loop loop' r s same = record {
  counts = λ id. omega arith;
  fewer = omega arith;
  same_processes = rw same (omega arith);
  same_monitor = refl;
}

answer-Tried : (task : Task) (loop : Loop) (s : PoolState) → Tried task loop s (answer task loop s)
unfolding answer
answer-Tried task loop s =
    elim (Bool-cases (leb loop.max_task_processed (suc loop.task_processed))) [
      | inl last ↦
          rw last (
            leave-Tried task loop s (reply task resp s) (λ id. omega arith) (omega arith) refl refl)
      | inr more ↦ rw more (
          go_on-Tried task loop (record loop { task_processed = suc loop.task_processed }) resp s
            refl)
    ]

try_task-Tried :
    (trial : Trial) (task : Task) (loop : Loop) (s : PoolState)
    → Tried task loop s (try_task trial task loop s)
unfolding try_task
try_task-Tried encode_failed task loop s = go_on-Tried task loop loop error s refl
try_task-Tried decode_failed task loop s = go_on-Tried task loop loop error s refl
try_task-Tried served task loop s = answer-Tried task loop s
try_task-Tried _ task loop s = retry_task-Tried task loop s

-- The calls of AddQueue.
abbrev pub added : ℕ → Event → ℕ
added id (add i) = one_if (i == id)
added id _ = 0

-- The processes that exit by themselves without an error.
abbrev pub lost : Event → ℕ
lost (die i false) = 1
lost _ = 0

-- What goes on without new tasks, processes that die by themselves and new ones that cannot be dialled.
abbrev pub IsQuiet : Event → Type 0
IsQuiet (add id) = ⊥
IsQuiet (die i fails) = ⊥
IsQuiet (replace not_dialled) = ⊥
IsQuiet _ = Unit

pub record Stepped (e : Event) (s s' : PoolState) : Type 0 where
  pub counts :
      (id : ℕ)
      → open_tasks id s' + replies_to id s' ≡ added id e + (open_tasks id s + replies_to id s)
  pub fewer : IsQuiet e → events_left s' < events_left s
  pub kept : s'.monitors ≡ true → (lost e + processes s' ≡ processes s) × (s.monitors ≡ true)

pub some-injective : {A : Type 0} {a b : A} → some a ≡ some b → a ≡ b
some-injective e = cc

enqueue-Stepped :
    (pool : ℕ) (e : Event) (task : Task) (s s₁ : PoolState) {s' : PoolState}
    → ((id : ℕ)
        → has_id id task + (open_tasks id s₁ + replies_to id s₁)
          ≡ added id e + (open_tasks id s + replies_to id s))
    → way 4 task + events_left s₁ ≡ events_left s
    → lost e + processes s₁ ≡ processes s
    → s₁.monitors ≡ s.monitors
    → enqueue pool task s₁ ≡ some s'
    → Stepped e s s'
enqueue-Stepped pool e task s s₁ counts left same m h =
    elim (Bool-cases (ltb (length s₁.queue) (200 * pool))) [
      | inl room ↦ subst (Stepped e s) (some-injective (rw room at h)) (record {
        counts = λ id. omega (arith, counts id, sum_of-append (has_id id) s₁.queue (task ∷ []));
        fewer = λ q. omega (arith, left, sum_of-append (way 3) s₁.queue (task ∷ []));
        kept = λ on. (same, sym m ∙ on);
      })
      | inr full ↦ (let none_here = rw full at h in absurd (cc))
    ]

add_queue-Stepped : (pool id : ℕ) (s : PoolState) → Stepped (add id) s (add_queue pool id s)
unfolding add_queue
add_queue-Stepped pool id s = elim (Bool-cases (ltb (200 * pool) (length s.queue + 10))) [
  | inl full ↦
      rw full (record {
        counts = λ i. omega arith;
        fewer = λ q. absurd q;
        kept = λ on. (omega arith, on);
      })
  | inr free ↦
      rw free (record {
        counts = λ i. omega arith;
        fewer = λ q. absurd q;
        kept = λ on. (omega arith, on);
      })
]

receive-Stepped :
    (i : ℕ) (s : PoolState) (loop : Loop) (loops : List Loop) (queue : List Task) {s' : PoolState}
    → s.queue ≡ queue
    → remove_at i s.idle ≡ some (loop, loops)
    → receive loop loops queue s ≡ some s'
    → Stepped (take i) s s'
receive-Stepped i s loop loops [] same found h = absurd (cc)
receive-Stepped i s loop loops (task ∷ queue) same found h =
    subst (Stepped (take i) s) (some-injective h) (record {
      counts = λ id. omega (arith, ap (sum_of (has_id id)) same);
      fewer = λ q. omega (arith, ap (sum_of (way 3)) same);
      kept = λ on. (omega (arith, remove_at-sum is_running i s.idle found), on);
    })

replace-Stepped :
    (c : Creation) (n : ℕ) (on : Bool) (s : PoolState) {s' : PoolState}
    → s.exits ≡ n
    → s.monitors ≡ on
    → monitored c n on s ≡ some s'
    → Stepped (replace c) s s'
unfolding replace_process
replace-Stepped c n false s e m h = absurd (cc)
replace-Stepped c zero true s e m h = absurd (cc)
replace-Stepped (started max) (suc n) true s e m h =
    subst (Stepped (replace (started max)) s) (some-injective h) (record {
      counts = λ id. omega arith;
      fewer = λ q. omega (arith, e);
      kept = λ on. (omega (arith, e), on);
    })
replace-Stepped not_dialled (suc n) true s e m h =
    subst (Stepped (replace not_dialled) s) (some-injective h)
      (record { counts = λ id. omega arith; fewer = λ q. absurd q; kept = λ on. (omega arith, on) })
replace-Stepped not_started (suc n) true s e m h =
    subst (Stepped (replace not_started) s) (some-injective h) (record {
      counts = λ id. omega arith;
      fewer = λ q. omega (arith, e);
      kept = λ off. absurd (cc);
    })

die-Stepped :
    (i : ℕ) (fails : Bool) (s : PoolState) (loop : Loop) (loops : List Loop) {s' : PoolState}
    → remove_at i s.idle ≡ some (loop, loops)
    → (if loop.is_up
        then some (note_exit fails (record s { idle = record loop { is_up = false } ∷ loops }))
        else none)
      ≡ some s'
    → Stepped (die i fails) s s'
die-Stepped i fails s loop loops found h = elim (Bool-cases loop.is_up) [
  | inl up ↦ subst (Stepped (die i fails) s) (some-injective (rw up at h)) (exits fails up)
  | inr down ↦ (let none_here = rw down at h in absurd (cc))
]
  where
    exits :
        (fails : Bool)
        → loop.is_up ≡ true
        → Stepped
            (die i fails)
            s
            (note_exit fails (record s { idle = record loop { is_up = false } ∷ loops }))
    exits true up = record {
      counts = λ id. omega arith;
      fewer = λ q. absurd q;
      kept = λ on. (omega (arith, remove_at-sum is_running i s.idle found, ap one_if up), on);
    }
    exits false up = record {
      counts = λ id. omega arith;
      fewer = λ q. absurd q;
      kept = λ on. (omega (arith, remove_at-sum is_running i s.idle found, ap one_if up), on);
    }

pub step-Stepped :
    (pool : ℕ) (e : Event) (s : PoolState) {s' : PoolState}
    → step pool e s ≡ some s'
    → Stepped e s s'
unfolding step
step-Stepped pool (add id) s h =
    subst (Stepped (add id) s) (some-injective h) (add_queue-Stepped pool id s)
step-Stepped pool (send i) s h =
    let ((task, rest), found, made) = >>=-eq-some (remove_at i s.admitted) _ h in
    enqueue-Stepped pool (send i) task s (record s { admitted = rest })
      (λ id. omega (arith, remove_at-sum (has_id id) i s.admitted found))
      (omega (arith, remove_at-sum (way 4) i s.admitted found)) (omega arith) refl made
step-Stepped pool (take i) s h =
    let ((loop, loops), found, made) = >>=-eq-some (remove_at i s.idle) _ h in
    receive-Stepped i s loop loops s.queue refl found made
step-Stepped pool (work i trial) s h =
    let (((task, loop), rest), found, made) = >>=-eq-some (remove_at i s.working) _ h in
    let t = try_task-Tried (outcome loop trial) task loop (record s { working = rest }) in
    subst (Stepped (work i trial) s) (some-injective made) (record {
      counts =
          λ id. omega (arith, t.counts id, remove_at-sum (λ w. has_id id w.0) i s.working found);
      fewer = λ q. omega (arith, t.fewer, remove_at-sum (λ w. way 2 w.0) i s.working found);
      kept = λ on. (
        omega (arith, t.same_processes, remove_at-sum (λ w. is_running w.1) i s.working found),
        sym t.same_monitor ∙ on,
      );
    })
step-Stepped pool (put_back i) s h =
    let ((task, rest), found, made) = >>=-eq-some (remove_at i s.returned) _ h in
    enqueue-Stepped pool (put_back i) task s (record s { returned = rest })
      (λ id. omega (arith, remove_at-sum (has_id id) i s.returned found))
      (omega (arith, remove_at-sum (way 4) i s.returned found)) (omega arith) refl made
step-Stepped pool (die i fails) s h =
    let ((loop, loops), found, made) = >>=-eq-some (remove_at i s.idle) _ h in
    die-Stepped i fails s loop loops found made
step-Stepped pool (replace c) s h = replace-Stepped c s.exits s.monitors s refl refl h

-- For any events that can happen, in any order: the tasks with a number that are in the system and the
-- replies to it are together those at the start and the calls of `AddQueue` with it. As long as no
-- process failed to start, the processes that run or wait to be replaced, with those that exited by
-- themselves without an error, are as many as at the start.
pub run-counts :
    (pool : ℕ) (es : List Event) (s : PoolState) {s' : PoolState}
    → run pool es s ≡ some s'
    → ((id : ℕ)
        → open_tasks id s' + replies_to id s'
          ≡ sum_of (added id) es + (open_tasks id s + replies_to id s))
      × (s'.monitors ≡ true → (sum_of lost es + processes s' ≡ processes s) × (s.monitors ≡ true))
unfolding run
run-counts pool [] s h =
    subst
      (λ s'.
        ((id : ℕ) → open_tasks id s' + replies_to id s' ≡ 0 + (open_tasks id s + replies_to id s))
        × (s'.monitors ≡ true → (0 + processes s' ≡ processes s) × (s.monitors ≡ true)))
      (some-injective h) (λ id. omega arith, λ on. (omega arith, on))
run-counts pool (e ∷ es) s h =
    let (s₁, one, rest) = >>=-eq-some (step pool e s) _ h in
    let (counts, kept) = run-counts pool es s₁ rest in
    let t = step-Stepped pool e s one in
    (
      λ id. omega (arith, counts id, t.counts id),
      λ on.
          let (same, on₁) = kept on in
          let (same₁, on₂) = t.kept on₁ in (omega (arith, same, same₁), on₂),
    )
