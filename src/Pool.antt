-- ===== src/Pool.antt =====
-- worker/gdalprocess/pool.go and process.go: the queue of a worker's tasks and the processes that
-- take them from it. The goroutines go on in any order, one event at a time: each send and receive on
-- a channel is an event of its own. A task is its number and NumTrials; its two channels are the list
-- of replies. CreateProcessPool has started `pool` processes, and the queue has 200 places for each.
use gsky.Prelude.{
  ℕ, zero, suc, ◌+◌, ◌-◌, ◌*◌, Bool, true, false, Option, none, some, List, [], ◌∷◌, ◌++◌, ltb, leb,
  if◌then◌else◌, length, ◌>>=◌,
}
pub mod Kept
pub mod Progress
mod Tests

pub record Task : Type 0 where
  pub id : ℕ
  pub num_trials : ℕ

-- What a task's channels get: a result on Resp, or an error on Error.
pub data Reply : Type 0 where
  resp : Reply
  error : Reply

-- What happens while a process works on a task, which is up to the process and the system:
-- net.DialUnix, proto.Marshal, conn.Write, io.Copy and proto.Unmarshal fail, or all goes well and
-- the result says so or is empty.
pub data Trial : Type 0 where
  dial_failed encode_failed write_failed copy_failed decode_failed no_answer served : Trial

-- The loop of a process over the queue: taskProcessed and MaxTaskProcessed, and whether the process
-- itself still runs.
pub record Loop : Type 0 where
  pub task_processed : ℕ
  pub max_task_processed : ℕ
  pub is_up : Bool

-- `admitted` are the tasks that AddQueue is about to send, `returned` those of retryTask; `idle` are
-- the loops that wait for a task, `working` those that have one. `exits` counts the processes that
-- have exited with an error and were not replaced yet, and `monitors` is false once the goroutine of
-- CreateProcessPool waits for itself.
pub record PoolState : Type 0 where
  pub admitted : List Task
  pub queue : List Task
  pub idle : List Loop
  pub working : List (Task × Loop)
  pub returned : List Task
  pub replies : List (ℕ × Reply)
  pub exits : ℕ
  pub monitors : Bool

-- What CreateProcess comes to: the process starts and its loop begins, it starts but cannot be dialled
-- and is killed, or it does not start.
pub data Creation : Type 0 where
  started : (max_task_processed : ℕ) → Creation
  not_dialled : Creation
  not_started : Creation

-- The numbers are places in the lists of the state. A process may exit by itself, with an error or
-- without one.
pub data Event : Type 0 where
  add : (id : ℕ) → Event
  send : (i : ℕ) → Event
  take : (i : ℕ) → Event
  work : (i : ℕ) → Trial → Event
  put_back : (i : ℕ) → Event
  die : (i : ℕ) → (fails : Bool) → Event
  replace : Creation → Event

unfoldable pub remove_at : {A : Type 0} → ℕ → List A → Option (A × List A)
remove_at i [] = none
remove_at zero (x ∷ xs) = some (x, xs)
remove_at (suc i) (x ∷ xs) = remove_at i xs >>= λ r. some (r.0, x ∷ r.1)

abbrev pub reply : Task → Reply → PoolState → PoolState
reply task r s = record s { replies = (task.id, r) ∷ s.replies }

-- The loop goes on to the next task.
abbrev pub go_on : Loop → PoolState → PoolState
go_on loop s = record s { idle = loop ∷ s.idle }

-- The loop ends and the process is killed: if it was running it exits now, which is an error.
abbrev pub leave : Loop → PoolState → PoolState
leave loop s = if loop.is_up then record s { exits = suc s.exits } else s

-- Process.retryTask, and the break that follows each of its calls.
unfoldable pub retry_task : Task → Loop → PoolState → PoolState
retry_task task loop s =
    let n : ℕ = suc task.num_trials in
    leave loop (
      if leb 5 n
      then reply task error s
      else record s { returned = record { id = task.id; num_trials = n } ∷ s.returned })

-- task.Resp <- out, and the count of the tasks.
unfoldable pub answer : Task → Loop → PoolState → PoolState
answer task loop s =
    let n : ℕ = suc loop.task_processed in
    let s₁ : PoolState = reply task resp s in
    if leb loop.max_task_processed n
    then leave loop s₁
    else go_on (record loop { task_processed = n }) s₁

-- The body of the loop over the queue, for a task that was taken from it.
unfoldable pub try_task : Trial → Task → Loop → PoolState → PoolState
unfolding retry_task answer
try_task dial_failed task loop s = retry_task task loop s
try_task encode_failed task loop s = go_on loop (reply task error s)
try_task write_failed task loop s = retry_task task loop s
try_task copy_failed task loop s = retry_task task loop s
try_task decode_failed task loop s = go_on loop (reply task error s)
try_task no_answer task loop s = retry_task task loop s
try_task served task loop s = answer task loop s

-- A process that exited cannot be dialled.
abbrev pub outcome : Loop → Trial → Trial
outcome loop trial = if loop.is_up then trial else dial_failed

-- p.TaskQueue <- task waits for a place.
abbrev pub enqueue : ℕ → Task → PoolState → Option PoolState
enqueue pool task s =
    if ltb (length s.queue) (200 * pool)
    then some (record s { queue = s.queue ++ (task ∷ []) })
    else none

-- ProcessPool.AddQueue up to its send: len(p.TaskQueue) > 200*len(p.Pool)-10, where a pool of no
-- process refuses every task.
unfoldable pub add_queue : ℕ → ℕ → PoolState → PoolState
add_queue pool id s =
    let task : Task = record { id = id; num_trials = 0 } in
    if ltb (200 * pool) (length s.queue + 10)
    then reply task error s
    else record s { admitted = task ∷ s.admitted }

-- The goroutine of CreateProcessPool, for the exit of a process. When the new one does not start,
-- Start sends its message to this same goroutine, which then waits forever.
unfoldable pub replace_process : Creation → ℕ → PoolState → PoolState
replace_process (started max) n s =
    let loop : Loop = record { task_processed = 0; max_task_processed = max; is_up = true } in
    record s { exits = n; idle = loop ∷ s.idle }
replace_process not_dialled n s = s
replace_process not_started n s = record s { exits = n; monitors = false }

-- for task := range p.TaskQueue
abbrev pub receive : Loop → List Loop → List Task → PoolState → Option PoolState
receive loop loops [] s = none
receive loop loops (task ∷ queue) s =
    some (record s { queue = queue; idle = loops; working = (task, loop) ∷ s.working })

abbrev pub monitored : Creation → ℕ → Bool → PoolState → Option PoolState
monitored c n false s = none
monitored c zero true s = none
monitored c (suc n) true s = some (replace_process c n s)

-- p.Cmd.Wait(): only an exit with an error is told to the goroutine that replaces processes.
abbrev pub note_exit : Bool → PoolState → PoolState
note_exit fails s = if fails then record s { exits = suc s.exits } else s

-- What an event makes of the state; `none` where it cannot happen.
unfoldable pub step : ℕ → Event → PoolState → Option PoolState
unfolding remove_at try_task add_queue replace_process
step pool (add id) s = some (add_queue pool id s)
step pool (send i) s =
    remove_at i s.admitted >>= λ (task, rest). enqueue pool task (record s { admitted = rest })
step pool (take i) s = remove_at i s.idle >>= λ (loop, loops). receive loop loops s.queue s
step pool (work i trial) s = remove_at i s.working >>= λ ((task, loop), rest).
    some (try_task (outcome loop trial) task loop (record s { working = rest }))
step pool (put_back i) s =
    remove_at i s.returned >>= λ (task, rest). enqueue pool task (record s { returned = rest })
step pool (die i fails) s = remove_at i s.idle >>= λ (loop, loops).
    if loop.is_up
    then some (note_exit fails (record s { idle = record loop { is_up = false } ∷ loops }))
    else none
step pool (replace c) s = monitored c s.exits s.monitors s

unfoldable pub run : ℕ → List Event → PoolState → Option PoolState
unfolding step
run pool [] s = some s
run pool (e ∷ es) s = step pool e s >>= run pool es
