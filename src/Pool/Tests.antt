-- ===== src/Pool/Tests.antt =====
-- A pool of one process with two tasks, one of which has one trial left.
use gsky.Prelude.{
  ℕ, ◌+◌, ◌≤◌, ◌≡◌, ◌⊎◌, refl, true, false, none, some, List, [], ◌∷◌, arith, length,
}
use gsky.Pool.{
  error, resp, PoolState, dial_failed, served, Event, add, send, take, work, put_back, die, replace,
  started, not_started, step, run,
}
use gsky.Pool.Kept.{open_tasks, replies_to, sum_of, added, lost, processes, events_left, run-counts}
use gsky.Pool.Progress.{IsDone, GoesOn, HasReplies, run-replies}

abbrev no_tasks : PoolState
no_tasks = record {
  admitted = [];
  queue = [];
  idle = record { task_processed = 0; max_task_processed = 100; is_up = true } ∷ [];
  working = [];
  returned = [];
  replies = [];
  exits = 0;
  monitors = true;
}

abbrev two_tasks : PoolState
two_tasks = record no_tasks {
  admitted = record { id = 1; num_trials = 0 } ∷ [];
  queue = record { id = 2; num_trials = 4 } ∷ [];
}

-- The second task fails for good; the process is replaced, and serves the first.
abbrev to_the_end : List Event
to_the_end =
    take 0
    ∷ send 0
    ∷ work 0 dial_failed
    ∷ replace (started 1)
    ∷ take 0
    ∷ work 0 served
    ∷ replace (started 7)
    ∷ []

abbrev done : PoolState
done = record no_tasks {
  idle = record { task_processed = 0; max_task_processed = 7; is_up = true } ∷ [];
  replies = (1, resp) ∷ (2, error) ∷ [];
}

runs : run 1 to_the_end two_tasks ≡ some done
unfolding run
runs = refl

run-replies_example :
    (length to_the_end + events_left done ≤ events_left two_tasks)
    × (done.monitors ≡ true → IsDone done ⊎ GoesOn 1 done)
    × (IsDone done → HasReplies two_tasks done)
run-replies_example =
    run-replies 1 to_the_end two_tasks done (omega arith) refl
      (
        record {},
        (record {}, (record {}, (record {}, (record {}, (record {}, (record {}, record {})))))),
      )
      runs

-- A task comes in while the process dies, which is noticed with the task's first trial. The process
-- that is to replace it does not start, and the task stays.
abbrev left_alone : List Event
left_alone =
    add 3 ∷ die 0 true ∷ replace not_started ∷ send 0 ∷ take 0 ∷ work 0 served ∷ put_back 0 ∷ []

abbrev alone : PoolState
alone = record no_tasks {
  queue = record { id = 3; num_trials = 1 } ∷ [];
  idle = [];
  monitors = false;
}

stays : run 1 left_alone no_tasks ≡ some alone
unfolding run
stays = refl

run-counts_example :
    ((id : ℕ)
      → open_tasks id alone + replies_to id alone
        ≡ sum_of (added id) left_alone + (open_tasks id no_tasks + replies_to id no_tasks))
    × (alone.monitors ≡ true
        → (sum_of lost left_alone + processes alone ≡ processes no_tasks)
          × (no_tasks.monitors ≡ true))
run-counts_example = run-counts 1 left_alone no_tasks stays

-- Nothing more happens by itself.
no_more : step 1 (take 0) alone ≡ none
unfolding step
no_more = refl

-- A process that exits without an error is not replaced, and a task then waits in a pool of one.
not_missed :
    run 1 (die 0 false ∷ add 4 ∷ send 0 ∷ take 0 ∷ work 0 served ∷ put_back 0 ∷ []) no_tasks
    ≡ some (record no_tasks { idle = []; queue = record { id = 4; num_trials = 1 } ∷ [] })
unfolding run
not_missed = refl
