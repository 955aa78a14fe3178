-- ===== src/ConcLimiter/Bound.antt =====
-- The bound that the limiter is for, and the counter that Wait waits for.
use gsky.Prelude.{ℕ, ◌+◌, ◌≤◌, ◌≡◌, refl, arith}
use gsky.ConcLimiter.{
  Limiter, Step, increase_add, increase_send, decrease_receive, decrease_default, decrease_done,
  Reach, start, next,
}

abbrev pub Holds : ℕ → Limiter → Type 0
Holds c_level s =
    (s.pool ≡ s.active) × (s.active ≤ c_level) × (s.count ≡ s.waiting + s.active + s.leaving)

Step-Holds : (c_level : ℕ) (s t : Limiter) → Step c_level s t → Holds c_level s → Holds c_level t
Step-Holds n s t (increase_add p c w a l) h = (omega arith, omega arith, omega arith)
Step-Holds n s t (increase_send p c w a l room) h = (omega arith, omega arith, omega arith)
Step-Holds n s t (decrease_receive p c w a l) h = (omega arith, omega arith, omega arith)
Step-Holds n s t (decrease_default c w a l) h = absurd (omega arith)
Step-Holds n s t (decrease_done p c w a l) h = (omega arith, omega arith, omega arith)

-- In every state that can be reached, the channel holds one value for each goroutine that runs, no
-- more of them run than the channel has room for, and the counter of the WaitGroup is the number of
-- those that wait for room, run or are about to be done: Wait returns when there are none.
pub Reach-Holds :
    (c_level : ℕ) (s : Limiter)
    → Reach c_level s
    → (s.pool ≡ s.active) × (s.active ≤ c_level) × (s.count ≡ s.waiting + s.active + s.leaving)
Reach-Holds n s start = (refl, omega arith, refl)
Reach-Holds n t (next s _ r step) = Step-Holds n s t step (Reach-Holds n s r)
