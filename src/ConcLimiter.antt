-- ===== src/ConcLimiter.antt =====
-- processor/conc_limiter.go: the limiter of the goroutines that call the workers. Its users call
-- Increase before they start a goroutine, whose last call is Decrease, and Wait at the end.
use gsky.Prelude.{ℕ, zero, suc, ◌+◌, ◌<◌, ◌≡◌}
pub mod Bound
mod Tests

-- The channel Pool holds `pool` values, and the counter of the WaitGroup is `count`. Of the calls of
-- Increase, `waiting` are at their send; of the goroutines, `active` have not called Decrease, and
-- `leaving` are in Decrease, behind the receive and before Done.
pub record Limiter : Type 0 where
  pub pool : ℕ
  pub count : ℕ
  pub waiting : ℕ
  pub active : ℕ
  pub leaving : ℕ

-- NewConcLimiter
abbrev pub new_conc_limiter : Limiter
new_conc_limiter = record { pool = 0; count = 0; waiting = 0; active = 0; leaving = 0 }

-- One step of one goroutine, where the capacity of the channel is c_level: a send waits for room, and
-- the select of Decrease takes its default where the channel is empty.
pub data Step (c_level : ℕ) : Limiter → Limiter → Type 0 where
  increase_add :
      (p c w a l : ℕ)
      → Step c_level
          (record { pool = p; count = c; waiting = w; active = a; leaving = l })
          (record { pool = p; count = suc c; waiting = suc w; active = a; leaving = l })
  increase_send :
      (p c w a l : ℕ)
      → p < c_level
      → Step c_level
          (record { pool = p; count = c; waiting = suc w; active = a; leaving = l })
          (record { pool = suc p; count = c; waiting = w; active = suc a; leaving = l })
  decrease_receive :
      (p c w a l : ℕ)
      → Step c_level
          (record { pool = suc p; count = c; waiting = w; active = suc a; leaving = l })
          (record { pool = p; count = c; waiting = w; active = a; leaving = suc l })
  decrease_default :
      (c w a l : ℕ)
      → Step c_level
          (record { pool = zero; count = c; waiting = w; active = suc a; leaving = l })
          (record { pool = zero; count = c; waiting = w; active = a; leaving = l })
  decrease_done :
      (p c w a l : ℕ)
      → Step c_level
          (record { pool = p; count = suc c; waiting = w; active = a; leaving = suc l })
          (record { pool = p; count = c; waiting = w; active = a; leaving = l })

-- What any interleaving of the goroutines comes to.
pub data Reach (c_level : ℕ) : Limiter → Type 0 where
  start : Reach c_level new_conc_limiter
  next : (s t : Limiter) → Reach c_level s → Step c_level s t → Reach c_level t
