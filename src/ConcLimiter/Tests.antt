-- ===== src/ConcLimiter/Tests.antt =====
-- Two goroutines come to a limiter with room for one: the second one waits.
use gsky.Prelude.{◌+◌, ◌≤◌, ◌≡◌, arith}
use gsky.ConcLimiter.{Limiter, Reach, start, next, increase_add, increase_send}
use gsky.ConcLimiter.Bound.{Reach-Holds}

abbrev busy : Limiter
busy = record { pool = 1; count = 2; waiting = 1; active = 1; leaving = 0 }

one_waits : Reach 1 busy
one_waits =
    next _ _ (next _ _ (next _ _ start (increase_add 0 0 0 0 0)) (increase_add 0 1 1 0 0))
      (increase_send 0 2 1 0 0 (omega arith))

Reach-Holds_example :
    (busy.pool ≡ busy.active)
    × (busy.active ≤ 1)
    × (busy.count ≡ busy.waiting + busy.active + busy.leaving)
Reach-Holds_example = Reach-Holds 1 busy one_waits
