-- ===== src/Condition/Tests.antt =====
-- The theorems about condition variables, with a free queue and with two threads asleep.
use project.Prelude.{ℕ, refl, arith, List, [], ◌∷◌, some, Returns}
use project.Semaphore.{Semaphore}
use project.Lock.{Lock}
use project.Condition.{Monitor, broadcast}
use project.Condition.Signal.{NotMissed, wait-NotMissed}
use project.Condition.Broadcast.{Signals, broadcast-Signals}

abbrev held_by : ℕ → Lock
held_by thread = record { semaphore = record { value = 0; queue = [] }; holder = some thread }

abbrev nobody_waits : Monitor
nobody_waits = record { lock = held_by 4; waiters = []; wait_queue = [] }

abbrev asleep : ℕ → Semaphore
asleep thread = record { value = 0; queue = thread ∷ [] }

abbrev two_wait : Monitor
two_wait = record { lock = held_by 4; waiters = asleep 5 ∷ asleep 6 ∷ []; wait_queue = 0 ∷ 1 ∷ [] }

wait-NotMissed_example : NotMissed nobody_waits 4 5 (held_by 5)
wait-NotMissed_example = wait-NotMissed nobody_waits 4 5 (held_by 5) refl refl refl

broadcast-Signals_example :
    Returns (λ (r : List ℕ × Monitor). Signals two_wait r.1) (broadcast two_wait 4)
broadcast-Signals_example = broadcast-Signals two_wait 4 refl (omega arith, (omega arith, tt))
