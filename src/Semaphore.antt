-- ===== src/Semaphore.antt =====
-- threads/synch.h and threads/synch.cc: `class Semaphore`. A thread is a number. With interrupts off
-- `P` and `V` run without a break except in `Sleep`, so `P` is one test of its loop at a time: the
-- thread takes a unit or sleeps in the queue; a thread that `V` has woken is ready and tests again.
pub mod Steps
mod Tests
use project.Prelude.{ℕ, suc, ◌+◌, ◌-◌, List, [], ◌∷◌, ◌++◌, Option, none, some, ◌==◌, if◌then◌else◌}

-- `value` is an `int` that is never negative: an initial value below 0 is not modelled.
pub record Semaphore : Type 0 where
  pub value : ℕ
  pub queue : List ℕ

-- The constructor.
abbrev pub new_semaphore : ℕ → Semaphore
new_semaphore n = record { value = n; queue = [] }

pub data Test : Type 0 where
  takes sleeps : Semaphore → Test

-- `while (value == 0) { queue->Append(currentThread); Sleep }`, once, and `value--` after the loop.
unfoldable pub p : Semaphore → ℕ → Test
p s t =
    if s.value == 0
    then sleeps (record s { queue = s.queue ++ (t ∷ []) })
    else takes (record s { value = s.value - 1 })

-- With the thread that is made ready, if one was waiting. `value++` overflows at the greatest `int`,
-- where `v` does not tell what the code does.
unfoldable pub v : Semaphore → Option ℕ × Semaphore
v s = elim s.queue [
  | [] ↦ (none, record s { value = s.value + 1 })
  | t ∷ rest ↦ (some t, record s { value = s.value + 1; queue = rest })
]
