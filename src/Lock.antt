-- ===== src/Lock.antt =====
-- threads/synch.h and threads/synch.cc: `class Lock`. A thread is a number. `Acquire` is `P` of the
-- semaphore, one test of its loop at a time, and then `hold`: other threads may run in between.
pub mod Exclusion
mod Tests
use project.Prelude.{ℕ, Bool, false, Option, none, some, Exec, ok, aborted, ◌==◌, if◌then◌else◌}
use project.Semaphore.{Semaphore, new_semaphore, v}

pub record Lock : Type 0 where
  pub semaphore : Semaphore
  pub holder : Option ℕ

-- The constructor.
abbrev pub new_lock : Lock
new_lock = record { semaphore = new_semaphore 1; holder = none }

-- `lockHolder = kernel->currentThread`
abbrev pub hold : Lock → ℕ → Lock
hold l t = record l { holder = some t }

abbrev pub is_held_by : Lock → ℕ → Bool
is_held_by l t = elim l.holder [ none ↦ false | some h ↦ h == t ]

-- With the thread that is made ready, if one was waiting.
unfoldable pub release : Lock → ℕ → Exec (Option ℕ × Lock)
release l t =
    if is_held_by l t
    then (let (woken, s) = v l.semaphore in ok (woken, record { semaphore = s; holder = none }))
    else aborted
