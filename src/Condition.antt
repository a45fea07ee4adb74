-- ===== src/Condition.antt =====
-- threads/synch.h and threads/synch.cc: `class Condition`, with the lock it is used with. A thread is
-- a number, and a `Semaphore *` the number of a semaphore, which is never used again: `delete` is left
-- out. `Wait` is split where other threads may run: `wait_start` up to the release of the lock,
-- `waits` for each test of `waiter->P()`, and then `Acquire` of the lock.
pub mod Signal
pub mod Broadcast
mod Tests
use project.Prelude.{
  ℕ, zero, suc, Bool, true, false, List, [], ◌∷◌, ◌++◌, Option, none, some, Exec, ok, undefined,
  ◌>>=◌, ◌>>◌, assert, defined, get_elem?, set, length,
}
use project.Semaphore.{Semaphore, new_semaphore, Test, takes, sleeps, p, v}
use project.Lock.{Lock, is_held_by, release}

-- The lock, all the semaphores allocated for waiting threads, and `waitQueue`.
pub record Monitor : Type 0 where
  pub lock : Lock
  pub waiters : List Semaphore
  pub wait_queue : List ℕ

abbrev pub enqueued : Monitor → Option ℕ × Lock → ℕ × (Option ℕ × Monitor)
enqueued m (woken, l) =
    let i = length m.waiters in
    (
      i,
      (
        woken,
        record {
          lock = l;
          waiters = m.waiters ++ (new_semaphore 0 ∷ []);
          wait_queue = m.wait_queue ++ (i ∷ []);
        },
      ),
    )

-- `Wait` up to `Release`: the waiter, and the thread that gets the lock, if one was waiting for it.
unfoldable pub wait_start : Monitor → ℕ → Exec (ℕ × (Option ℕ × Monitor))
wait_start m thread =
    assert (is_held_by m.lock thread) >> (release m.lock thread >>= λ r. ok (enqueued m r))

abbrev pub tested : Monitor → ℕ → Test → Bool × Monitor
tested m i (takes s) = (true, record m { waiters = set m.waiters i s })
tested m i (sleeps s) = (false, record m { waiters = set m.waiters i s })

-- One test of `waiter->P()`: whether the thread has passed; otherwise it sleeps.
unfoldable pub waits : Monitor → ℕ → ℕ → Exec (Bool × Monitor)
waits m i thread = defined (get_elem? m.waiters i) >>= λ s. ok (tested m i (p s thread))

abbrev pub raised : Monitor → ℕ → List ℕ → Option ℕ × Semaphore → Option ℕ × Monitor
raised m i rest (woken, s) = (woken, record m { waiters = set m.waiters i s; wait_queue = rest })

abbrev pub signal_first : Monitor → List ℕ → Exec (Option ℕ × Monitor)
signal_first m [] = ok (none, m)
signal_first m (i ∷ rest) = defined (get_elem? m.waiters i) >>= λ s. ok (raised m i rest (v s))

-- With the thread that is made ready, if one was asleep.
unfoldable pub signal : Monitor → ℕ → Exec (Option ℕ × Monitor)
signal m thread = assert (is_held_by m.lock thread) >> signal_first m m.wait_queue

abbrev pub with_woken : Option ℕ → List ℕ × Monitor → List ℕ × Monitor
with_woken none r = r
with_woken (some thread) (threads, m) = (thread ∷ threads, m)

-- `while (!waitQueue->IsEmpty())`, on fuel, where the queue is that of the monitor.
unfoldable pub broadcast_loop : ℕ → Monitor → List ℕ → ℕ → Exec (List ℕ × Monitor)
broadcast_loop n m [] thread = ok ([], m)
broadcast_loop zero m (i ∷ queue) thread = undefined
broadcast_loop (suc n) m (i ∷ queue) thread = signal m thread >>= λ r.
    broadcast_loop n r.1 r.1.wait_queue thread >>= λ b. ok (with_woken r.0 b)

-- Each signal takes one waiter out of the queue.
unfoldable pub broadcast : Monitor → ℕ → Exec (List ℕ × Monitor)
broadcast m thread = broadcast_loop (length m.wait_queue) m m.wait_queue thread
