-- ===== src/SemaphoreTable.antt =====
-- threads/sem.h, threads/sem.cc, threads/stable.h and threads/stable.cc: the semaphores that user
-- programs make and use by name. Initial values are non-negative.
pub mod Search
pub mod Create
pub mod Calls
mod Tests
use project.Prelude.{
  ℕ, zero, suc, ◌+◌, List, Option, none, some, Exec, ok, undefined, ◌>>=◌, defined, ltb,
  if◌then◌else◌, ℤ, pos, negsuc, minus_one, get_elem?, set, replicate,
}
use project.Bitmap
use project.Bitmap.{Bitmap, find_and_set}
use project.Semaphore.{Semaphore, new_semaphore, takes, sleeps, p, v}
use project.CString.{strlen, str_same}

abbrev pub max_semaphore : ℕ
max_semaphore = 10

pub record Sem : Type 0 where
  pub name : List ℕ
  pub sem : Semaphore

-- The constructor copies the name into 50 bytes.
unfoldable pub new_sem : List ℕ → ℕ → Exec Sem
new_sem name value =
    if ltb (strlen name) 50
    then ok (record { name = name; sem = new_semaphore value })
    else undefined

pub record SemaphoreTable : Type 0 where
  pub bm : Bitmap
  pub sem_tab : List (Option Sem)

abbrev pub no_sem : Option Sem
no_sem = none

unfoldable pub new_semaphore_table : Exec SemaphoreTable
new_semaphore_table = Bitmap.init (pos max_semaphore) >>= λ bm.
    ok (record { bm = bm; sem_tab = replicate max_semaphore no_sem })

abbrev pub sem_at : SemaphoreTable → ℕ → Exec Sem
sem_at t i = defined (get_elem? t.sem_tab i) >>= defined

-- The loop of `Create`, `Wait` and `Signal` from slot `i` on, with `left` slots to go.
unfoldable pub find_sem : SemaphoreTable → List ℕ → ℕ → ℕ → Exec (Option (ℕ × Sem))
find_sem t name zero i = ok none
find_sem t name (suc left) i =
    let rest = find_sem t name left (i + 1) in
    Bitmap.test t.bm (pos i) >>= λ b.
    if b
    then (sem_at t i >>= λ s. if str_same name s.name then ok (some (i, s)) else rest)
    else rest

abbrev pub put_sem : SemaphoreTable → ℕ → Sem → SemaphoreTable
put_sem t i s = record t { sem_tab = set t.sem_tab i (some s) }

-- `Create` with the slot that `FindAndSet` gives.
abbrev pub create_in : SemaphoreTable → List ℕ → ℕ → ℤ × Bitmap → Exec (ℤ × SemaphoreTable)
create_in t name value (negsuc n, bm) = ok (minus_one, record t { bm = bm })
create_in t name value (pos i, bm) = new_sem name value >>= λ s.
    defined (get_elem? t.sem_tab i) >>= λ old. ok (pos 0, put_sem (record t { bm = bm }) i s)

abbrev pub create_new : SemaphoreTable → List ℕ → ℕ → Option (ℕ × Sem) → Exec (ℤ × SemaphoreTable)
create_new t name value (some found) = ok (minus_one, t)
create_new t name value none = find_and_set t.bm >>= create_in t name value

unfoldable pub create : SemaphoreTable → List ℕ → ℕ → Exec (ℤ × SemaphoreTable)
create t name value = find_sem t name max_semaphore 0 >>= create_new t name value

-- `Wait` returns, or the thread sleeps on the semaphore.
pub data Waiting : Type 0 where
  returns : ℤ → SemaphoreTable → Waiting
  asleep : SemaphoreTable → Waiting

abbrev pub wait_at : SemaphoreTable → ℕ → Option (ℕ × Sem) → Exec Waiting
wait_at t thread none = ok (returns minus_one t)
wait_at t thread (some (i, s)) = elim (p s.sem thread) [
  | takes q ↦ ok (returns (pos 0) (put_sem t i (record s { sem = q })))
  | sleeps q ↦ ok (asleep (put_sem t i (record s { sem = q })))
]

unfoldable pub wait : SemaphoreTable → ℕ → List ℕ → Exec Waiting
wait t thread name = find_sem t name max_semaphore 0 >>= wait_at t thread

-- With the thread that is made ready, if one was waiting.
abbrev pub signal_at : SemaphoreTable → Option (ℕ × Sem) → Exec (ℤ × (Option ℕ × SemaphoreTable))
signal_at t none = ok (minus_one, (none, t))
signal_at t (some (i, s)) =
    let (woken, q) = v s.sem in ok (pos 0, (woken, put_sem t i (record s { sem = q })))

unfoldable pub signal : SemaphoreTable → List ℕ → Exec (ℤ × (Option ℕ × SemaphoreTable))
signal t name = find_sem t name max_semaphore 0 >>= signal_at t
