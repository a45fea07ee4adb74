-- ===== src/ProcessTable.antt =====
-- threads/pcb.h, threads/pcb.cc, threads/ptable.h and threads/ptable.cc: the table of processes. A
-- thread is a number. An operation that waits for a semaphore is split there: it gives `asleep` where
-- the thread sleeps, and goes on in a function of its own. The program's name is copied whole. The
-- mutex of a PCB is not held across a wait, so that its `P` never sleeps.
pub mod Slots
pub mod Start
pub mod Wait
pub mod Exit
pub mod Join
pub mod Calls
pub mod Sample
mod Tests
use project.Prelude.{
  ℕ, zero, suc, ◌+◌, ◌-◌, Bool, true, false, not, ◌||◌, List, [], ◌∷◌, Option, none, some, Exec, ok,
  undefined, aborted, ◌>>=◌, ◌>>◌, defined, ltb, leb, ◌==◌, if◌then◌else◌, ℤ, pos, negsuc,
  minus_one, ◌==ℤ◌, ◌+ℤ◌, get_elem?, get_or, set, replicate,
}
use project.Bitmap
use project.Bitmap.{Bitmap, find_and_set}
use project.Semaphore.{Semaphore, new_semaphore, Test, takes, sleeps, p, v}
use project.CString.{str_same, strlen}

abbrev pub max_process : ℕ
max_process = 10

-- `class PCB`. `_file` may be NULL; `_thread` is the thread's number.
pub record Pcb : Type 0 where
  pub pid : ℤ
  pub parent_id : ℤ
  pub numwait : ℤ
  pub exitcode : ℤ
  pub file : Option (List ℕ)
  pub thread : Option ℕ
  pub joinsem : Semaphore
  pub exitsem : Semaphore
  pub mutex : Semaphore

-- `PCB(int id)`
abbrev pub new_pcb : ℤ → Pcb
new_pcb id = record {
  pid = id;
  parent_id = minus_one;
  numwait = pos 0;
  exitcode = pos 0;
  file = none;
  thread = none;
  joinsem = new_semaphore 0;
  exitsem = new_semaphore 0;
  mutex = new_semaphore 1;
}

-- `PCB(char *fileName, Thread *thread)`
abbrev pub main_pcb : List ℕ → ℕ → Pcb
main_pcb name thread = record (new_pcb (pos 0)) { file = some name; thread = some thread }

pub record ProcessTable : Type 0 where
  pub psize : ℤ
  pub bm : Bitmap
  pub pcb : List (Option Pcb)
  pub bmsem : Semaphore

-- The thread that calls: its number and its name.
pub record Caller : Type 0 where
  pub thread : ℕ
  pub name : List ℕ

-- The constructor.
unfoldable pub new_table : ℤ → Exec ProcessTable
new_table size = Bitmap.init size >>= λ bm.
    ok (record { psize = size; bm = bm; pcb = replicate max_process none; bmsem = new_semaphore 1 })

-- `pcb[id]`, and `pcb[id]` followed.
abbrev pub slot : ProcessTable → ℤ → Exec (Option Pcb)
slot t (negsuc n) = undefined
slot t (pos i) = defined (get_elem? t.pcb i)

abbrev pub process : ProcessTable → ℤ → Exec Pcb
process t id = slot t id >>= defined

abbrev pub put : ProcessTable → ℕ → Option Pcb → ProcessTable
put t i o = record t { pcb = set t.pcb i o }

abbrev pub put_process : ProcessTable → ℤ → Pcb → ProcessTable
put_process t (negsuc n) c = t
put_process t (pos i) c = put t i (some c)

unfoldable pub is_exist : ProcessTable → ℤ → Bool
is_exist t (negsuc n) = false
is_exist t (pos i) =
    if leb max_process i then false else elim (get_or t.pcb i none) [ none ↦ false | some c ↦ true ]

-- `delete pcb[pid]` runs `Thread::Finish` of the process's thread, which must be the thread that
-- calls, and does not return: `finished` is the table that this thread leaves behind.
pub data Removal : Type 0 where
  removed finished : ProcessTable → Removal

abbrev pub delete_process : ProcessTable → ℕ → ℕ → Option ℕ → Exec Removal
delete_process t thread i none =
    ok (removed (record t { pcb = set t.pcb i none; psize = t.psize +ℤ minus_one }))
delete_process t thread i (some n) = if n == thread then ok (finished t) else aborted

unfoldable pub remove : ProcessTable → ℕ → ℤ → Exec Removal
unfolding is_exist
remove t thread (negsuc n) = ok (removed t)
remove t thread (pos i) =
    if is_exist t (pos i)
    then (Bitmap.clear t.bm (pos i) >>= λ bm.
        process t (pos i) >>= λ c. delete_process (record t { bm = bm }) thread i c.thread)
    else ok (removed t)

abbrev pub main_name : List ℕ
main_name = b'm' ∷ b'a' ∷ b'i' ∷ b'n' ∷ 0 ∷ []

-- `strcmp` of the name of the process in a slot, where there is one.
abbrev pub is_named : Option Pcb → List ℕ → Exec Bool
is_named none name = ok false
is_named (some c) name = defined c.file >>= λ file. ok (str_same file name)

-- The loop from slot `i` on, with `left` slots to go.
unfoldable pub find_named : List (Option Pcb) → List ℕ → ℕ → ℕ → Exec ℤ
find_named pcb name zero i = ok minus_one
find_named pcb name (suc left) i =
    let rest = find_named pcb name left (i + 1) in
    defined (get_elem? pcb i) >>= λ o. is_named o name >>= λ b. if b then ok (pos i) else rest

unfoldable pub get_current_thread_id : ProcessTable → Caller → Exec ℤ
unfolding find_named
get_current_thread_id t caller =
    if str_same caller.name main_name then ok (pos 0) else find_named t.pcb caller.name 9 1

-- What an operation comes to: it returns, with the thread that it has woken if any, or sleeps.
pub data Outcome : Type 0 where
  returns : ℤ → Option ℕ → ProcessTable → Outcome
  asleep : ProcessTable → Outcome

-- `bmsem->V(); return result;`
abbrev pub leave : ℤ → ProcessTable → Exec Outcome
leave result t = let (woken, s) = v t.bmsem in ok (returns result woken (record t { bmsem = s }))

-- What is asked of `new`: the new thread, if it could be made, and how many bytes the block that it
-- gives for `new char[n]` has.
pub record Making : Type 0 where
  pub thread : Option ℕ
  pub block : ℕ → ℕ

-- `_file = new char[strlen(fileName)]; strcpy(_file, fileName);` writes one byte more than it asks for.
abbrev pub fits : (ℕ → ℕ) → List ℕ → Bool
fits block name = ltb (strlen name) (block (strlen name))

unfoldable pub load_main_thread : (ℕ → ℕ) → ProcessTable → List ℕ → ℕ → Exec ProcessTable
load_main_thread block t name thread =
    if fits block name
    then (Bitmap.mark t.bm (pos 0) >>= λ bm.
        ok (record t { pcb = set t.pcb 0 (some (main_pcb name thread)); psize = pos 1; bm = bm }))
    else undefined

abbrev pub forked : Option ℕ → Pcb → List ℕ → ℤ → ℤ × Pcb
forked none c name pid = (minus_one, record c { pid = pid; file = some name })
forked (some thread) c name pid =
    (pid, record c { pid = pid; file = some name; thread = some thread })

-- `PCB::Exec`: a new thread with the name of the file. The mutex of a new PCB is free, and it is free
-- again at the end.
unfoldable pub pcb_exec : Making → Pcb → List ℕ → ℤ → Exec (ℤ × Pcb)
pcb_exec made c name pid =
    if fits made.block name then ok (forked made.thread c name pid) else undefined

-- From the loading of the executable on.
abbrev pub started : ProcessTable → ℕ → ℤ × Pcb → Exec Outcome
started t free (result, c) =
    if result ==ℤ minus_one
    then leave minus_one (put t free none)
    else leave result (record (put t free (some c)) { psize = t.psize +ℤ pos 1 })

abbrev pub allocated : Making → List ℕ → ℤ → ProcessTable → ℤ × Bitmap → Exec Outcome
allocated made name current t (negsuc n, bm) = leave minus_one (record t { bm = bm })
allocated made name current t (pos free, bm) =
    let c = record (new_pcb (pos free)) { parent_id = current } in
    defined (get_elem? t.pcb free) >>= λ old.
    pcb_exec made c name (pos free) >>= started (record t { bm = bm }) free

-- With `bmsem` held: `opens` tells whether the file system opens the file.
unfoldable pub exec_locked :
    (List ℕ → Bool) → Making → ProcessTable → Caller → Option (List ℕ) → Exec Outcome
exec_locked opens made t caller none = leave minus_one t
exec_locked opens made t caller (some name) =
    if not (opens name)
    then leave minus_one t
    else (get_current_thread_id t caller >>= λ current. process t current >>= λ parent.
        defined parent.file >>= λ file.
        if str_same file name
        then leave minus_one t
        else (find_and_set t.bm >>= allocated made name current t))

unfoldable pub exec_update :
    (List ℕ → Bool) → Making → ProcessTable → Caller → Option (List ℕ) → Exec Outcome
exec_update opens made t caller name = elim (p t.bmsem caller.thread) [
  | sleeps s ↦ ok (asleep (record t { bmsem = s }))
  | takes s ↦ exec_locked opens made (record t { bmsem = s }) caller name
]
