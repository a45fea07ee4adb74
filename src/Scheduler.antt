-- ===== src/Scheduler.antt =====
-- threads/thread.h, threads/thread.cc, threads/scheduler.h and threads/scheduler.cc: threads, the ready
-- list, and who runs next. A thread is a number, under which `threads` has its object while it exists.
-- `SWITCH` is where `run` ends and `switched_in` of the next thread goes on.
pub mod Actions
pub mod Valid
pub mod Ready
pub mod Switch
pub mod Resume
pub mod Safe
pub mod Wake
pub mod Yield
pub mod Perform
pub mod Reach
mod Tests
use project.Prelude.{
  ℕ, Bool, true, false, not, List, Option, none, some, Exec, ok, ◌>>=◌, ◌>>◌, assert, defined, ◌==◌,
  if◌then◌else◌, pos,
}
use project.LinkedList.{LinkedList, Items, append, remove_front, is_empty}
use project.Interrupt.{IntStatus, int_on, is_off}

pub data ThreadStatus : Type 0 where
  just_created running ready blocked : ThreadStatus

-- `STACK_FENCEPOST`
abbrev pub stack_fencepost : ℕ
stack_fencepost = 233684719

-- `stack` is the word at the end of the stack, if one was allocated; `is_user` tells whether `space`
-- is not NULL; `begun` tells whether the thread has run, so that it goes on behind `SWITCH`.
pub record Thread : Type 0 where
  pub status : ThreadStatus
  pub stack : Option ℕ
  pub is_user : Bool
  pub user_registers : List ℕ
  pub begun : Bool

-- The constructor; the saved registers are not initialized.
abbrev pub new_thread : List ℕ → Thread
new_thread memory = record {
  status = just_created;
  stack = none;
  is_user = false;
  user_registers = memory;
  begun = false;
}

pub record Scheduler : Type 0 where
  pub threads : ℕ → Option Thread
  pub ready_list : LinkedList ℕ
  pub to_be_destroyed : Option ℕ
  pub current : ℕ
  pub level : IntStatus
  pub registers : List ℕ

-- Threads are compared as pointers.
abbrev pub thread_items : Items ℕ
thread_items = record { same = λ a b. a == b; compare = λ a b. pos 0 }

abbrev pub with_thread : Scheduler → ℕ → Option Thread → Scheduler
with_thread s n t = record s { threads = λ m. if m == n then t else s.threads m }

abbrev pub at_level : IntStatus → Scheduler → Scheduler
at_level l s = record s { level = l }

abbrev pub thread_at : Scheduler → ℕ → Exec Thread
thread_at s n = defined (s.threads n)

-- `setStatus`
abbrev pub set_status : Scheduler → ℕ → ThreadStatus → Exec Scheduler
set_status s n status =
    thread_at s n >>= λ t. ok (with_thread s n (some (record t { status = status })))

unfoldable pub ready_to_run : Scheduler → ℕ → Exec Scheduler
ready_to_run s n =
    assert (is_off s.level)
    >> (set_status s n ready >>= λ s'.
        append thread_items s'.ready_list n >>= λ l. ok (record s' { ready_list = l }))

unfoldable pub find_next_to_run : Scheduler → Exec (Option ℕ × Scheduler)
find_next_to_run s =
    assert (is_off s.level)
    >> (if is_empty s.ready_list
        then ok (none, s)
        else (remove_front s.ready_list >>= λ r. ok (some r.0, record s { ready_list = r.1 })))

-- `CheckOverflow`
abbrev pub check_overflow : Thread → Exec (Unit {0})
check_overflow t = elim t.stack [ none ↦ ok tt | some word ↦ assert (word == stack_fencepost) ]

abbrev pub is_none : Option ℕ → Bool
is_none none = true
is_none (some n) = false

abbrev pub mark_finished : Scheduler → Bool → Exec Scheduler
mark_finished s false = ok s
mark_finished s true =
    assert (is_none s.to_be_destroyed) >> ok (record s { to_be_destroyed = some s.current })

-- `SaveUserState`
abbrev pub save_user_state : Scheduler → Thread → Thread
save_user_state s t = if t.is_user then record t { user_registers = s.registers } else t

-- `Run` up to `SWITCH`.
unfoldable pub run : Scheduler → ℕ → Bool → Exec Scheduler
run s next finishing =
    assert (is_off s.level)
    >> (mark_finished s finishing >>= λ s1. thread_at s1 s1.current >>= λ old.
        check_overflow old
        >> set_status
            (record (with_thread s1 s1.current (some (save_user_state s1 old))) { current = next })
            next running)

-- `CheckToBeDestroyed`, with the destructor's ASSERT.
unfoldable pub check_to_be_destroyed : Scheduler → Exec Scheduler
check_to_be_destroyed s = elim s.to_be_destroyed [
  | none ↦ ok s
  | some n ↦
      assert (not (n == s.current)) >> ok (record (with_thread s n none) { to_be_destroyed = none })
]

-- `RestoreUserState`
abbrev pub restore_user_state : Thread → Scheduler → Scheduler
restore_user_state t s = if t.is_user then record s { registers = t.user_registers } else s

-- The thread that `SWITCH` has gone to: the rest of `Run`, or `Begin` where it runs for the first time.
abbrev pub goes_on_in : Thread → Scheduler → Exec Scheduler
goes_on_in t s =
    if t.begun
    then (assert (is_off s.level)
        >> (check_to_be_destroyed s >>= λ s'. ok (restore_user_state t s')))
    else (check_to_be_destroyed s >>= λ s'.
        ok (at_level int_on (with_thread s' s'.current (some (record t { begun = true })))))

unfoldable pub switched_in : Scheduler → Exec Scheduler
switched_in s = thread_at s s.current >>= λ t. goes_on_in t s
