-- ===== src/Scheduler/Actions.antt =====
-- `Thread::Fork`, `Yield` and `Sleep`, and what the threads of a kernel do one after the other.
use project.Prelude.{ℕ, Bool, true, false, List, Option, none, some, Exec, ok, ◌>>=◌, ◌>>◌, assert}
use project.Interrupt.{is_off, IntStatus, int_off}
use project.Scheduler.{
  Scheduler, new_thread, with_thread, thread_at, at_level, set_status, blocked, stack_fencepost,
  ready_to_run, find_next_to_run, run, switched_in,
}

-- `StackAllocate`, as far as the end of the stack goes.
abbrev pub stack_allocate : Scheduler → ℕ → Exec Scheduler
stack_allocate s n =
    thread_at s n >>= λ t. ok (with_thread s n (some (record t { stack = some stack_fencepost })))

-- `ReadyToRun` with interrupts off, as `Fork` and `Semaphore::V` call it.
abbrev pub made_ready : Scheduler → ℕ → Exec Scheduler
made_ready s n = ready_to_run (at_level int_off s) n >>= λ s'. ok (at_level s.level s')

abbrev pub fork : Scheduler → ℕ → Exec Scheduler
fork s n = stack_allocate s n >>= λ s'. made_ready s' n

abbrev pub switch_to : Bool → Scheduler → ℕ → Exec Scheduler
switch_to finishing s next = run s next finishing >>= switched_in

-- `Yield`, where `old_level` was the level before.
abbrev pub yield_to : IntStatus → Option ℕ × Scheduler → Exec Scheduler
yield_to old_level (none, s) = ok (at_level old_level s)
yield_to old_level (some next, s) = ready_to_run s s.current >>= λ s'. switch_to false s' next

abbrev pub yield : Scheduler → Exec Scheduler
yield s = find_next_to_run (at_level int_off s) >>= yield_to s.level

-- `Sleep` up to its loop, and one round of the loop: `Idle` where no thread is ready.
abbrev pub sleep : Scheduler → Exec Scheduler
sleep s = assert (is_off s.level) >> set_status s s.current blocked

-- The scheduler, and, while the current thread is in the loop of `Sleep`, whether it is finishing.
pub record System : Type 0 where
  pub scheduler : Scheduler
  pub sleeping : Option Bool

abbrev pub awake : Scheduler → System
awake s = record { scheduler = s; sleeping = none }

abbrev pub sleep_round : Bool → Option ℕ × Scheduler → Exec System
sleep_round finishing (none, s) = ok (record { scheduler = s; sleeping = some finishing })
sleep_round finishing (some next, s) = switch_to finishing s next >>= λ s'. ok (awake s')

-- A thread is made, forked, woken by `V`, or the current thread yields, calls `Sleep` with interrupts
-- off, goes round in the loop of `Sleep`, gets an address space, or runs its user program.
pub data Action : Type 0 where
  creates : ℕ → List ℕ → Action
  forks : ℕ → Action
  wakes : ℕ → Action
  yields : Action
  sleeps : Bool → Action
  rounds : Action
  loads : Action
  computes : List ℕ → Action

abbrev pub round : System → Option Bool → Exec System
round c none = ok c
round c (some finishing) = find_next_to_run c.scheduler >>= sleep_round finishing

abbrev pub load : Scheduler → Exec Scheduler
load s =
    thread_at s s.current >>= λ t. ok (with_thread s s.current (some (record t { is_user = true })))

abbrev pub perform : System → Action → Exec System
perform c (creates n memory) =
    ok (record c { scheduler = with_thread c.scheduler n (some (new_thread memory)) })
perform c (forks n) = fork c.scheduler n >>= λ s. ok (record c { scheduler = s })
perform c (wakes n) = made_ready c.scheduler n >>= λ s. ok (record c { scheduler = s })
perform c yields = yield c.scheduler >>= λ s. ok (awake s)
perform c (sleeps finishing) = sleep (at_level int_off c.scheduler) >>= λ s.
    ok (record { scheduler = s; sleeping = some finishing })
perform c rounds = round c c.sleeping
perform c loads = load c.scheduler >>= λ s. ok (record c { scheduler = s })
perform c (computes registers) =
    ok (record c { scheduler = record c.scheduler { registers = registers } })
