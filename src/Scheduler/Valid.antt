-- ===== src/Scheduler/Valid.antt =====
-- When the ready list and the threads agree.
use project.Prelude.{ℕ, ◌≡◌, refl, Bool, true, false, not, ◌&&◌, Option, none, some, arith, ◌==◌}
use project.LinkedList.{LinkedList, is_in}
use project.LinkedList.Queue
use project.LinkedList.Queue.{IsEquality}
use project.Scheduler.{
  just_created, running, ready, blocked, Thread, Scheduler, thread_items, with_thread,
  stack_fencepost,
}

abbrev pub is_ready : Option Thread → Bool
is_ready none = false
is_ready (some t) = elim t.status [
  | just_created ↦ false
  | running ↦ false
  | ready ↦ true
  | blocked ↦ false
]

abbrev pub is_running : Option Thread → Bool
is_running none = false
is_running (some t) = elim t.status [
  | just_created ↦ false
  | running ↦ true
  | ready ↦ false
  | blocked ↦ false
]

-- The end of the stack is as `StackAllocate` left it.
abbrev pub Intact : Option Thread → Type 0
Intact none = Unit {0}
Intact (some t) = (w : ℕ) → t.stack ≡ some w → w ≡ stack_fencepost

abbrev pub picks : Option ℕ → ℕ → Bool
picks none m = false
picks (some x) m = m == x

-- The ready list holds the threads that are ready, each once, but for one that was picked to run.
pub record Sound (picked : Option ℕ) (threads : ℕ → Option Thread) (ready_list : LinkedList ℕ)
    : Type 0 where
  pub list : Queue.IsValid thread_items ready_list
  pub listed :
      (m : ℕ)
      → is_in thread_items m ready_list.items ≡ (is_ready (threads m) && not (picks picked m))
  pub intact : (m : ℕ) → Intact (threads m)

pub thread_items-IsEquality : IsEquality thread_items
thread_items-IsEquality = record {
  same_refl = λ x. ground arith;
  equal_of_same = λ x y h. ground arith;
}

-- The threads after one of them has changed.
pub with_self : (s : Scheduler) (n : ℕ) (t : Option Thread) → (with_thread s n t).threads n ≡ t
with_self s n t = let same : (n == n) ≡ true = ground arith in rw same refl

pub with_other :
    (s : Scheduler) (n m : ℕ) (t : Option Thread)
    → (m == n) ≡ false
    → (with_thread s n t).threads m ≡ s.threads m
with_other s n m t e = rw e refl
