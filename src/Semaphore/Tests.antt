-- ===== src/Semaphore/Tests.antt =====
-- The theorem about semaphores after two calls of `P`, of which the second sleeps, and one of `V`.
use project.Prelude.{[], ◌∷◌, ◌≤◌, int_max, arith}
use project.Semaphore.{new_semaphore, p, v}
use project.Semaphore.Steps.{
  System, call_p, call_v, Reachable, start, next, Balanced, Reachable-Balanced,
}

abbrev initial : System
initial = record { sem = new_semaphore 1; woken = []; taken = 0; given = 0 }

abbrev woken_once : System
woken_once = record { sem = record { value = 1; queue = [] }; woken = 7 ∷ []; taken = 1; given = 1 }

reached : Reachable 1 woken_once
unfolding p v
reached =
    next _ _ (next _ _ (next initial _ start (call_p initial 4)) (call_p _ 7))
      (call_v _ (omega arith))

Reachable-Balanced_example : Balanced 1 woken_once × (woken_once.sem.value ≤ int_max)
Reachable-Balanced_example = Reachable-Balanced 1 woken_once (omega arith) reached
