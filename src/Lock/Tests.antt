-- ===== src/Lock/Tests.antt =====
-- The theorem about locks after one thread has acquired the lock and another one sleeps.
use project.Prelude.{◌+◌, ◌≤◌, ◌≡◌, refl, [], ◌∷◌, some, length}
use project.Semaphore.{p}
use project.Lock.{new_lock}
use project.Lock.Exclusion.{
  System, tries, goes_on, Reachable, start, next, holding, mutual_exclusion,
}

abbrev initial : System
initial = record { lock = new_lock; granted = []; critical = [] }

abbrev contended : System
contended = record {
  lock = record { semaphore = record { value = 0; queue = 7 ∷ [] }; holder = some 4 };
  granted = [];
  critical = 4 ∷ [];
}

reached : Reachable contended
unfolding p
reached =
    next _ _ (next _ _ (next initial _ start (tries initial 4)) (goes_on _ [] [] 4 refl))
      (tries _ 7)

mutual_exclusion_example :
    (length contended.granted + length contended.critical ≤ 1)
    × (contended.critical ≡ holding contended.lock.holder)
mutual_exclusion_example = mutual_exclusion contended reached
