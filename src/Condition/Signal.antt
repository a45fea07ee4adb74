-- ===== src/Condition/Signal.antt =====
-- A signal and the thread that waits, in either order.
use project.Prelude.{
  ℕ, ◌<◌, ◌≡◌, refl, Bool, true, false, List, [], ◌∷◌, ◌++◌, Option, none, some, ok, Returns, arith,
  get_elem?, get_elem?-set_self, set, length, length-append, length-set,
}
use project.Semaphore.{Semaphore, new_semaphore, p, v}
use project.Lock.{Lock, is_held_by, release}
use project.Condition.{Monitor, wait_start, waits, signal, tested, raised}

get_elem?-append_last :
    (xs : List Semaphore) (s : Semaphore) → get_elem? (xs ++ (s ∷ [])) (length xs) ≡ some s
get_elem?-append_last [] s = refl
get_elem?-append_last (x ∷ xs) s = get_elem?-append_last xs s

pub waits_lem :
    (m : Monitor) (i thread : ℕ) (s : Semaphore)
    → get_elem? m.waiters i ≡ some s
    → waits m i thread ≡ ok (tested m i (p s thread))
unfolding waits
waits_lem m i thread s e = rw e refl

pub signal_lem :
    (m : Monitor) (thread i : ℕ) (rest : List ℕ) (s : Semaphore)
    → is_held_by m.lock thread ≡ true
    → m.wait_queue ≡ i ∷ rest
    → get_elem? m.waiters i ≡ some s
    → signal m thread ≡ ok (raised m i rest (v s))
unfolding signal
signal_lem m thread i rest s h q e = rw (h, q, e) refl

-- The waiting thread passes at its next test.
abbrev pub Passes : Monitor → ℕ → ℕ → Type 0
Passes m i thread = Returns (λ (r : Bool × Monitor). r.0 ≡ true) (waits m i thread)

-- A thread waits while nobody else does, and another thread, which then holds the lock, signals.
pub record NotMissed (m : Monitor) (thread other : ℕ) (l : Lock) : Type 0 where
  pub waiter : ℕ
  pub woken : Option ℕ
  pub after : Monitor
  pub starts : wait_start m thread ≡ ok (waiter, (woken, after))
  pub signalled_first :
      Returns
        (λ (r : Option ℕ × Monitor). (r.0 ≡ none) × Passes r.1 waiter thread)
        (signal (record after { lock = l }) other)
  pub asleep_first :
      Returns
        (λ (r : Bool × Monitor).
          (r.0 ≡ false)
          × Returns
              (λ (q : Option ℕ × Monitor). (q.0 ≡ some thread) × Passes q.1 waiter thread)
              (signal (record r.1 { lock = l }) other))
        (waits after waiter thread)

-- The waiter's semaphore after the signal.
passes :
    (m : Monitor) (i thread : ℕ) (queue : List ℕ)
    → get_elem? m.waiters i ≡ some (record { value = 1; queue = queue })
    → Passes m i thread
unfolding p
passes m i thread queue e = record {
  out = (true, record m { waiters = set m.waiters i (record { value = 0; queue = queue }) });
  is_out = waits_lem m i thread (record { value = 1; queue = queue }) e;
  holds = refl;
}

module _ (m : Monitor) (i thread other : ℕ) (held : is_held_by m.lock other ≡ true)
    (q : m.wait_queue ≡ i ∷ []) (h : i < length m.waiters) where
  signal_before :
      get_elem? m.waiters i ≡ some (new_semaphore 0)
      → Returns (λ (r : Option ℕ × Monitor). (r.0 ≡ none) × Passes r.1 i thread) (signal m other)
  unfolding v
  signal_before e =
      let m' = (raised m i [] (v (new_semaphore 0))).1 in
      record {
        out = (none, m');
        is_out = signal_lem m other i [] (new_semaphore 0) held q e;
        holds = (
          refl,
          passes m' i thread []
              (get_elem?-set_self m.waiters i (record { value = 1; queue = [] }) h),
        );
      }

  signal_asleep :
      get_elem? m.waiters i ≡ some (record { value = 0; queue = thread ∷ [] })
      → Returns
          (λ (r : Option ℕ × Monitor). (r.0 ≡ some thread) × Passes r.1 i thread)
          (signal m other)
  unfolding v
  signal_asleep e =
      let s : Semaphore = record { value = 0; queue = thread ∷ [] } in
      let m' = (raised m i [] (v s)).1 in
      record {
        out = (some thread, m');
        is_out = signal_lem m other i [] s held q e;
        holds = (
          refl,
          passes m' i thread []
              (get_elem?-set_self m.waiters i (record { value = 1; queue = [] }) h),
        );
      }

-- A thread that holds the lock waits on a condition with an empty queue, and then another thread holds
-- the lock and signals. The signal is not missed: if it comes before the first test of the waiter's
-- semaphore, it wakes nobody and the waiter passes at that test; if the waiter has fallen asleep, the
-- signal wakes it and it passes at its next test.
pub wait-NotMissed :
    (m : Monitor) (thread other : ℕ) (l : Lock)
    → is_held_by m.lock thread ≡ true
    → m.wait_queue ≡ []
    → is_held_by l other ≡ true
    → NotMissed m thread other l
unfolding wait_start release p
wait-NotMissed m thread other l h q held =
    let i = length m.waiters in
    let (woken, freed) = v m.lock.semaphore in
    let ws = m.waiters ++ (new_semaphore 0 ∷ []) in
    let asleep : Semaphore = record { value = 0; queue = thread ∷ [] } in
    let below : i < length ws = omega (arith, length-append m.waiters (new_semaphore 0 ∷ [])) in
    let after : Monitor = record {
      lock = record { semaphore = freed; holder = none };
      waiters = ws;
      wait_queue = i ∷ [];
    } in
    record {
      waiter = i;
      woken = woken;
      after = after;
      starts = rw (h, q) refl;
      signalled_first =
          signal_before (record after { lock = l }) i thread other held refl below
            (get_elem?-append_last m.waiters (new_semaphore 0));
      asleep_first = record {
        out = (false, record after { waiters = set ws i asleep });
        is_out =
            waits_lem after i thread (new_semaphore 0)
              (get_elem?-append_last m.waiters (new_semaphore 0));
        holds = (
          refl,
          signal_asleep (record after { lock = l; waiters = set ws i asleep }) i thread other held
              refl (omega (arith, below, length-set ws i asleep))
              (get_elem?-set_self ws i asleep below),
        );
      };
    }
