-- ===== src/Condition/Broadcast.antt =====
-- `Condition::Broadcast`: the fuel is enough, and every waiter is signalled.
use project.Prelude.{
  ℕ, zero, suc, ◌+◌, ◌<◌, ◌≡◌, ◌≢◌, refl, sym, ap, ◌∙◌, subst, true, false, List, [], ◌∷◌, Option,
  none, some, ok, ◌>>=◌, Returns, arith, get_elem?-eq-get_or, get_or, get_or-set_self,
  get_or-set_ne, set, drop, length, length-set, ◌==◌, if◌then◌else◌, inl, inr, Bool-cases,
}
use project.Semaphore.{Semaphore, new_semaphore, v}
use project.Lock.{is_held_by}
use project.Semaphore.Steps.{v_value}
use project.Condition.{Monitor, signal, raised, with_woken, broadcast_loop, broadcast}
use project.Condition.Signal.{signal_lem}

abbrev pub occurrences : ℕ → List ℕ → ℕ
occurrences i [] = 0
occurrences i (j ∷ queue) = let rest = occurrences i queue in if j == i then suc rest else rest

abbrev pub Below : List ℕ → ℕ → Type 0
Below [] n = Unit {0}
Below (i ∷ queue) n = (i < n) × Below queue n

abbrev pub waiter : Monitor → ℕ → Semaphore
waiter m i = get_or m.waiters i (new_semaphore 0)

-- Every semaphore has gone up by one for each time it was in the queue, and as many threads have left
-- its own queue, from the front, if there were any.
pub record Signals (m after : Monitor) : Type 0 where
  pub lock : after.lock ≡ m.lock
  pub empty : after.wait_queue ≡ []
  pub size : length after.waiters ≡ length m.waiters
  pub values : (i : ℕ) → (waiter after i).value ≡ (waiter m i).value + occurrences i m.wait_queue
  pub sleepers :
      (i : ℕ) → (waiter after i).queue ≡ drop (occurrences i m.wait_queue) (waiter m i).queue

v_queue_of :
    (value : ℕ) (queue : List ℕ)
    → (v (record { value = value; queue = queue })).1.queue ≡ drop 1 queue
unfolding v
v_queue_of value [] = refl
v_queue_of value (t ∷ rest) = refl

drop-drop_one : (n : ℕ) (xs : List ℕ) → drop n (drop 1 xs) ≡ drop (suc n) xs
drop-drop_one zero xs = refl
drop-drop_one (suc n) [] = refl
drop-drop_one (suc n) (x ∷ xs) = refl

with_woken_lem : (w : Option ℕ) (r : List ℕ × Monitor) → (with_woken w r).1 ≡ r.1
with_woken_lem none r = refl
with_woken_lem (some thread) r = refl

module _ (ws : List Semaphore) (i x n : ℕ) (h : i < length ws) where
  abbrev old : Semaphore
  old = get_or ws x (new_semaphore 0)

  abbrev raised_one : Semaphore
  raised_one = get_or (set ws i (v (get_or ws i (new_semaphore 0))).1) x (new_semaphore 0)

  raised_self : (i == x) ≡ true → raised_one ≡ (v old).1
  raised_self e =
      let same : i ≡ x = ground arith in
      subst
        (λ y.
          get_or (set ws i (v (get_or ws i (new_semaphore 0))).1) y (new_semaphore 0)
          ≡ (v (get_or ws y (new_semaphore 0))).1)
        same (get_or-set_self ws i (v (get_or ws i (new_semaphore 0))).1 (new_semaphore 0) h)

  raised_other : (i == x) ≡ false → raised_one ≡ old
  raised_other e =
      let other : i ≢ x = ground arith in
      get_or-set_ne ws i x (v (get_or ws i (new_semaphore 0))).1 (new_semaphore 0) other

  raised_value : raised_one.value + n ≡ old.value + (if i == x then suc n else n)
  raised_value = elim (Bool-cases (i == x)) [
    | inl e ↦ rw e (omega (arith, ap (λ (s : Semaphore). s.value) (raised_self e), v_value old))
    | inr e ↦ rw e (ap (λ (s : Semaphore). s.value + n) (raised_other e))
  ]

  raised_queue : drop n raised_one.queue ≡ drop (if i == x then suc n else n) old.queue
  raised_queue = elim (Bool-cases (i == x)) [
    | inl e ↦ rw e (
        ap (λ (s : Semaphore). drop n s.queue) (raised_self e)
        ∙ ap (drop n) (v_queue_of old.value old.queue)
        ∙ drop-drop_one n old.queue)
    | inr e ↦ rw e (ap (λ (s : Semaphore). drop n s.queue) (raised_other e))
  ]

first_signal :
    (m after : Monitor) (i : ℕ) (rest : List ℕ)
    → i < length m.waiters
    → Signals (raised m i rest (v (waiter m i))).1 after
    → Signals (record m { wait_queue = i ∷ rest }) after
first_signal m after i rest h c = record {
  lock = c.lock;
  empty = c.empty;
  size = c.size ∙ length-set m.waiters i (v (waiter m i)).1;
  values = λ x. c.values x ∙ raised_value m.waiters i x (occurrences x rest) h;
  sleepers = λ x. c.sleepers x ∙ raised_queue m.waiters i x (occurrences x rest) h;
}

round :
    (n : ℕ) (m : Monitor) (i thread : ℕ) (queue : List ℕ) (r : Option ℕ × Monitor)
    → signal m thread ≡ ok r
    → broadcast_loop (suc n) m (i ∷ queue) thread
      ≡ (broadcast_loop n r.1 r.1.wait_queue thread >>= λ b. ok (with_woken r.0 b))
unfolding broadcast_loop
round n m i thread queue r e = rw e refl

loop_lem :
    (queue : List ℕ) (m : Monitor) (thread : ℕ)
    → is_held_by m.lock thread ≡ true
    → m.wait_queue ≡ queue
    → Below queue (length m.waiters)
    → Returns
        (λ (r : List ℕ × Monitor). Signals (record m { wait_queue = queue }) r.1)
        (broadcast_loop (length queue) m queue thread)
unfolding broadcast_loop
loop_lem [] m thread held q b = record {
  out = ([], m);
  is_out = refl;
  holds = record {
    lock = refl;
    empty = q;
    size = refl;
    values = λ i. omega arith;
    sleepers = λ i. refl;
  };
}
loop_lem (i ∷ queue) m thread held q b =
    let s = waiter m i in
    let r = raised m i queue (v s) in
    let found = get_elem?-eq-get_or m.waiters i (new_semaphore 0) b.0 in
    let same = length-set m.waiters i (v s).1 in
    let rest = loop_lem queue r.1 thread held refl (subst (Below queue) (sym same) b.1) in
    let first =
      round (length queue) m i thread queue r (signal_lem m thread i queue s held q found) in
    record {
      out = with_woken r.0 rest.out;
      is_out = first ∙ rw rest.is_out refl;
      holds = rw (with_woken_lem r.0 rest.out) (first_signal m rest.out.1 i queue b.0 rest.holds);
    }

-- The holder of the lock broadcasts, where every semaphore of the queue has been allocated: the call
-- returns, the lock is as before and the queue empty, and every semaphore has gone up by one for each
-- time it was in the queue, with as many threads off the front of its own queue, if there were any.
pub broadcast-Signals :
    (m : Monitor) (thread : ℕ)
    → is_held_by m.lock thread ≡ true
    → Below m.wait_queue (length m.waiters)
    → Returns (λ (r : List ℕ × Monitor). Signals m r.1) (broadcast m thread)
unfolding broadcast
broadcast-Signals m thread held b = loop_lem m.wait_queue m thread held refl b
