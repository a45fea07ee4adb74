-- ===== src/Semaphore/Steps.antt =====
-- All the ways in which threads use one semaphore.
use project.Prelude.{
  ℕ, ◌+◌, ◌<◌, ◌≤◌, int_max, ◌≡◌, refl, ap, ◌∙◌, ◌⊎◌, inl, inr, arith, List, [], ◌∷◌, ◌++◌, Option,
  none, some, ◌==◌, Bool-cases, length, length-append,
}
use project.Semaphore.{Semaphore, new_semaphore, Test, takes, sleeps, p, v}

-- The semaphore, the threads that were woken and have not run since, and how many calls of `P` and
-- of `V` have been completed.
pub record System : Type 0 where
  pub sem : Semaphore
  pub woken : List ℕ
  pub taken : ℕ
  pub given : ℕ

abbrev pub tested : System → Test → System
tested c (takes s) = record c { sem = s; taken = c.taken + 1 }
tested c (sleeps s) = record c { sem = s }

abbrev pub wake : List ℕ → Option ℕ → List ℕ
wake woken none = woken
wake woken (some t) = woken ++ (t ∷ [])

-- A thread calls `P`, or calls `V` while the value is below the greatest `int`, or runs again after it
-- was woken, in any order.
pub data Step : System → System → Type 0 where
  call_p : (c : System) (t : ℕ) → Step c (tested c (p c.sem t))
  call_v :
      (c : System)
      → c.sem.value < int_max
      → Step c
          (record c { sem = (v c.sem).1; woken = wake c.woken (v c.sem).0; given = c.given + 1 })
  resume :
      (c : System) (before after : List ℕ) (t : ℕ)
      → c.woken ≡ before ++ (t ∷ after)
      → Step c (tested (record c { woken = before ++ after }) (p c.sem t))

pub data Reachable (n : ℕ) : System → Type 0 where
  start : Reachable n (record { sem = new_semaphore n; woken = []; taken = 0; given = 0 })
  next : (c d : System) → Reachable n c → Step c d → Reachable n d

-- Every unit is accounted for, and threads wait only if those already woken can take what is there.
pub record Balanced (n : ℕ) (c : System) : Type 0 where
  pub units : c.sem.value + c.taken ≡ n + c.given
  pub awake : (c.sem.queue ≡ []) ⊎ (c.sem.value ≤ length c.woken)

tested-Balanced :
    (n : ℕ) (c : System) (woken : List ℕ) (t : ℕ)
    → Balanced n c
    → length c.woken ≤ length woken + 1
    → ((c.sem.queue ≡ []) ⊎ (c.sem.value ≤ length woken + 1))
    → Balanced n (tested (record c { woken = woken }) (p c.sem t))
unfolding p
tested-Balanced n c woken t b le a = elim (Bool-cases (c.sem.value == 0)) [
  | inl e ↦ rw e (record { units = b.units; awake = inr (ground arith) })
  | inr e ↦ rw e (record {
    units = ground (arith, b.units);
    awake = elim a [ inl q ↦ inl q | inr m ↦ inr (omega arith) ];
  })
]

v_value_of :
    (value : ℕ) (queue : List ℕ) → (v (record { value = value; queue = queue })).1.value ≡ value + 1
unfolding v
v_value_of value [] = refl
v_value_of value (t ∷ rest) = refl

pub v_value : (s : Semaphore) → (v s).1.value ≡ s.value + 1
v_value s = v_value_of s.value s.queue

v-Balanced :
    (n value : ℕ) (queue woken : List ℕ) (taken given : ℕ)
    → let s : Semaphore = record { value = value; queue = queue } in
      Balanced n (record { sem = s; woken = woken; taken = taken; given = given })
      → Balanced n
          (record { sem = (v s).1; woken = wake woken (v s).0; taken = taken; given = given + 1 })
unfolding v
v-Balanced n value [] woken taken given b = record {
  units = omega (arith, b.units);
  awake = inl refl;
}
v-Balanced n value (t ∷ queue) woken taken given b = record {
  units = omega (arith, b.units);
  awake =
      inr (elim b.awake [
        | inl q ↦ absurd cc
        | inr m ↦ omega (arith, m, length-append woken (t ∷ []))
      ]);
}

Step-Balanced : (n : ℕ) (c d : System) → Balanced n c → Step c d → Balanced n d
Step-Balanced n c d b (call_p c' t) =
    tested-Balanced n c c.woken t b (omega arith)
      (elim b.awake [ inl q ↦ inl q | inr m ↦ inr (omega arith) ])
Step-Balanced n c d b (call_v c' fits) =
    v-Balanced n c.sem.value c.sem.queue c.woken c.taken c.given b
Step-Balanced n c d b (resume c' before after t h) =
    let size : length c.woken ≡ length (before ++ after) + 1 =
      ap length h ∙ length-append before (t ∷ after) ∙ omega (arith, length-append before after) in
    tested-Balanced n c (before ++ after) t b (omega (arith, size))
      (elim b.awake [ inl q ↦ inl q | inr m ↦ inr (omega (arith, size)) ])

Reachable-keeps : (n : ℕ) (c : System) → Reachable n c → Balanced n c
Reachable-keeps n c start = record { units = omega arith; awake = inl refl }
Reachable-keeps n d (next c d' r s) = Step-Balanced n c d (Reachable-keeps n c r) s

tested-value : (c : System) (t : ℕ) → (tested c (p c.sem t)).sem.value ≤ c.sem.value
unfolding p
tested-value c t = elim (Bool-cases (c.sem.value == 0)) [
  | inl e ↦ rw e (omega arith)
  | inr e ↦ rw e (omega arith)
]

Step-fits : (c d : System) → Step c d → c.sem.value ≤ int_max → d.sem.value ≤ int_max
Step-fits c d (call_p c' t) h = omega (arith, h, tested-value c t)
Step-fits c d (call_v c' below) h = omega (arith, below, v_value c.sem)
Step-fits c d (resume c' before after t e) h =
    omega (arith, h, tested-value (record c { woken = before ++ after }) t)

Reachable-fits : (n : ℕ) (c : System) → n ≤ int_max → Reachable n c → c.sem.value ≤ int_max
Reachable-fits n c h start = h
Reachable-fits n d h (next c d' r s) = Step-fits c d s (Reachable-fits n c h r)

-- However threads call `P` and `V` on a semaphore made with an `n` that is an `int`, where no `V` is
-- called while the value is the greatest `int`: the value is an `int`, and is `n` plus the calls of `V`
-- less the completed calls of `P`; and while threads wait in the queue, at least as many woken threads
-- as the value are ready to take it, so no wake-up is lost.
pub Reachable-Balanced :
    (n : ℕ) (c : System) → n ≤ int_max → Reachable n c → Balanced n c × (c.sem.value ≤ int_max)
Reachable-Balanced n c h r = (Reachable-keeps n c r, Reachable-fits n c h r)
