-- ===== src/Lock/Exclusion.antt =====
-- All the ways in which threads use one lock.
use project.Prelude.{
  ℕ, ◌+◌, ◌≤◌, ◌≡◌, refl, sym, ap, ◌∙◌, true, inl, inr, arith, List, [], ◌∷◌, ◌++◌, Option, none,
  some, ok, ◌==◌, Bool-cases, length, length-append,
}
use project.Semaphore.{Test, takes, sleeps, p, v}
use project.Semaphore.Steps.{v_value}
use project.Lock.{Lock, new_lock, hold, is_held_by, release}

-- The lock, the threads that have passed `P` of `Acquire` and not gone on since, and those that have
-- acquired the lock and not released it.
pub record System : Type 0 where
  pub lock : Lock
  pub granted : List ℕ
  pub critical : List ℕ

abbrev pub tried : System → ℕ → Test → System
tried c t (takes s) = record c {
  lock = record c.lock { semaphore = s };
  granted = c.granted ++ (t ∷ []);
}
tried c t (sleeps s) = record c { lock = record c.lock { semaphore = s } }

-- A thread tests the semaphore in `Acquire`, for the first time or again, a thread that has passed
-- goes on, or one that has acquired the lock calls `Release`, in any order.
pub data Step : System → System → Type 0 where
  tries : (c : System) (t : ℕ) → Step c (tried c t (p c.lock.semaphore t))
  goes_on :
      (c : System) (before after : List ℕ) (t : ℕ)
      → c.granted ≡ before ++ (t ∷ after)
      → Step c
          (record c { lock = hold c.lock t; granted = before ++ after; critical = t ∷ c.critical })
  releases :
      (c : System) (before after : List ℕ) (t : ℕ) (woken : Option ℕ) (l : Lock)
      → c.critical ≡ before ++ (t ∷ after)
      → release c.lock t ≡ ok (woken, l)
      → Step c (record c { lock = l; critical = before ++ after })

pub data Reachable : System → Type 0 where
  start : Reachable (record { lock = new_lock; granted = []; critical = [] })
  next : (c d : System) → Reachable c → Step c d → Reachable d

abbrev pub holding : Option ℕ → List ℕ
holding none = []
holding (some t) = t ∷ []

pub record Exclusive (c : System) : Type 0 where
  pub units : c.lock.semaphore.value + length c.granted + length c.critical ≡ 1
  pub holder : c.critical ≡ holding c.lock.holder

tried-Exclusive : (c : System) (t : ℕ) → Exclusive c → Exclusive (tried c t (p c.lock.semaphore t))
unfolding p
tried-Exclusive c t x = elim (Bool-cases (c.lock.semaphore.value == 0)) [
  | inl e ↦ rw e (record { units = x.units; holder = x.holder })
  | inr e ↦ rw e (record {
    units = ground (arith, x.units, length-append c.granted (t ∷ []));
    holder = x.holder;
  })
]

-- One element goes out of a list.
length_without :
    (xs before after : List ℕ) (t : ℕ)
    → xs ≡ before ++ (t ∷ after)
    → length xs ≡ length (before ++ after) + 1
length_without xs before after t h =
    ap length h ∙ length-append before (t ∷ after) ∙ omega (arith, length-append before after)

empty : (xs : List ℕ) → length xs ≡ 0 → xs ≡ []
empty [] h = refl
empty (x ∷ xs) h = absurd (omega arith)

release_lem :
    (l : Lock) (t : ℕ) (woken : Option ℕ) (l' : Lock)
    → release l t ≡ ok (woken, l')
    → (l'.holder ≡ none) × (l'.semaphore.value ≡ l.semaphore.value + 1)
unfolding release
release_lem l t woken l' h = elim (Bool-cases (is_held_by l t)) [
  | inl e ↦
      let r = rw e at h in
      let same : record { semaphore = (v l.semaphore).1; holder = none } ≡ l' = cc in
      (
        ap (λ (m : Lock). m.holder) (sym same),
        ap (λ (m : Lock). m.semaphore.value) (sym same) ∙ v_value l.semaphore,
      )
  | inr e ↦ absurd (let r = rw e at h in cc)
]

one_holder : (o : Option ℕ) → length (holding o) ≤ 1
one_holder none = omega arith
one_holder (some t) = omega arith

Step-Exclusive : (c d : System) → Exclusive c → Step c d → Exclusive d
Step-Exclusive c d x (tries c' t) = tried-Exclusive c t x
Step-Exclusive c d x (goes_on c' before after t h) =
    let size = length_without c.granted before after t h in
    record {
      units = omega (arith, x.units, size);
      holder = ap (λ (xs : List ℕ). t ∷ xs) (empty c.critical (omega (arith, x.units, size)));
    }
Step-Exclusive c d x (releases c' before after t woken l h r) =
    let size = length_without c.critical before after t h in
    let e = release_lem c.lock t woken l r in
    let one = one_holder c.lock.holder in
    let few : length c.critical ≤ 1 = rw x.holder one in
    record {
      units = omega (arith, x.units, size, e.1);
      holder = empty (before ++ after) (omega (arith, size, few)) ∙ ap holding (sym e.0);
    }

Reachable-Exclusive : (c : System) → Reachable c → Exclusive c
Reachable-Exclusive c start = record { units = refl; holder = refl }
Reachable-Exclusive d (next c d' r s) = Step-Exclusive c d (Reachable-Exclusive c r) s

member_holds :
    (o : Option ℕ) (before after : List ℕ) (t : ℕ) → before ++ (t ∷ after) ≡ holding o → o ≡ some t
member_holds none before after t h =
    absurd (omega (arith, length_without [] before after t (sym h)))
member_holds (some u) [] after t h = let e : t ≡ u = cc in ap some (sym e)
member_holds (some u) (b ∷ before) after t h = absurd (
    omega (
      arith,
      length_without (u ∷ []) (b ∷ before) after t (sym h),
      length-append (b ∷ before) after,
    ))

release_held :
    (l : Lock) (t : ℕ)
    → l.holder ≡ some t
    → release l t ≡ ok ((v l.semaphore).0, record { semaphore = (v l.semaphore).1; holder = none })
unfolding release
release_held l t h = let self : (t == t) ≡ true = ground arith in rw (h, self) refl

-- However threads call `Acquire` and `Release` on a new lock: `Release` by a thread that has acquired
-- the lock and not released it passes its assertion, raises the semaphore and leaves no holder.
release_passes :
    (c : System) (before after : List ℕ) (t : ℕ)
    → Reachable c
    → c.critical ≡ before ++ (t ∷ after)
    → release c.lock t
      ≡ ok ((v c.lock.semaphore).0, record { semaphore = (v c.lock.semaphore).1; holder = none })
release_passes c before after t r h =
    let x = Reachable-Exclusive c r in
    release_held c.lock t (member_holds c.lock.holder before after t (sym h ∙ x.holder))

-- However threads call `Acquire` and `Release` on a new lock: at most one of them has passed `P` of
-- `Acquire` and not released the lock since, and the lock records as its holder the thread that has
-- acquired it, and none where there is no such thread.
pub mutual_exclusion :
    (c : System)
    → Reachable c
    → (length c.granted + length c.critical ≤ 1) × (c.critical ≡ holding c.lock.holder)
mutual_exclusion c r = let x = Reachable-Exclusive c r in (omega (arith, x.units), x.holder)
