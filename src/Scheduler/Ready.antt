-- ===== src/Scheduler/Ready.antt =====
-- `ReadyToRun` and `FindNextToRun`.
use project.Prelude.{
  ℕ, ◌≡◌, refl, sym, subst, ◌∙◌, ap, Bool, true, false, not, ◌&&◌, ◌||◌, List, [], ◌∷◌, Option,
  none, some, arith, ◌==◌, inl, inr, Bool-cases, List-cases, Exec, ok, ◌⊎◌, length, ◌-◌,
}
use project.LinkedList.{LinkedList, is_in, remove_front}
use project.LinkedList.Queue
use project.LinkedList.Queue.{is_in-append, append_lem}
use project.Interrupt.{is_off}
use project.Scheduler.{
  Thread, Scheduler, ready, thread_items, with_thread, ready_to_run, find_next_to_run,
}
use project.Scheduler.Valid.{is_ready, Intact, picks, Sound, thread_items-IsEquality}

pub is_ready-with_thread :
    (s : Scheduler) (n m : ℕ) (t : Option Thread)
    → is_ready t ≡ is_ready (s.threads n)
    → is_ready ((with_thread s n t).threads m) ≡ is_ready (s.threads m)
is_ready-with_thread s n m t e = elim (Bool-cases (m == n)) [
  | inl h ↦
      let same : m ≡ n = ground arith in
      rw h (e ∙ ap (λ (k : ℕ). is_ready (s.threads k)) (sym same))
  | inr h ↦ rw h refl
]

-- A thread changes, but not in whether it is ready.
pub with_thread-Sound :
    (picked : Option ℕ) (s : Scheduler) (n : ℕ) (t : Option Thread)
    → Sound picked s.threads s.ready_list
    → is_ready t ≡ is_ready (s.threads n)
    → Intact t
    → Sound picked (with_thread s n t).threads s.ready_list
with_thread-Sound picked s n t x e i = record {
  list = x.list;
  listed = λ m.
      x.listed m
      ∙ ap (λ (b : Bool). b && not (picks picked m)) (sym (is_ready-with_thread s n m t e));
  intact = λ m. elim (Bool-cases (m == n)) [ inl h ↦ rw h i | inr h ↦ rw h (x.intact m) ];
}

abbrev pub readied : Thread → Option Thread
readied t = some (record t { status = ready })

pub record Readied (picked : Option ℕ) (s : Scheduler) (n : ℕ) (t : Thread) (r : Exec Scheduler)
    : Type 0 where
  pub list : LinkedList ℕ
  pub returns : r ≡ ok (record (with_thread s n (readied t)) { ready_list = list })
  pub sound : Sound picked (with_thread s n (readied t)).threads list

-- `ReadyToRun` of a thread that exists and is not ready.
pub ready_to_run-Readied :
    (picked : Option ℕ) (s : Scheduler) (n : ℕ) (t : Thread)
    → Sound picked s.threads s.ready_list
    → is_off s.level ≡ true
    → s.threads n ≡ some t
    → is_ready (some t) ≡ false
    → picks picked n ≡ false
    → Readied picked s n t (ready_to_run s n)
unfolding ready_to_run is_in
ready_to_run-Readied picked s n t x off here unready unpicked =
    let new : is_in thread_items n s.ready_list.items ≡ false =
      x.listed n
      ∙ ap (λ (o : Option Thread). is_ready o && not (picks picked n)) here
      ∙ rw unready refl in
    let a = append_lem thread_items thread_items-IsEquality s.ready_list n x.list new in
    record {
      list = a.out;
      returns = rw (off, here, a.is_out) refl;
      sound = record {
        list = a.holds.0;
        listed = λ m.
            ap (is_in thread_items m) a.holds.1
            ∙ is_in-append thread_items m s.ready_list.items (n ∷ [])
            ∙ elim (Bool-cases (m == n)) [
              | inl h ↦
                  let same : m ≡ n = ground arith in
                  let free : picks picked m ≡ false = ap (picks picked) same ∙ unpicked in
                  rw (h, free) (ground arith)
              | inr h ↦ rw h (ap (λ (b : Bool). b || false) (x.listed m) ∙ ground arith)
            ];
        intact = λ m. elim (Bool-cases (m == n)) [
          | inl h ↦ let same : m ≡ n = ground arith in rw h (subst Intact here (x.intact n))
          | inr h ↦ rw h (x.intact m)
        ];
      };
    }

-- `FindNextToRun` gave the first thread of the list.
pub record Picked (s : Scheduler) (r : Exec (Option ℕ × Scheduler)) : Type 0 where
  pub next : ℕ
  pub list : LinkedList ℕ
  pub returns : r ≡ ok (some next, record s { ready_list = list })
  pub sound : Sound (some next) s.threads list
  pub was_ready : is_ready (s.threads next) ≡ true

find_in :
    (s : Scheduler) (n : ℕ) (items : List ℕ)
    → n ≡ length items
    → is_off s.level ≡ true
    → (x : ℕ) (rest : List ℕ) → items ≡ x ∷ rest
    → find_next_to_run (record s { ready_list = record { items = items; num_in_list = n } })
      ≡ ok (some x, record s { ready_list = record { items = rest; num_in_list = n - 1 } })
unfolding find_next_to_run remove_front
find_in s n [] e off x rest h = cc
find_in s n (y ∷ ys) e off x rest h =
    let more : (n == 0) ≡ false = ground arith in
    let head : y ≡ x = cc in let tail : ys ≡ rest = cc in rw (off, more, head, tail) refl

find_none :
    (s : Scheduler)
    → s.ready_list.num_in_list ≡ 0
    → is_off s.level ≡ true
    → find_next_to_run s ≡ ok (none, s)
unfolding find_next_to_run
find_none s e off =
    let empty : (s.ready_list.num_in_list == 0) ≡ true = ground arith in rw (off, empty) refl

rest-listed :
    (s : Scheduler) (x : ℕ) (rest : List ℕ)
    → Sound none s.threads s.ready_list
    → s.ready_list.items ≡ x ∷ rest
    → (is_in thread_items x rest ≡ false)
    → (m : ℕ) → is_in thread_items m rest ≡ (is_ready (s.threads m) && not (m == x))
unfolding is_in
rest-listed s x rest v e absent m =
    let was = sym (ap (is_in thread_items m) e) ∙ v.listed m in
    elim (Bool-cases (m == x)) [
      | inl h ↦
          let same : m ≡ x = ground arith in
          rw h (ap (λ (k : ℕ). is_in thread_items k rest) same ∙ absent ∙ ground arith)
      | inr h ↦ rw h (rw h at was ∙ ground arith)
    ]

head-ready :
    (s : Scheduler) (x : ℕ) (rest : List ℕ)
    → Sound none s.threads s.ready_list
    → s.ready_list.items ≡ x ∷ rest
    → is_ready (s.threads x) ≡ true
unfolding is_in
head-ready s x rest v e =
    let self : (x == x) ≡ true = ground arith in
    let was = rw self at (sym (ap (is_in thread_items x) e) ∙ v.listed x) in ground (arith, was)

pub find_next_cases :
    (s : Scheduler)
    → Sound none s.threads s.ready_list
    → is_off s.level ≡ true
    → (find_next_to_run s ≡ ok (none, s)) ⊎ Picked s (find_next_to_run s)
find_next_cases s v off = elim (List-cases s.ready_list.items) [
  | inl e ↦ inl (find_none s (v.list.count ∙ ap length e) off)
  | inr (x, rest, e) ↦
      let d = subst (Queue.IsDistinct thread_items) e v.list.distinct in
      inr (record {
        next = x;
        list = record { items = rest; num_in_list = s.ready_list.num_in_list - 1 };
        returns = find_in s s.ready_list.num_in_list s.ready_list.items v.list.count off x rest e;
        sound = record {
          list = record { count = omega (arith, v.list.count, ap length e); distinct = d.1 };
          listed = rest-listed s x rest v e d.0;
          intact = v.intact;
        };
        was_ready = head-ready s x rest v e;
      })
]
