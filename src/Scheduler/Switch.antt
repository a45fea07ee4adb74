-- ===== src/Scheduler/Switch.antt =====
-- `Run`, and the thread that goes on after `SWITCH`.
use project.Prelude.{
  ℕ, ◌≡◌, refl, sym, subst, ◌∙◌, ap, Bool, true, false, List, Option, none, some, Option-cases,
  arith, ◌==◌, if◌then◌else◌, inl, inr, Bool-cases, ok, Returns,
}
use project.LinkedList.{LinkedList}
use project.Interrupt.{is_off}
use project.Scheduler.{
  Thread, Scheduler, running, with_thread, save_user_state, mark_finished, check_overflow, run,
  stack_fencepost,
}
use project.Scheduler.Valid.{is_ready, is_running, Intact, Sound, with_self, with_other}
use project.Scheduler.Ready.{with_thread-Sound, is_ready-with_thread}

-- Of all threads only this one runs.
pub record Current (threads : ℕ → Option Thread) (n : ℕ) : Type 0 where
  pub thread : Thread
  pub here : threads n ≡ some thread
  pub runs : is_running (some thread) ≡ true
  pub only : (m : ℕ) → (m == n) ≡ false → is_running (threads m) ≡ false

-- A scheduler between two switches.
pub record Runs (s : Scheduler) : Type 0 where
  pub sound : Sound none s.threads s.ready_list
  pub no_carcass : s.to_be_destroyed ≡ none
  pub at : Current s.threads s.current

abbrev pub carcass : Bool → ℕ → Option ℕ
carcass false n = none
carcass true n = some n

mark_finished_lem :
    (s : Scheduler) (finishing : Bool)
    → s.to_be_destroyed ≡ none
    → mark_finished s finishing ≡ ok (record s { to_be_destroyed = carcass finishing s.current })
mark_finished_lem s false e = ap (λ (o : Option ℕ). ok (record s { to_be_destroyed = o })) e
mark_finished_lem s true e = rw e refl

-- Saving registers changes nothing else.
pub saved-same {ℓ} :
    {A : Type ℓ} (b : Bool) (t : Thread) (registers : List ℕ) (f : Thread → A)
    → ((u : Thread) (r : List ℕ) → f (record u { user_registers = r }) ≡ f u)
    → f (if b then record t { user_registers = registers } else t) ≡ f t
saved-same true t registers f h = h t registers
saved-same false t registers f h = refl

check_overflow_lem : (t : Thread) → Intact (some t) → check_overflow t ≡ ok tt
check_overflow_lem t i = elim (Option-cases t.stack) [
  | inl e ↦ rw e refl
  | inr (w, e) ↦
      let good = i w e in
      let same : (w == stack_fencepost) ≡ true = ground arith in rw (e, same) refl
]

start-Sound :
    (s : Scheduler) (next : ℕ) (t : Thread) (l : LinkedList ℕ)
    → Sound (some next) s.threads l
    → s.threads next ≡ some t
    → Sound none (with_thread s next (some (record t { status = running }))).threads l
start-Sound s next t l x here = record {
  list = x.list;
  listed = λ m. elim (Bool-cases (m == next)) [
    | inl h ↦ rw h (x.listed m ∙ rw h (ground arith))
    | inr h ↦ rw h (x.listed m ∙ rw h refl)
  ];
  intact = λ m. elim (Bool-cases (m == next)) [
    | inl h ↦ rw h (subst Intact here (x.intact next))
    | inr h ↦ rw h (x.intact m)
  ];
}

start-Current :
    (s : Scheduler) (next : ℕ) (t : Thread)
    → ((m : ℕ) → (m == next) ≡ false → is_running (s.threads m) ≡ false)
    → Current (with_thread s next (some (record t { status = running }))).threads next
start-Current s next t only = record {
  thread = record t { status = running };
  here = with_self s next (some (record t { status = running }));
  runs = refl;
  only = λ m h. rw h (only m h);
}

-- What `Run` needs, of a thread that was picked: only the current thread may be running, and it is
-- not marked so any more, nor ready if it is finishing.
pub record Leaves (s : Scheduler) (next : ℕ) (finishing : Bool) : Type 0 where
  pub sound : Sound (some next) s.threads s.ready_list
  pub no_carcass : s.to_be_destroyed ≡ none
  pub off : is_off s.level ≡ true
  pub old : Thread
  pub old_here : s.threads s.current ≡ some old
  pub next_ready : is_ready (s.threads next) ≡ true
  pub only : (m : ℕ) → is_running (s.threads m) ≡ false
  pub done : finishing ≡ true → is_ready (some old) ≡ false

pub record Started (s : Scheduler) (next : ℕ) (finishing : Bool) (out : Scheduler) : Type 0 where
  pub sound : Sound none out.threads out.ready_list
  pub carcass_left : out.to_be_destroyed ≡ carcass finishing s.current
  pub current : out.current ≡ next
  pub at : Current out.threads next
  pub off : is_off out.level ≡ true
  pub gone :
      finishing ≡ true → (is_ready (out.threads s.current) ≡ false) × ((s.current == next) ≡ false)

module _ (s : Scheduler) (next : ℕ) (finishing : Bool) (h : Leaves s next finishing) where
  -- The scheduler after the current thread has been saved.
  abbrev left : Scheduler
  left = record (with_thread s s.current (some (save_user_state s h.old))) {
    current = next;
    to_be_destroyed = carcass finishing s.current;
  }

  saved-ready : is_ready (some (save_user_state s h.old)) ≡ is_ready (some h.old)
  saved-ready =
      saved-same h.old.is_user h.old s.registers (λ (t : Thread). is_ready (some t)) (λ u r. refl)

  saved-running : is_running (some (save_user_state s h.old)) ≡ is_running (some h.old)
  saved-running =
      saved-same h.old.is_user h.old s.registers (λ (t : Thread). is_running (some t)) (λ u r. refl)

  saved-Intact : Intact (some (save_user_state s h.old))
  saved-Intact =
      subst (λ (A : Type 0). A)
        (sym (
          saved-same h.old.is_user h.old s.registers (λ (t : Thread). Intact (some t))
            (λ u r. refl)))
        (subst Intact h.old_here (h.sound.intact s.current))

  left-Sound : Sound (some next) left.threads s.ready_list
  left-Sound =
      with_thread-Sound (some next) s s.current (some (save_user_state s h.old)) h.sound
        (saved-ready ∙ ap is_ready (sym h.old_here)) saved-Intact

  left-only : (m : ℕ) → is_running (left.threads m) ≡ false
  left-only m = elim (Bool-cases (m == s.current)) [
    | inl e ↦ rw e (saved-running ∙ ap is_running (sym h.old_here) ∙ h.only s.current)
    | inr e ↦ rw e (h.only m)
  ]

  left-next : (t : Thread) × (left.threads next ≡ some t)
  left-next =
      let r : is_ready (left.threads next) ≡ true =
        is_ready-with_thread s s.current next (some (save_user_state s h.old))
          (saved-ready ∙ ap is_ready (sym h.old_here))
        ∙ h.next_ready in
      elim (Option-cases (left.threads next)) [
        | inl e ↦ absurd (let q = ap is_ready e in cc)
        | inr t ↦ t
      ]

  -- A thread that finishes is neither ready nor the one that runs next.
  left-gone :
      (e : finishing ≡ true)
      → (is_ready (left.threads s.current) ≡ false) × ((s.current == next) ≡ false)
  left-gone e =
      let unready = ap is_ready h.old_here ∙ h.done e in
      (
        is_ready-with_thread s s.current s.current (some (save_user_state s h.old))
              (saved-ready ∙ ap is_ready (sym h.old_here))
            ∙ unready,
        elim (Bool-cases (s.current == next)) [
          | inr o ↦ o
          | inl o ↦
              let same : s.current ≡ next = ground arith in
              let q = ap (λ (k : ℕ). is_ready (s.threads k)) same ∙ h.next_ready in absurd cc
        ],
      )

  pub run-Started : Returns (Started s next finishing) (run s next finishing)
  unfolding run
  run-Started =
      let (t, here) = left-next in
      let out : Scheduler = with_thread left next (some (record t { status = running })) in
      record {
        out = out;
        is_out =
            rw
              (
                h.off,
                mark_finished_lem s finishing h.no_carcass,
                h.old_here,
                check_overflow_lem h.old (subst Intact h.old_here (h.sound.intact s.current)),
                here,
              )
              refl;
        holds = record {
          sound = start-Sound left next t s.ready_list left-Sound here;
          carcass_left = refl;
          current = refl;
          at = start-Current left next t (λ m e. left-only m);
          off = h.off;
          gone = λ e.
              let (unready, other) = left-gone e in
              (ap is_ready (with_other left next s.current _ other) ∙ unready, other);
        };
      }
