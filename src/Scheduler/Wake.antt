-- ===== src/Scheduler/Wake.antt =====
-- Threads that are made ready, by `Fork` or by `V`.
use project.Prelude.{
  ℕ, ◌≡◌, ◌≢◌, refl, sym, subst, ◌∙◌, ap, Bool, true, false, Option, none, some, arith, ◌==◌, inl,
  inr, Bool-cases, ok, Returns, ◌>>=◌,
}
use project.Interrupt.{IntStatus, int_off}
use project.Scheduler.{Thread, ThreadStatus, just_created, ready, at_level, stack_fencepost}
use project.Scheduler.Valid.{is_ready, is_running, with_self}
use project.Scheduler.Ready.{with_thread-Sound, ready_to_run-Readied}
use project.Scheduler.Actions.{System, made_ready, forks, perform}
use project.Scheduler.Safe.{Mode, IsValid, changed, other-IsValid, self-IsValid}

pub by_status :
    (t : Thread) (u : ThreadStatus)
    → t.status ≡ u
    → (is_ready (some t) ≡ is_ready (some (record t { status = u })))
      × (is_running (some t) ≡ is_running (some (record t { status = u })))
by_status t u e = (rw e refl, rw e refl)

woken-Mode :
    (sleeping : Option Bool) (level : IntStatus) (t : Thread)
    → Mode sleeping level t
    → is_running (some t) ≡ false
    → sleeping ≢ some true
    → Mode sleeping level (record t { status = ready })
woken-Mode none level t m idle h = cc
woken-Mode (some true) level t m idle h = absurd (h refl)
woken-Mode (some false) level t m idle h = (m.0, refl, λ e. cc)

pub made_ready-IsValid :
    (c : System) (n : ℕ) (t : Thread)
    → IsValid c
    → c.scheduler.threads n ≡ some t
    → is_ready (some t) ≡ false
    → is_running (some t) ≡ false
    → (c.sleeping ≡ some true → (c.scheduler.current == n) ≡ false)
    → Returns IsValid (made_ready c.scheduler n >>= λ s. ok (record c { scheduler = s }))
made_ready-IsValid c n t v here unready idle apart =
    let r =
      ready_to_run-Readied none (at_level int_off c.scheduler) n t v.sound refl here unready refl in
    record {
      out = changed c n (record t { status = ready }) r.list;
      is_out = rw r.returns refl;
      holds = elim (Bool-cases (c.scheduler.current == n)) [
        | inr e ↦ other-IsValid c n (record t { status = ready }) r.list v r.sound refl e
        | inl e ↦
            let same : c.scheduler.current ≡ n = ground arith in
            let me : t ≡ v.thread =
              (let p = sym here ∙ ap c.scheduler.threads (sym same) ∙ v.here in cc) in
            self-IsValid c n (record t { status = ready }) r.list v r.sound
              (woken-Mode c.sleeping c.scheduler.level t
                (subst (Mode c.sleeping c.scheduler.level) (sym me) v.mode) idle
                (λ f. let q = apart f in cc))
              e
      ];
    }

-- The thread that runs is none that is not running.
pub not_current :
    (c : System) (n : ℕ)
    → IsValid c
    → c.sleeping ≡ none
    → is_running (c.scheduler.threads n) ≡ false
    → (c.scheduler.current == n) ≡ false
not_current c n v awake_now idle = elim (Bool-cases (c.scheduler.current == n)) [
  | inr e ↦ e
  | inl e ↦
      let same : c.scheduler.current ≡ n = ground arith in
      let m : is_running (some v.thread) ≡ true =
        subst (λ (o : Option Bool). Mode o c.scheduler.level v.thread) awake_now v.mode in
      let q =
        sym (ap is_running v.here)
        ∙ ap (λ (k : ℕ). is_running (c.scheduler.threads k)) same
        ∙ idle in
      absurd cc
]

pub fork-IsValid :
    (c : System) (n : ℕ) (t : Thread)
    → IsValid c
    → c.sleeping ≡ none
    → c.scheduler.threads n ≡ some t
    → t.status ≡ just_created
    → Returns IsValid (perform c (forks n))
fork-IsValid c n t v awake_now here fresh =
    let (unready, idle) = by_status t just_created fresh in
    let apart = not_current c n v awake_now (ap is_running here ∙ idle) in
    let t1 = record t { stack = some stack_fencepost } in
    let x =
      with_thread-Sound none c.scheduler n (some t1) v.sound (ap is_ready (sym here))
        (λ w e. let q = e in cc) in
    let c1 = changed c n t1 c.scheduler.ready_list in
    let v1 = other-IsValid c n t1 c.scheduler.ready_list v x idle apart in
    rw here
      (made_ready-IsValid c1 n t1 v1 (with_self c.scheduler n (some t1)) unready idle (λ e. apart))
