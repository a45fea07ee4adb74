-- ===== src/Scheduler/Yield.antt =====
-- `Yield` and `Sleep`.
use project.Prelude.{
  ℕ, ◌≡◌, refl, sym, subst, ◌∙◌, ap, Bool, true, false, Option, none, some, arith, ◌==◌, inl, inr,
  Bool-cases, Returns, ◌>>=◌,
}
use project.Interrupt.{is_off, int_off}
use project.Scheduler.{
  Thread, ThreadStatus, Scheduler, just_created, running, ready, blocked, with_thread, at_level,
  find_next_to_run,
}
use project.Scheduler.Valid.{is_ready, is_running, Intact, Sound, with_self, with_other}
use project.Scheduler.Ready.{with_thread-Sound, readied, ready_to_run-Readied, find_next_cases}
use project.Scheduler.Switch.{Runs}
use project.Scheduler.Resume.{switch_to-Runs}
use project.Scheduler.Actions.{System, awake, yield_to, round, sleep_round, yields, sleeps, perform}
use project.Scheduler.Safe.{Mode, IsValid, Runs-IsValid}

-- The current thread runs outside of `Sleep`.
pub runs_now : (c : System) (v : IsValid c) → c.sleeping ≡ none → is_running (some v.thread) ≡ true
runs_now c v e = subst (λ (o : Option Bool). Mode o c.scheduler.level v.thread) e v.mode

unready_of_running : (t : Thread) → is_running (some t) ≡ true → is_ready (some t) ≡ false
unready_of_running t h = status_cases t t.status refl h
  where
    status_cases :
        (t : Thread) (u : ThreadStatus)
        → t.status ≡ u
        → is_running (some t) ≡ true
        → is_ready (some t) ≡ false
    status_cases t just_created e h = rw e refl
    status_cases t running e h = rw e refl
    status_cases t blocked e h = rw e refl
    status_cases t ready e h = absurd (let q = rw e at h in cc)

yield_away :
    (s : Scheduler) (t : Thread) (next : ℕ)
    → Sound (some next) s.threads s.ready_list
    → s.to_be_destroyed ≡ none
    → is_off s.level ≡ true
    → s.threads s.current ≡ some t
    → is_running (some t) ≡ true
    → is_ready (s.threads next) ≡ true
    → ((m : ℕ) → (m == s.current) ≡ false → is_running (s.threads m) ≡ false)
    → Returns Runs (yield_to s.level (some next, s))
yield_away s t next x clean off here runs waiting only =
    let unready = unready_of_running t runs in
    let apart : (s.current == next) ≡ false = elim (Bool-cases (s.current == next)) [
      | inr e ↦ e
      | inl e ↦
          let same : s.current ≡ next = ground arith in
          let q =
            sym unready
            ∙ ap is_ready (sym here)
            ∙ ap (λ (k : ℕ). is_ready (s.threads k)) same
            ∙ waiting in
          absurd cc
    ] in
    let swapped : (next == s.current) ≡ false = ground (arith, apart) in
    let r = ready_to_run-Readied (some next) s s.current t x off here unready apart in
    let s1 : Scheduler = record (with_thread s s.current (readied t)) { ready_list = r.list } in
    rw r.returns (
      switch_to-Runs s1 next false (record {
        sound = r.sound;
        no_carcass = clean;
        off = off;
        old = record t { status = ready };
        old_here = with_self s s.current (readied t);
        next_ready = ap is_ready (with_other s s.current next (readied t) swapped) ∙ waiting;
        only =
            λ m. elim (Bool-cases (m == s.current)) [ inl e ↦ rw e refl | inr e ↦ rw e (only m e) ];
        done = λ e. cc;
      }))

same_level : (c : System) (v : IsValid c) → c.sleeping ≡ none → IsValid (awake c.scheduler)
same_level c v e = record {
  sound = v.sound;
  no_carcass = v.no_carcass;
  thread = v.thread;
  here = v.here;
  mode = runs_now c v e;
  only = v.only;
}

pub yield-IsValid :
    (c : System) → IsValid c → c.sleeping ≡ none → Returns IsValid (perform c yields)
yield-IsValid c v e =
    let off = at_level int_off c.scheduler in
    elim (find_next_cases off v.sound refl) [
      | inl f ↦ record { out = awake c.scheduler; is_out = rw f refl; holds = same_level c v e }
      | inr f ↦
          let r =
            yield_away (record off { ready_list = f.list }) v.thread f.next f.sound v.no_carcass
              refl v.here (runs_now c v e) f.was_ready v.only in
          rw (f.returns, r.is_out)
            (record { out = awake r.out; is_out = refl; holds = Runs-IsValid r.out r.holds })
    ]

pub sleep-IsValid :
    (c : System) (finishing : Bool)
    → IsValid c
    → c.sleeping ≡ none
    → Returns IsValid (perform c (sleeps finishing))
sleep-IsValid c finishing v e =
    let t = record v.thread { status = blocked } in
    let unready = unready_of_running v.thread (runs_now c v e) in
    record {
      out = record {
        scheduler = with_thread (at_level int_off c.scheduler) c.scheduler.current (some t);
        sleeping = some finishing;
      };
      is_out = rw v.here refl;
      holds = record {
        sound =
            with_thread-Sound none (at_level int_off c.scheduler) c.scheduler.current (some t)
              v.sound (sym (ap is_ready v.here ∙ unready))
              (subst Intact v.here (v.sound.intact c.scheduler.current));
        no_carcass = v.no_carcass;
        thread = t;
        here = with_self c.scheduler c.scheduler.current (some t);
        mode = (refl, refl, λ f. refl);
        only = λ m h. rw h (v.only m h);
      };
    }

round_from :
    (c : System) (finishing : Bool)
    → IsValid c
    → c.sleeping ≡ some finishing
    → Returns IsValid (find_next_to_run c.scheduler >>= sleep_round finishing)
round_from c finishing v e =
    let m = subst (λ (o : Option Bool). Mode o c.scheduler.level v.thread) e v.mode in
    elim (find_next_cases c.scheduler v.sound m.0) [
      | inl f ↦ rw f (record {
        out = record { scheduler = c.scheduler; sleeping = some finishing };
        is_out = refl;
        holds = record {
          sound = v.sound;
          no_carcass = v.no_carcass;
          thread = v.thread;
          here = v.here;
          mode = m;
          only = v.only;
        };
      })
      | inr f ↦
          let s : Scheduler = record c.scheduler { ready_list = f.list } in
          let r = switch_to-Runs s f.next finishing (record {
            sound = f.sound;
            no_carcass = v.no_carcass;
            off = m.0;
            old = v.thread;
            old_here = v.here;
            next_ready = f.was_ready;
            only = λ k. elim (Bool-cases (k == c.scheduler.current)) [
              | inl h ↦
                  let same : k ≡ c.scheduler.current = ground arith in
                  ap (λ (i : ℕ). is_running (c.scheduler.threads i)) same
                  ∙ ap is_running v.here
                  ∙ m.1
              | inr h ↦ v.only k h
            ];
            done = m.2;
          }) in
          rw (f.returns, r.is_out)
            (record { out = awake r.out; is_out = refl; holds = Runs-IsValid r.out r.holds })
    ]

pub round-IsValid :
    (c : System) (o : Option Bool) → IsValid c → c.sleeping ≡ o → Returns IsValid (round c o)
round-IsValid c none v e = record { out = c; is_out = refl; holds = v }
round-IsValid c (some f) v e = round_from c f v e
