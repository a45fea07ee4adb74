-- ===== src/Scheduler/Safe.antt =====
-- Whatever the threads of a kernel do, the assertions of the scheduler hold.
use project.Prelude.{
  ℕ, ◌≡◌, refl, ◌∙◌, ap, Bool, true, false, Option, none, some, arith, ◌==◌, inl, inr, Bool-cases,
}
use project.LinkedList.{LinkedList}
use project.Interrupt.{is_off, IntStatus}
use project.Scheduler.{Thread, Scheduler, just_created, blocked, with_thread}
use project.Scheduler.Valid.{is_ready, is_running, Sound, with_other}
use project.Scheduler.Switch.{Runs}
use project.Scheduler.Actions.{
  System, awake, Action, creates, forks, wakes, yields, sleeps, rounds, loads, computes,
}

-- The current thread runs, or is in the loop of `Sleep`, where it may have been woken again.
abbrev pub Mode : Option Bool → IntStatus → Thread → Type 0
Mode none level t = is_running (some t) ≡ true
Mode (some finishing) level t =
    (is_off level ≡ true)
    × (is_running (some t) ≡ false)
    × (finishing ≡ true → is_ready (some t) ≡ false)

pub record IsValid (c : System) : Type 0 where
  pub sound : Sound none c.scheduler.threads c.scheduler.ready_list
  pub no_carcass : c.scheduler.to_be_destroyed ≡ none
  pub thread : Thread
  pub here : c.scheduler.threads c.scheduler.current ≡ some thread
  pub mode : Mode c.sleeping c.scheduler.level thread
  pub only :
      (m : ℕ) → (m == c.scheduler.current) ≡ false → is_running (c.scheduler.threads m) ≡ false

-- A thread that runs makes others under numbers that are free, and calls `Fork` once for each; `V`
-- wakes a thread that has gone to sleep, and no thread that is finishing.
abbrev pub Allowed : System → Action → Type 0
Allowed c (creates n memory) = (c.sleeping ≡ none) × (c.scheduler.threads n ≡ none)
Allowed c (forks n) =
    (c.sleeping ≡ none)
    × ((t : Thread) × (c.scheduler.threads n ≡ some t) × (t.status ≡ just_created))
Allowed c (wakes n) =
    (t : Thread) × (c.scheduler.threads n ≡ some t)
    × (t.status ≡ blocked)
    × (c.sleeping ≡ some true → (c.scheduler.current == n) ≡ false)
Allowed c yields = c.sleeping ≡ none
Allowed c (sleeps finishing) = c.sleeping ≡ none
Allowed c rounds = Unit
Allowed c loads = c.sleeping ≡ none
Allowed c (computes registers) = c.sleeping ≡ none

pub Runs-IsValid : (s : Scheduler) → Runs s → IsValid (awake s)
Runs-IsValid s r = record {
  sound = r.sound;
  no_carcass = r.no_carcass;
  thread = r.at.thread;
  here = r.at.here;
  mode = r.at.runs;
  only = r.at.only;
}

-- The system with another object for a thread, and another ready list.
abbrev pub changed : System → ℕ → Thread → LinkedList ℕ → System
changed c n t l = record c {
  scheduler = record (with_thread c.scheduler n (some t)) { ready_list = l };
}

-- A thread changes that does not run.
pub other-IsValid :
    (c : System) (n : ℕ) (t : Thread) (l : LinkedList ℕ)
    → IsValid c
    → Sound none (with_thread c.scheduler n (some t)).threads l
    → is_running (some t) ≡ false
    → (c.scheduler.current == n) ≡ false
    → IsValid (changed c n t l)
other-IsValid c n t l v sound idle other = record {
  sound = sound;
  no_carcass = v.no_carcass;
  thread = v.thread;
  here = with_other c.scheduler n c.scheduler.current (some t) other ∙ v.here;
  mode = v.mode;
  only = λ m e. elim (Bool-cases (m == n)) [ inl h ↦ rw h idle | inr h ↦ rw h (v.only m e) ];
}

-- The current thread changes.
pub self-IsValid :
    (c : System) (n : ℕ) (t : Thread) (l : LinkedList ℕ)
    → IsValid c
    → Sound none (with_thread c.scheduler n (some t)).threads l
    → Mode c.sleeping c.scheduler.level t
    → (c.scheduler.current == n) ≡ true
    → IsValid (changed c n t l)
self-IsValid c n t l v sound mode self =
    let same : n ≡ c.scheduler.current = ground arith in
    record {
      sound = sound;
      no_carcass = v.no_carcass;
      thread = t;
      here = rw self refl;
      mode = mode;
      only = λ m e.
          let other : (m == n) ≡ false = ap (λ (k : ℕ). m == k) same ∙ e in rw other (v.only m e);
    }
