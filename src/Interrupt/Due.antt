-- ===== src/Interrupt/Due.antt =====
-- The interrupts that are due, and that a handler cannot add to them.
use project.Prelude.{
  ℕ, ◌+◌, ◌<◌, ◌≡◌, refl, sym, ◌∙◌, ap, Bool, true, false, List, [], ◌∷◌, ◌++◌, Exec, Returns, ◌>>◌,
  assert, arith, leb, if◌then◌else◌, lt→ltb,
}
use project.LinkedList.{is_in}
use project.LinkedList.Insert.{All, IsKeyed, IsSortedList, insert-Inserted}
use project.Interrupt.{
  State, PendingInterrupt, pending_items, Action, schedules, yields, IntType, schedule,
  request_yield, act, perform,
}

abbrev pub due_time : PendingInterrupt → ℕ
due_time x = x.when

pub pending-IsKeyed : IsKeyed pending_items due_time
pending-IsKeyed = record { by_key = λ x y. ground arith; same_refl = λ x. ground arith }

-- The interrupts at the front of the list whose time has come.
unfoldable pub due : ℕ → List PendingInterrupt → List PendingInterrupt
due now [] = []
due now (x ∷ xs) = let rest = due now xs in if leb x.when now then x ∷ rest else []

none_due :
    (now when : ℕ) (xs : List PendingInterrupt)
    → now < when
    → All (λ x. when < due_time x) xs
    → due now xs ≡ []
unfolding due
none_due now when [] h a = refl
none_due now when (x ∷ xs) h a = let later : leb x.when now ≡ false = ground arith in rw later refl

due-with :
    (now : ℕ) (item : PendingInterrupt) (xs ys : List PendingInterrupt)
    → now < item.when
    → All (λ x. item.when < due_time x) ys
    → due now (xs ++ (item ∷ ys)) ≡ due now (xs ++ ys)
unfolding due
due-with now item [] ys h a =
    let later : leb item.when now ≡ false = ground arith in
    rw later (sym (none_due now item.when ys h a))
due-with now item (x ∷ xs) ys h a = rw (due-with now item xs ys h a) refl

-- The state of the interrupts: the list is in order, and holds objects that have been made.
pub record IsValid {K : Type 0} (s : State K) : Type 0 where
  pub sorted : IsSortedList pending_items due_time s.pending
  pub made : All (λ (x : PendingInterrupt). x.address < s.allocated) s.pending.items

is_new :
    (item : PendingInterrupt) (xs : List PendingInterrupt)
    → All (λ (x : PendingInterrupt). x.address < item.address) xs
    → is_in pending_items item xs ≡ false
unfolding is_in
is_new item [] a = refl
is_new item (x ∷ xs) a = ground (arith, is_new item xs a.1)

made_with :
    (n : ℕ) (item : PendingInterrupt) (xs ys : List PendingInterrupt)
    → item.address ≡ n
    → All (λ (x : PendingInterrupt). x.address < n) (xs ++ ys)
    → All (λ (x : PendingInterrupt). x.address < n + 1) (xs ++ (item ∷ ys))
made_with n item [] [] e a = (omega arith, tt)
made_with n item [] (y ∷ ys) e a =
    let rest = made_with n item [] ys e a.1 in (rest.0, (omega (arith, a.0), rest.1))
made_with n item (x ∷ xs) ys e a = (omega (arith, a.0), made_with n item xs ys e a.1)

-- What a handler leaves alone: the clock, and the interrupts that are due.
pub record Served {K : Type 0} (s s' : State K) : Type 0 where
  pub valid : IsValid s'
  pub clock : s'.total_ticks ≡ s.total_ticks
  pub handling : s'.in_handler ≡ s.in_handler
  pub level : s'.level ≡ s.level
  pub kernel : s'.kernel ≡ s.kernel
  pub still_due : due s.total_ticks s'.pending.items ≡ due s.total_ticks s.pending.items

schedule-Served :
    {K : Type 0} (s : State K) (to_call from_now : ℕ) (type : IntType)
    → IsValid s
    → 0 < from_now
    → Returns (Served s) (schedule s to_call from_now type)
unfolding schedule
schedule-Served s to_call from_now type v h =
    let item : PendingInterrupt = record {
      address = s.allocated;
      call_on_interrupt = to_call;
      when = s.total_ticks + from_now;
      type = type;
    } in
    let r =
      insert-Inserted pending_items due_time s.pending item pending-IsKeyed v.sorted
        (is_new item s.pending.items v.made) in
    let i = r.holds.1 in
    record {
      out = record s { pending = r.out; allocated = s.allocated + 1 };
      is_out = rw (lt→ltb 0 from_now h, r.is_out) refl;
      holds = record {
        valid = record {
          sorted = r.holds.0;
          made =
              rw i.result
                (made_with s.allocated item i.earlier i.later refl (rw i.parts at v.made));
        };
        clock = refl;
        handling = refl;
        level = refl;
        kernel = refl;
        still_due =
            rw (i.result, i.parts)
              (due-with s.total_ticks item i.earlier i.later (omega arith) i.after);
      };
    }

-- Handlers schedule interrupts for later times.
abbrev pub IsLater : Action → Type 0
IsLater (schedules to_call from_now type) = 0 < from_now
IsLater yields = Unit

asserted {ℓ} : {A : Type ℓ} (b : Bool) (x : Exec A) → b ≡ true → (assert b >> x) ≡ x
asserted b x h = rw h refl

Served-trans : {K : Type 0} {s t u : State K} → Served s t → Served t u → Served s u
Served-trans {s = s} {t = t} {u = u} f g = record {
  valid = g.valid;
  clock = g.clock ∙ f.clock;
  handling = g.handling ∙ f.handling;
  level = g.level ∙ f.level;
  kernel = g.kernel ∙ f.kernel;
  still_due =
      ap (λ (now : ℕ). due now u.pending.items) (sym f.clock)
      ∙ g.still_due
      ∙ ap (λ (now : ℕ). due now t.pending.items) f.clock
      ∙ f.still_due;
}

act-Served :
    {K : Type 0} (a : Action) (s : State K)
    → IsValid s
    → s.in_handler ≡ true
    → IsLater a
    → Returns (Served s) (act a s)
unfolding request_yield
act-Served (schedules to_call from_now type) s v h l = schedule-Served s to_call from_now type v l
act-Served yields s v h l = record {
  out = record s { yield_on_return = true };
  is_out = asserted s.in_handler _ h;
  holds = record {
    valid = record { sorted = v.sorted; made = v.made };
    clock = refl;
    handling = refl;
    level = refl;
    kernel = refl;
    still_due = refl;
  };
}

pub perform-Served :
    {K : Type 0} (actions : List Action) (s : State K)
    → IsValid s
    → s.in_handler ≡ true
    → All IsLater actions
    → Returns (Served s) (perform actions s)
unfolding perform
perform-Served [] s v h l = record {
  out = s;
  is_out = refl;
  holds = record {
    valid = v;
    clock = refl;
    handling = refl;
    level = refl;
    kernel = refl;
    still_due = refl;
  };
}
perform-Served (a ∷ rest) s v h l =
    let first = act-Served a s v h l.0 in
    let last = perform-Served rest first.out first.holds.valid (first.holds.handling ∙ h) l.1 in
    record {
      out = last.out;
      is_out = rw first.is_out last.is_out;
      holds = Served-trans first.holds last.holds;
    }
