-- ===== src/Interrupt.antt =====
-- machine/interrupt.h and machine/interrupt.cc: the simulated clock and the interrupts that the
-- devices have scheduled. A time is a natural number that is taken not to reach 2^31. The object that
-- an interrupt calls back is a number; what its handler does is a parameter, which changes the rest
-- of the kernel and may schedule interrupts and ask for a context switch.
pub mod Due
pub mod Fire
pub mod Round
pub mod Check
pub mod Idle
mod Tests
use project.Prelude.{
  ℕ, zero, suc, ◌+◌, ◌-◌, Bool, true, false, not, ◌&&◌, ◌||◌, List, [], ◌∷◌, Option, none, some,
  Exec, ok, halted, ◌>>=◌, ◌>>◌, assert, ltb, leb, ◌==◌, if◌then◌else◌, ℤ, pos, negsuc,
}
use project.LinkedList.{LinkedList, Items, new_list, is_empty, front, remove_front, insert}
use project.Machine.{Machine}
use project.Mips.Execute.{delayed_load}

pub data IntStatus : Type 0 where
  int_off int_on : IntStatus

pub data MachineStatus : Type 0 where
  idle_mode system_mode user_mode : MachineStatus

pub data IntType : Type 0 where
  timer_int disk_int console_write_int console_read_int : IntType
  network_send_int network_recv_int : IntType

-- `address` tells the objects apart, as the pointers to them do.
pub record PendingInterrupt : Type 0 where
  pub address : ℕ
  pub call_on_interrupt : ℕ
  pub when : ℕ
  pub type : IntType

abbrev pub pending_compare : PendingInterrupt → PendingInterrupt → ℤ
pending_compare x y =
    if ltb x.when y.when then negsuc 0 else if ltb y.when x.when then pos 1 else pos 0

abbrev pub pending_items : Items PendingInterrupt
pending_items = record { same = λ x y. x.address == y.address; compare = pending_compare }

-- `Interrupt`, the statistics, the machine of the kernel, and the rest of the kernel. Objects with an
-- address below `allocated` have been made.
pub record State (K : Type 0) : Type 0 where
  pub level : IntStatus
  pub pending : LinkedList PendingInterrupt
  pub in_handler : Bool
  pub yield_on_return : Bool
  pub status : MachineStatus
  pub total_ticks : ℕ
  pub idle_ticks : ℕ
  pub system_ticks : ℕ
  pub user_ticks : ℕ
  pub allocated : ℕ
  pub machine : Option Machine
  pub kernel : K

-- What a handler asks of the interrupts.
pub data Action : Type 0 where
  schedules : ℕ → ℕ → IntType → Action
  yields : Action

abbrev pub user_tick : ℕ
user_tick = 1

abbrev pub system_tick : ℕ
system_tick = 10

abbrev pub is_off : IntStatus → Bool
is_off int_off = true
is_off int_on = false

module _ {K : Type 0} where
  -- The constructor of `Interrupt`.
  abbrev pub new_interrupt : Option Machine → K → State K
  new_interrupt machine kernel = record {
    level = int_off;
    pending = new_list;
    in_handler = false;
    yield_on_return = false;
    status = system_mode;
    total_ticks = 0;
    idle_ticks = 0;
    system_ticks = 0;
    user_ticks = 0;
    allocated = 0;
    machine = machine;
    kernel = kernel;
  }

  -- A negative `fromNow` fails the ASSERT as 0 does.
  unfoldable pub schedule : State K → ℕ → ℕ → IntType → Exec (State K)
  schedule s to_call from_now type =
      let to_occur : PendingInterrupt = record {
        address = s.allocated;
        call_on_interrupt = to_call;
        when = s.total_ticks + from_now;
        type = type;
      } in
      assert (ltb 0 from_now)
      >> (insert pending_items s.pending to_occur >>= λ pending.
          ok (record s { pending = pending; allocated = s.allocated + 1 }))

  unfoldable pub request_yield : State K → Exec (State K)
  request_yield s = assert s.in_handler >> ok (record s { yield_on_return = true })

  abbrev pub act : Action → State K → Exec (State K)
  act (schedules to_call from_now type) s = schedule s to_call from_now type
  act yields s = request_yield s

  unfoldable pub perform : List Action → State K → Exec (State K)
  perform [] s = ok s
  perform (a ∷ rest) s = act a s >>= perform rest

  abbrev pub with_machine : State K → Option Machine → Exec (State K)
  with_machine s none = ok s
  with_machine s (some m) = delayed_load m 0 0 >>= λ m'. ok (record s { machine = some m' })

  abbrev pub goes_on : State K → Exec Bool
  goes_on s =
      if is_empty s.pending
      then ok false
      else front s.pending >>= λ next. ok (leb next.when s.total_ticks)

  abbrev pub fired : Option (State K) → Exec (Option (Bool × State K))
  fired none = ok none
  fired (some s) = ok (some (true, record s { in_handler = false }))

  -- The clock moves on to the next interrupt.
  abbrev pub skip_to : State K → ℕ → State K
  skip_to s when =
      if ltb s.total_ticks when
      then record s { idle_ticks = s.idle_ticks + (when - s.total_ticks); total_ticks = when }
      else s

  abbrev pub tick : State K → State K
  tick s = elim s.status [
    | system_mode ↦ record s {
      total_ticks = s.total_ticks + system_tick;
      system_ticks = s.system_ticks + system_tick;
    }
    | _ ↦ record s {
      total_ticks = s.total_ticks + user_tick;
      user_ticks = s.user_ticks + user_tick;
    }
  ]

  -- What is left of `OneTick` after `CheckIfDue`: `true` with the state in which `Yield` is called,
  -- after which the status is that of before.
  abbrev pub ticked : Option (Bool × State K) → Exec (Option (Bool × State K))
  ticked none = ok none
  ticked (some (b, s)) = ok (
      some (
        if s.yield_on_return
        then (true, record s { level = int_on; yield_on_return = false; status = system_mode })
        else (false, record s { level = int_on })))

  abbrev pub idled : Option (Bool × State K) → Exec (Option (State K))
  idled none = ok none
  idled (some (true, s)) = ok (some (record s { status = system_mode }))
  idled (some (false, s)) = halted

module _ {K : Type 0} (call_back : ℕ → K → K × List Action) where
  abbrev pub invoke : PendingInterrupt → State K → Exec (State K)
  invoke next s =
      let result = call_back next.call_on_interrupt s.kernel in
      perform result.1 (record s { kernel = result.0 })

  -- The body of the loop: take the first interrupt off the list, and call its handler.
  abbrev pub fire_first : PendingInterrupt × LinkedList PendingInterrupt → State K → Exec (State K)
  fire_first (next, rest) s = invoke next (record s { pending = rest })

  -- The `do` loop, on fuel: `none` if it runs out.
  unfoldable pub fire : ℕ → State K → Exec (Option (State K))
  fire zero s = ok none
  fire (suc fuel) s = remove_front s.pending >>= λ next. fire_first next s >>= λ s'.
      goes_on s' >>= λ again. elim again [ true ↦ fire fuel s' | false ↦ ok (some s') ]

  unfoldable pub check_if_due : ℕ → Bool → State K → Exec (Option (Bool × State K))
  check_if_due fuel advance_clock s =
      assert (is_off s.level)
      >> (if is_empty s.pending
          then ok (some (false, s))
          else (front s.pending >>= λ next.
              if ltb s.total_ticks next.when && not advance_clock
              then ok (some (false, s))
              else (let s1 = skip_to s next.when in
                  with_machine s1 s1.machine >>= λ s2.
                  fire fuel (record s2 { in_handler = true }) >>= fired)))

  unfoldable pub one_tick : ℕ → State K → Exec (Option (Bool × State K))
  one_tick fuel s = check_if_due fuel false (record (tick s) { level = int_off }) >>= ticked

  unfoldable pub set_level : ℕ → IntStatus → State K → Exec (Option (Bool × State K))
  set_level fuel now s =
      assert (is_off now || not s.in_handler)
      >> (if not (is_off now) && is_off s.level
          then one_tick fuel (record s { level = now })
          else ok (some (false, record s { level = now })))

  unfoldable pub idle : ℕ → State K → Exec (Option (State K))
  idle fuel s = check_if_due fuel true (record s { status = idle_mode }) >>= idled
