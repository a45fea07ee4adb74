-- ===== src/Mips/Steps.antt =====
-- What the steps of an instruction leave alone.
use project.Prelude.{
  ℕ, ◌≤◌, ◌<◌, ◌≡◌, ◌≢◌, List, refl, ◌∙◌, ap, Bool, true, false, arith, Exec, ok, Returns,
  Returns->>=, if◌then◌else◌, get_or, length-set, get_or-set_self, get_or-set_ne,
}
use project.Machine.{
  Machine, ExceptionType, Access, Translation, widen, value, raised, read_at, write_at, read_mem,
  write_mem, num_total_regs, valid_size, translate, physical, address_error_exception,
}
use project.Machine
use project.Machine.Bytes.{load, store, length-store}
use project.Machine.Valid.{IsValid}
use project.Machine.Translate.{translate-Runs}
use project.Mips.Cpu.{
  reg, put, Effect, proceeds, raises, reads, writes, delays, computes, computes_pair, jumps, link,
  loaded, pc_after,
}

-- The machine is valid, and so far only the registers below PCReg have changed.
pub record Keeps (m m' : Machine) : Type 0 where
  pub valid : IsValid m'
  pub same : (j : ℕ) → 34 ≤ j → reg m' j ≡ reg m j

pub put-IsValid : (m : Machine) (i v : ℕ) → IsValid m → IsValid (put m i v)
unfolding put
put-IsValid m i v k = record {
  memory = k.memory;
  registers = length-set m.registers i v ∙ k.registers;
  one_table = k.one_table;
}

pub put_self : (m : Machine) (i v : ℕ) → IsValid m → i < 40 → reg (put m i v) i ≡ v
unfolding put
put_self m i v k h = get_or-set_self m.registers i v 0 (omega (arith, k.registers))

pub put_other : (m : Machine) (i j v : ℕ) → i ≢ j → reg (put m i v) j ≡ reg m j
unfolding put
put_other m i j v h = get_or-set_ne m.registers i j v 0 h

pub Keeps-start : {m : Machine} → IsValid m → Keeps m m
Keeps-start k = record { valid = k; same = λ j h. refl }

pub Keeps-put : {m m' : Machine} (i v : ℕ) → i < 34 → Keeps m m' → Keeps m (put m' i v)
Keeps-put {m} {m'} i v h k = record {
  valid = put-IsValid m' i v k.valid;
  same = λ j g. put_other m' i j v (λ e. absurd (omega arith)) ∙ k.same j g;
}

Keeps-memory :
    {m m' m'' : Machine} → Keeps m m' → IsValid m'' → m''.registers ≡ m'.registers → Keeps m m''
Keeps-memory {m} {m'} {m''} k v e = record {
  valid = v;
  same = λ j g. ap (λ (rs : List ℕ). get_or rs j 0) e ∙ k.same j g;
}

-- An access leaves the registers alone.
abbrev pub IsAccess : Machine → Access × Machine → Type 0
IsAccess m r = IsValid r.1 × (r.1.registers ≡ m.registers)

read_at-IsAccess :
    (m m' : Machine) (size : ℕ) (t : Translation)
    → valid_size size ≡ true
    → IsValid m'
    → m'.registers ≡ m.registers
    → Returns (IsAccess m) (read_at size (t, m'))
read_at-IsAccess m m' size (Machine.raises e) s v r = record {
  out = (raised e, m');
  is_out = refl;
  holds = (v, r);
}
read_at-IsAccess m m' size (physical p) s v r = record {
  out = (value (widen size (load m'.main_memory p size)), m');
  is_out = rw s refl;
  holds = (v, r);
}

pub read_mem-IsAccess :
    (m : Machine) (addr size : ℕ)
    → IsValid m
    → valid_size size ≡ true
    → Returns (IsAccess m) (read_mem m addr size)
unfolding read_mem
read_mem-IsAccess m addr size v s =
    let run = translate-Runs m addr size false v s in
    rw run.returns (read_at-IsAccess m run.after size run.result s run.valid run.registers)

store-IsValid :
    (m : Machine) (p size x : ℕ)
    → IsValid m
    → IsValid (record m { main_memory = store m.main_memory p size x })
store-IsValid m p size x v = record {
  memory = length-store size p x m.main_memory ∙ v.memory;
  registers = v.registers;
  one_table = v.one_table;
}

write_at-IsAccess :
    (m m' : Machine) (size x : ℕ) (t : Translation)
    → valid_size size ≡ true
    → IsValid m'
    → m'.registers ≡ m.registers
    → Returns (IsAccess m) (write_at size x (t, m'))
write_at-IsAccess m m' size x (Machine.raises e) s v r = record {
  out = (raised e, m');
  is_out = refl;
  holds = (v, r);
}
write_at-IsAccess m m' size x (physical p) s v r = record {
  out = (value x, _);
  is_out = rw s refl;
  holds = (store-IsValid m' p size x v, r);
}

pub write_mem-IsAccess :
    (m : Machine) (addr size x : ℕ)
    → IsValid m
    → valid_size size ≡ true
    → Returns (IsAccess m) (write_mem m addr size x)
unfolding write_mem
write_mem-IsAccess m addr size x v s =
    let run = translate-Runs m addr size true v s in
    rw run.returns (write_at-IsAccess m run.after size x run.result s run.valid run.registers)

-- How the `switch` may end, from the machine `m`.
abbrev pub IsEffect : Machine → Effect → Type 0
IsEffect m (proceeds m' pc r v) = Keeps m m' × (r < 32)
IsEffect m (raises m' e addr) = Keeps m m'

loaded-IsEffect :
    (m m' : Machine) (addr : ℕ) (next : Machine → ℕ → Exec Effect) (r : Access × Machine)
    → Keeps m m'
    → ((m'' : Machine) (v : ℕ) → Keeps m m'' → Returns (IsEffect m) (next m'' v))
    → IsAccess m' r
    → Returns (IsEffect m) (loaded addr next r)
loaded-IsEffect m m' addr next (raised e, last) k f a = record {
  out = raises last e addr;
  is_out = refl;
  holds = Keeps-memory k a.0 a.1;
}
loaded-IsEffect m m' addr next (value v, last) k f a = f last v (Keeps-memory k a.0 a.1)

pub reads-IsEffect :
    (m m' : Machine) (addr size : ℕ) (next : Machine → ℕ → Exec Effect)
    → valid_size size ≡ true
    → Keeps m m'
    → ((last : Machine) (v : ℕ) → Keeps m last → Returns (IsEffect m) (next last v))
    → Returns (IsEffect m) (reads m' addr size next)
reads-IsEffect m m' addr size next s k f =
    Returns->>= (IsAccess m') (IsEffect m) (read_mem m' addr size) (loaded addr next)
      (read_mem-IsAccess m' addr size k.valid s) (λ r. loaded-IsEffect m m' addr next r k f)

effect : {m : Machine} (e : Effect) → IsEffect m e → Returns (IsEffect m) (ok e)
effect e h = record { out = e; is_out = refl; holds = h }

pub delays-IsEffect :
    {m : Machine} (m' : Machine) (r v : ℕ)
    → r < 32
    → Keeps m m'
    → Returns (IsEffect m) (delays m' r v)
delays-IsEffect m' r v h k = effect (proceeds m' (pc_after m') r v) (k, h)

pub writes-IsEffect :
    (m m' : Machine) (addr size v : ℕ)
    → valid_size size ≡ true
    → Keeps m m'
    → Returns (IsEffect m) (writes m' addr size v)
writes-IsEffect m m' addr size v s k =
    let next : Machine → ℕ → Exec Effect = λ last x. delays last 0 0 in
    Returns->>= (IsAccess m') (IsEffect m) (write_mem m' addr size v) (loaded addr next)
      (write_mem-IsAccess m' addr size v k.valid s)
      (λ r.
        loaded-IsEffect m m' addr next r k (λ last x g. delays-IsEffect last 0 0 (omega arith) g))

pub computes-IsEffect :
    {m : Machine} (r v : ℕ) → r < 34 → IsValid m → Returns (IsEffect m) (computes m r v)
computes-IsEffect {m} r v h k =
    effect (proceeds (put m r v) (pc_after m) 0 0) (Keeps-put r v h (Keeps-start k), omega arith)

pub computes_pair-IsEffect :
    {m : Machine} (lo hi : ℕ) → IsValid m → Returns (IsEffect m) (computes_pair m lo hi)
computes_pair-IsEffect {m} lo hi k =
    effect (proceeds (put (put m 33 lo) 32 hi) (pc_after m) 0 0)
      (Keeps-put 32 hi (omega arith) (Keeps-put 33 lo (omega arith) (Keeps-start k)), omega arith)

pub jumps-IsEffect :
    {m m' : Machine} (target : ℕ) → Keeps m m' → Returns (IsEffect m) (jumps m' target)
jumps-IsEffect {m} {m'} target k = effect (proceeds m' target 0 0) (k, omega arith)

pub link-Keeps : {m : Machine} (r : ℕ) → r < 32 → IsValid m → Keeps m (link m r)
link-Keeps r h k = Keeps-put r _ (omega arith) (Keeps-start k)

pub raises-IsEffect :
    {m : Machine} (e : ExceptionType) (addr : ℕ)
    → IsValid m
    → Returns (IsEffect m) (ok (raises m e addr))
raises-IsEffect {m} e addr k = effect (raises m e addr) (Keeps-start k)

-- Either way of a test.
pub if-IsEffect :
    {m : Machine} (b : Bool) (x y : Exec Effect)
    → Returns (IsEffect m) x
    → Returns (IsEffect m) y
    → Returns (IsEffect m) (if b then x else y)
if-IsEffect true x y h k = h
if-IsEffect false x y h k = k
