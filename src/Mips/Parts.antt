-- ===== src/Mips/Parts.antt =====
-- LWR and then LWL, as instructions: the second one finds the load of the first one under way.
mod Tests
use project.Prelude.{
  ℕ, ◌+◌, ◌-◌, ◌%◌, ◌<◌, ◌≤◌, ◌≡◌, ◌≢◌, refl, sym, ap, ◌∙◌, subst, arith, bit_and, ◌⊎◌, inl, inr,
  ok, ◌>>=◌, List, Returns, ◌==◌, true, false, get_or, if◌then◌else◌, Bool-cases,
}
use project.Bits.Mask.{bit_and-mask}
use project.Machine.{Machine, Access, value, read_mem, pc_reg, next_pc_reg, prev_pc_reg}
use project.Machine.Valid.{IsValid}
use project.Machine.Bytes.{load}
use project.Mips.OpCode.{OpCode, op_lwl, op_lwr}
use project.Mips.Decode.{decode}
use project.Mips.Word.{word, add}
use project.Mips.Cpu.{
  reg, put, load_reg, load_value_reg, pending, pc_after, merge_lwl, merge_lwr, proceeds,
}
use project.Mips.Execute.{load_part, execute, delayed_load, completed, advance, finish, run}
use project.Mips.Steps.{IsAccess, read_mem-IsAccess, put_other, Keeps-start}
use project.Mips.Retire.{IsReady, Delayed, delayed_load-Delayed, advance-Sound}
use project.Mips.Cycle.{IsReady-access}
use project.Mips.Unaligned.{AreBytes, merge_unaligned, load-lt}

-- The machine is about to run an instruction with this code, register rt and address.
pub record Loads (code : OpCode) (r addr raw : ℕ) (m : Machine) : Type 0 where
  pub op_code : (decode raw).op_code ≡ code
  pub target : (decode raw).rt ≡ r
  pub address : add (reg m (decode raw).rs) (decode raw).extra ≡ addr

-- The instruction is done, and the load of `w` into `r` is under way.
pub record UnderWay (r w : ℕ) (m : Machine) : Type 0 where
  pub ready : IsReady m
  pub into : reg m load_reg ≡ r
  pub loads : reg m load_value_reg ≡ w

advance_other : (m : Machine) (pc j : ℕ) → (j < 34) ⊎ (36 < j) → reg (advance m pc) j ≡ reg m j
advance_other m pc j h =
    let m1 = put m prev_pc_reg (reg m pc_reg) in
    let m2 = put m1 pc_reg (reg m1 next_pc_reg) in
    put_other m2 35 j pc (λ e. absurd (omega (arith, h)))
    ∙ put_other m1 34 j (reg m1 next_pc_reg) (λ e. absurd (omega (arith, h)))
    ∙ put_other m 36 j (reg m pc_reg) (λ e. absurd (omega (arith, h)))

finish_load :
    (m : Machine) (pc r w : ℕ)
    → IsReady m
    → r < 32
    → (after : Machine) × (finish (proceeds m pc r w) ≡ ok (completed after)) × UnderWay r w after
unfolding finish
finish_load m pc r w ready h =
    let last = delayed_load-Delayed m r w ready.valid ready.target in
    let d = last.holds in
    (
      advance last.out pc,
      rw last.is_out refl,
      record {
        ready = (advance-Sound m m last.out pc r w h (Keeps-start ready.valid) d).0;
        into = advance_other last.out pc 37 (inr (omega arith)) ∙ d.target;
        loads = advance_other last.out pc 38 (inr (omega arith)) ∙ d.next_value;
      },
    )

-- A read that returns this value leaves the registers alone.
accessed :
    (m m' : Machine) (addr v : ℕ)
    → IsValid m
    → read_mem m addr 4 ≡ ok (value v, m')
    → IsValid m' × (m'.registers ≡ m.registers)
accessed m m' addr v k h =
    let a = read_mem-IsAccess m addr 4 k refl in
    let e = sym a.is_out ∙ h in
    let same : a.out ≡ (value v, m') = cc in subst (IsAccess m) same a.holds

load_part-UnderWay :
    (merge : ℕ → ℕ → ℕ → ℕ) (m m' : Machine) (addr r v : ℕ)
    → IsReady m
    → r < 32
    → read_mem m (addr - addr % 4) 4 ≡ ok (value v, m')
    → (after : Machine) × ((load_part merge m addr r >>= finish) ≡ ok (completed after))
      × UnderWay r (merge (addr % 4) v (pending m r)) after
unfolding load_part
load_part-UnderWay merge m m' addr r v ready h e =
    let a = accessed m m' (addr - addr % 4) v ready.valid e in
    let same : pending m' r ≡ pending m r =
      ap (λ (rs : List ℕ). if get_or rs 37 0 == r then get_or rs 38 0 else get_or rs r 0) a.1 in
    let f =
      finish_load m' (pc_after m') r (merge (addr % 4) v (pending m' r))
        (IsReady-access m m' ready a.0 a.1) h in
    let low : bit_and addr 0x3 ≡ addr % 4 = bit_and-mask 2 addr in
    (f.0, rw (low, e) f.1, subst (λ w. UnderWay r (merge (addr % 4) v w) f.0) same f.2)

-- What the register will hold after the load that is under way.
pending_lem :
    (m n : Machine) (r w : ℕ) → UnderWay r w m → n.registers ≡ m.registers → pending n r ≡ w
pending_lem m n r w u e =
    let self : (r == r) ≡ true = ground arith in
    ap (λ (rs : List ℕ). if get_or rs 37 0 == r then get_or rs 38 0 else get_or rs r 0) e
    ∙ rw (u.into, self) u.loads

pending-lt : (m : Machine) (r : ℕ) → ((j : ℕ) → reg m j < word) → pending m r < word
pending-lt m r words = elim (Bool-cases (reg m load_reg == r)) [
  | inl e ↦ rw e (words load_value_reg)
  | inr e ↦ rw e (words r)
]

-- The next instruction lets the load arrive.
arrives :
    (m : Machine) (r w next_reg next_value : ℕ)
    → UnderWay r w m
    → 1 ≤ r
    → (after : Machine) × (delayed_load m next_reg next_value ≡ ok after) × (reg after r ≡ w)
arrives m r w next_reg next_value u some_reg =
    let d = delayed_load-Delayed m next_reg next_value u.ready.valid u.ready.target in
    (
      d.out,
      d.is_out,
      subst (λ x. 1 ≤ x → reg d.out x ≡ reg m load_value_reg) u.into d.holds.arrived some_reg
          ∙ u.loads,
    )

run_part :
    (code : OpCode) (merge : ℕ → ℕ → ℕ → ℕ) (m m' : Machine) (raw addr r v : ℕ)
    → ((m : Machine) (s t : ℕ)
        → execute code (decode raw) m s t
          ≡ load_part merge m (add s (decode raw).extra) (decode raw).rt)
    → Loads code r addr raw m
    → IsReady m
    → r < 32
    → read_mem m (addr - addr % 4) 4 ≡ ok (value v, m')
    → (after : Machine) × (run raw m ≡ ok (completed after))
      × UnderWay r (merge (addr % 4) v (pending m r)) after
unfolding run
run_part code merge m m' raw addr r v by_part l ready h e =
    let f = load_part-UnderWay merge m m' addr r v ready h e in
    let i = decode raw in
    let s = reg m i.rs in
    let t = reg m i.rt in
    let step =
      subst (λ c. execute c i m s t ≡ load_part merge m (add s i.extra) i.rt) (sym l.op_code)
        (by_part m s t) in
    (f.0, rw (step, l.address, l.target) f.1, f.2)

-- From a machine that is ready and whose registers are 32-bit words, LWR at `addr` into a register other
-- than R0 and then LWL three bytes further into the same one run to their ends, where both words
-- that they read show the same bytes `mem` of the program; between them is the fetch. The load that
-- is then under way puts into the register the four bytes from `addr` on, whatever `addr` is modulo
-- 4 and whatever the register held.
pub load_unaligned :
    (mem : List ℕ) (m m' n n' : Machine) (addr r raw raw' next_reg next_value : ℕ)
    → AreBytes mem
    → IsReady m
    → ((j : ℕ) → reg m j < word)
    → 1 ≤ r
    → r < 32
    → Loads op_lwr r addr raw m
    → read_mem m (addr - addr % 4) 4 ≡ ok (value (load mem (addr - addr % 4) 4), m')
    → ((last : Machine)
        → run raw m ≡ ok (completed last)
        → IsValid n × (n.registers ≡ last.registers))
    → Loads op_lwl r (addr + 3) raw' n
    → read_mem n (addr + 3 - (addr + 3) % 4) 4
      ≡ ok (value (load mem (addr + 3 - (addr + 3) % 4) 4), n')
    → (last : Machine) × (run raw m ≡ ok (completed last))
      × ((after : Machine) × (run raw' n ≡ ok (completed after))
          × ((end : Machine) × (delayed_load after next_reg next_value ≡ ok end)
              × (reg end r ≡ load mem addr 4)))
unfolding execute
load_unaligned mem m m' n n' addr r raw raw' next_reg next_value bytes ready words some_reg h lwr
      first fetched lwl second =
    let (last, runs, u) =
      run_part op_lwr merge_lwr m m' raw addr r _ (λ m s t. refl) lwr ready h first in
    let (valid, same) = fetched last runs in
    let (after, runs', u') =
      run_part op_lwl merge_lwl n n' raw' (addr + 3) r _ (λ m s t. refl) lwl
        (IsReady-access last n u.ready valid same) h second in
    let (end, arrived, held) = arrives after r _ next_reg next_value u' some_reg in
    (
      last,
      runs,
      (
        after,
        runs',
        (
          end,
          arrived,
          held
              ∙ ap (merge_lwl ((addr + 3) % 4) (load mem (addr + 3 - (addr + 3) % 4) 4))
                  (pending_lem last n r _ u same)
              ∙ merge_unaligned mem (pending m r) bytes (pending-lt m r words) addr,
        ),
      ),
    )
