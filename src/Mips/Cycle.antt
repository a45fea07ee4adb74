-- ===== src/Mips/Cycle.antt =====
-- One round of the processor: the fetch, the instruction and its end.
use project.Prelude.{
  ℕ, ◌≡◌, refl, ◌∙◌, ap, true, false, List, ◌⊎◌, inl, inr, arith, ok, undefined, Returns,
  Returns->>=, ◌==◌, get_or, Bool-cases,
}
use project.Machine.{Machine, Access, value, raised, read_mem}
use project.Machine.Valid.{IsValid}
use project.Mips.OpCode.{OpCode, op_div}
use project.Mips.Decode.{Instruction, decode}
use project.Mips.Decoded.{decode-IsDecoded}
use project.Mips.Cpu.{reg}
use project.Machine.{pc_reg}
use project.Mips.Steps.{IsEffect, read_mem-IsAccess}
use project.Mips.Safe.{host_traps, execute-IsEffect}
use project.Mips.Retire.{IsReady, Sound, raise_exception-Sound, finish-Sound}
use project.Mips.Execute.{
  divide, execute, Outcome, completed, trapped, finish, run, fetched, one_instruction,
}

same_reg : (m m' : Machine) (j : ℕ) → m'.registers ≡ m.registers → reg m' j ≡ reg m j
same_reg m m' j e = ap (λ (rs : List ℕ). get_or rs j 0) e

Sound-registers :
    (m m' : Machine) (o : Outcome) → m'.registers ≡ m.registers → Sound m' o → Sound m o
Sound-registers m m' (completed last) e h =
    (h.0, h.1 ∙ same_reg m m' 35 e, h.2 ∙ same_reg m m' 34 e)
Sound-registers m m' (trapped x last) e h =
    (h.0, h.1 ∙ same_reg m m' 34 e, h.2 ∙ same_reg m m' 35 e, h.3)

pub IsReady-access :
    (m m' : Machine) → IsReady m → IsValid m' → m'.registers ≡ m.registers → IsReady m'
IsReady-access m m' h v e = record {
  valid = v;
  zero_reg = same_reg m m' 0 e ∙ h.zero_reg;
  target = omega (arith, same_reg m m' 37 e, h.target);
}

-- The instruction that is fetched divides the least `int` by -1.
pub record DividesOut (m : Machine) : Type 0 where
  pub raw : ℕ
  pub after : Machine
  pub fetch : read_mem m (reg m pc_reg) 4 ≡ ok (value raw, after)
  pub divides :
      host_traps (decode raw).op_code (reg after (decode raw).rs) (reg after (decode raw).rt) ≡ true

execute_traps :
    (c : OpCode) (i : Instruction) (m : Machine) (s t : ℕ)
    → host_traps c s t ≡ true
    → execute c i m s t ≡ undefined
unfolding execute divide
execute_traps op_div i m s t h =
    let nonzero : (t == 0) ≡ false = ground arith in rw (nonzero, h) refl
execute_traps _ i m s t h = cc

run-Sound :
    (raw : ℕ) (m : Machine)
    → IsReady m
    → host_traps (decode raw).op_code (reg m (decode raw).rs) (reg m (decode raw).rt) ≡ false
    → Returns (Sound m) (run raw m)
unfolding run
run-Sound raw m h t =
    let d = decode-IsDecoded raw in
    let i = decode raw in
    Returns->>= (IsEffect m) (Sound m) (execute i.op_code i m (reg m i.rs) (reg m i.rt)) finish
      (execute-IsEffect i.op_code i m (reg m i.rs) (reg m i.rt)
        (record { rs = d.rs; rt = d.rt; rd = d.rd; executable = d.executable }) h.valid t)
      (λ e. finish-Sound m e h)

fetched-Sound :
    (m : Machine) (a : Access) (m' : Machine)
    → IsReady m
    → IsValid m'
    → m'.registers ≡ m.registers
    → read_mem m (reg m pc_reg) 4 ≡ ok (a, m')
    → Returns (Sound m) (fetched (reg m pc_reg) (a, m'))
      ⊎ (DividesOut m × (fetched (reg m pc_reg) (a, m') ≡ undefined))
unfolding run
fetched-Sound m (raised e) m' h v r at = inl (
    raise_exception-Sound m m' e (reg m pc_reg) h
      (record { valid = v; same = λ j l. same_reg m m' j r }))
fetched-Sound m (value raw) m' h v r at =
    let i = decode raw in
    elim (Bool-cases (host_traps i.op_code (reg m' i.rs) (reg m' i.rt))) [
      | inl t ↦ inr (
        record { raw = raw; after = m'; fetch = at; divides = t },
        rw (execute_traps i.op_code i m' (reg m' i.rs) (reg m' i.rt) t) refl,
      )
      | inr t ↦
          let s = run-Sound raw m' (IsReady-access m m' h v r) t in
          inl (record {
            out = s.out;
            is_out = s.is_out;
            holds = Sound-registers m m' s.out r s.holds;
          })
    ]

-- On a machine that is ready, `OneInstruction` returns, whatever the program: it completes, with the
-- program counters moved on, or it traps with the program counters where they were; either way the
-- machine is ready again, with R0 zero. The one exception is an instruction that divides the least
-- `int` by -1, and there the behaviour of the simulator is undefined.
pub one_instruction-Sound :
    (m : Machine)
    → IsReady m
    → Returns (Sound m) (one_instruction m) ⊎ (DividesOut m × (one_instruction m ≡ undefined))
unfolding one_instruction
one_instruction-Sound m h =
    let r = read_mem-IsAccess m (reg m pc_reg) 4 h.valid refl in
    rw r.is_out (fetched-Sound m r.out.0 r.out.1 h r.holds.0 r.holds.1 r.is_out)
