-- ===== src/UserMemory/Counter.antt =====
-- How the program counter moves when a system call returns.
use project.Prelude.{
  ℕ, ◌+◌, ◌%◌, ◌^◌, ◌<◌, ◌≡◌, refl, ◌≢◌, ◌∙◌, sym, true, arith, Exec, ok, ltb, length,
  get_elem?-eq-get_or, get_or, set, length-set, get_or-set_self, get_or-set_ne,
}
use project.Machine.{Machine, num_total_regs, read_register, write_register}
use project.Machine.Valid.{IsValid}
use project.UserMemory.{increase_pc}
use project.Machine.{pc_reg, next_pc_reg, prev_pc_reg}

abbrev pub reg : Machine → ℕ → ℕ
reg m i = get_or m.registers i 0

abbrev pub with_reg : Machine → ℕ → ℕ → Machine
with_reg m i v = record m { registers = set m.registers i v }

pub read_register-ok :
    (m : Machine) (i : ℕ)
    → length m.registers ≡ num_total_regs
    → i < num_total_regs
    → read_register m i ≡ ok (reg m i)
unfolding read_register
read_register-ok m i s h =
    let e : ltb i num_total_regs ≡ true = ground arith in
    let e' = get_elem?-eq-get_or m.registers i 0 (omega (arith, s)) in rw (e, e') refl

pub write_register-ok :
    (m : Machine) (i v : ℕ) → i < num_total_regs → write_register m i v ≡ ok (with_reg m i v)
unfolding write_register
write_register-ok m i v h = let e : ltb i num_total_regs ≡ true = ground arith in rw e refl

pub record Advances (m : Machine) (r : Exec Machine) : Type 0 where
  pub after : Machine
  pub returns : r ≡ ok after
  pub prev : reg after prev_pc_reg ≡ reg m pc_reg
  pub counter : reg after pc_reg ≡ reg m next_pc_reg
  pub next : reg after next_pc_reg ≡ (reg m next_pc_reg + 4) % 2 ^ 32
  pub others : (i : ℕ) → i ≢ prev_pc_reg → i ≢ pc_reg → i ≢ next_pc_reg → reg after i ≡ reg m i
  pub memory : after.main_memory ≡ m.main_memory
  pub valid : IsValid after

-- On a valid machine, `IncreasePC` returns: the previous counter is what the counter was, the counter
-- what the next one was, and the next one four more; no other register changes, nor memory.
pub increase_pc-Advances : (m : Machine) → IsValid m → Advances m (increase_pc m)
unfolding increase_pc
increase_pc-Advances m v =
    let m₁ = with_reg m prev_pc_reg (reg m pc_reg) in
    let m₂ = with_reg m₁ pc_reg (reg m₁ next_pc_reg) in
    let s₁ : length m₁.registers ≡ num_total_regs =
      length-set m.registers prev_pc_reg _ ∙ v.registers in
    let s₂ : length m₂.registers ≡ num_total_regs = length-set m₁.registers pc_reg _ ∙ s₁ in
    let n₁ : reg m₁ next_pc_reg ≡ reg m next_pc_reg =
      get_or-set_ne m.registers prev_pc_reg next_pc_reg _ 0 (omega arith) in
    let c₂ : reg m₂ pc_reg ≡ reg m₁ next_pc_reg =
      get_or-set_self m₁.registers pc_reg _ 0 (omega (arith, s₁)) in
    record {
      after = with_reg m₂ next_pc_reg ((reg m₂ pc_reg + 4) % 2 ^ 32);
      returns =
          rw
            (
              read_register-ok m pc_reg v.registers (omega arith),
              write_register-ok m prev_pc_reg (reg m pc_reg) (omega arith),
              read_register-ok m₁ next_pc_reg s₁ (omega arith),
              write_register-ok m₁ pc_reg (reg m₁ next_pc_reg) (omega arith),
              read_register-ok m₂ pc_reg s₂ (omega arith),
              write_register-ok m₂ next_pc_reg ((reg m₂ pc_reg + 4) % 2 ^ 32) (omega arith),
            )
            refl;
      prev =
          get_or-set_ne m₂.registers next_pc_reg prev_pc_reg _ 0 (omega arith)
          ∙ get_or-set_ne m₁.registers pc_reg prev_pc_reg _ 0 (omega arith)
          ∙ get_or-set_self m.registers prev_pc_reg _ 0 (omega (arith, v.registers));
      counter = get_or-set_ne m₂.registers next_pc_reg pc_reg _ 0 (omega arith) ∙ c₂ ∙ n₁;
      next = get_or-set_self m₂.registers next_pc_reg _ 0 (omega (arith, s₂)) ∙ rw (c₂, n₁) refl;
      others = λ i a b c.
          get_or-set_ne m₂.registers next_pc_reg i _ 0 (λ e. c (sym e))
          ∙ get_or-set_ne m₁.registers pc_reg i _ 0 (λ e. b (sym e))
          ∙ get_or-set_ne m.registers prev_pc_reg i _ 0 (λ e. a (sym e));
      memory = refl;
      valid = record {
        memory = v.memory;
        registers = length-set m₂.registers next_pc_reg _ ∙ s₂;
        one_table = v.one_table;
      };
    }
