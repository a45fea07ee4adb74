-- ===== src/Machine/Valid.antt =====
-- The states of the machine in which a user program runs.
use project.Prelude.{ℕ, ◌≤◌, ◌≡◌, refl, List, Option, none, some, arith, length, length-set}
use project.Machine.{Machine, TranslationEntry, memory_size, put_entry, num_total_regs}

-- Exactly one of the two tables is there, and the page table is as long as it says.
abbrev pub OneTable : Option (List TranslationEntry) → Option (List TranslationEntry) → ℕ → Type 0
OneTable (some tlb) (some table) size = ⊥
OneTable none none size = ⊥
OneTable none (some table) size = size ≤ length table
OneTable (some tlb) none size = Unit {0}

pub record IsValid (m : Machine) : Type 0 where
  pub memory : length m.main_memory ≡ memory_size
  pub registers : length m.registers ≡ num_total_regs
  pub one_table : OneTable m.tlb m.page_table m.page_table_size

OneTable-set :
    (tlb table : Option (List TranslationEntry)) (size i : ℕ) (e : TranslationEntry) (m : Machine)
    → m.tlb ≡ tlb
    → m.page_table ≡ table
    → m.page_table_size ≡ size
    → OneTable tlb table size
    → OneTable (put_entry m i e).tlb (put_entry m i e).page_table size
OneTable-set (some tlb) (some table) size i e m p q r h = absurd h
OneTable-set none none size i e m p q r h = absurd h
OneTable-set none (some table) size i e m p q r h = rw (p, q) (omega (arith, length-set table i e))
OneTable-set (some tlb) none size i e m p q r h = rw (p, q) tt

-- Writing an entry back keeps the machine valid.
pub put_entry-IsValid :
    {m : Machine} (i : ℕ) (e : TranslationEntry) → IsValid m → IsValid (put_entry m i e)
put_entry-IsValid {m} i e v = record {
  memory = v.memory;
  registers = v.registers;
  one_table = OneTable-set m.tlb m.page_table m.page_table_size i e m refl refl refl v.one_table;
}
