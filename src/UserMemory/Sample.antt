-- ===== src/UserMemory/Sample.antt =====
-- A machine to run on: one page in frame 0, with the string "hi" at its start.
use project.Prelude.{
  ℕ, ◌≡◌, false, true, arith, List, [], ◌∷◌, none, some, ◌-◌, replicate, length, length-replicate,
}
use project.Machine.{Machine, TranslationEntry, memory_size}
use project.Machine.Valid.{IsValid}

abbrev page : TranslationEntry
page = record {
  virtual_page = 0;
  physical_page = 0;
  valid = true;
  read_only = false;
  used = false;
  dirty = false;
}

pub sample_memory : List ℕ
sample_memory = b'h' ∷ b'i' ∷ 0 ∷ replicate (memory_size - 3) 1

abbrev pub sample : Machine
sample = record {
  main_memory = sample_memory;
  tlb = none;
  page_table = some (page ∷ []);
  page_table_size = 1;
  registers = replicate 40 0;
}

length-sample_memory : length sample_memory ≡ memory_size
unfolding sample_memory
length-sample_memory = omega (arith, length-replicate {A = ℕ} (memory_size - 3) 1)

pub sample-IsValid : IsValid sample
sample-IsValid = record {
  memory = length-sample_memory;
  registers = length-replicate {A = ℕ} 40 0;
  one_table = omega arith;
}
