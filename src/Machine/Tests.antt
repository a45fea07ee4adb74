-- ===== src/Machine/Tests.antt =====
-- The theorems about memory accesses, on a machine with one page in frame 5.
use project.Prelude.{
  ℕ, zero, suc, ◌≡◌, refl, ◌↔◌, false, true, arith, List, [], ◌∷◌, none, some, ok, aborted,
  replicate, length, length-replicate,
}
use project.Machine.{
  Machine, TranslationEntry, physical, value, raised, put_entry, use_entry, translate, read_mem,
  write_mem, read_register, write_register, address_error_exception, memory_size,
}
use project.Machine.Bytes.{load, store}
use project.Machine.Valid.{IsValid}
use project.Machine.Translate.{Runs, translate-Runs, marked}
use project.Machine.Grant.{Granted, translate_iff}
use project.Machine.Memory.{Paged, Disjoint, read_mem-write_mem, write_mem_isolated}

zeros : ℕ → List ℕ
zeros n = replicate n 0

length-zeros : (n : ℕ) → length (zeros n) ≡ n
unfolding zeros
length-zeros n = length-replicate n 0

abbrev page : ℕ → TranslationEntry
page frame = record {
  virtual_page = 0;
  physical_page = frame;
  valid = true;
  read_only = false;
  used = false;
  dirty = false;
}

abbrev one_page : ℕ → Machine
one_page frame = record {
  main_memory = zeros memory_size;
  tlb = none;
  page_table = some (page frame ∷ []);
  page_table_size = 1;
  registers = zeros 40;
}

one_page-IsValid : IsValid (one_page 5)
one_page-IsValid = record {
  memory = length-zeros memory_size;
  registers = length-zeros 40;
  one_table = omega arith;
}

one_page-Paged : Paged (one_page 5) (page 5 ∷ [])
one_page-Paged = record {
  memory = length-zeros memory_size;
  no_tlb = refl;
  page_table = refl;
  fits = omega arith;
}

beyond : read_mem (one_page 5) 128 1 ≡ ok (raised address_error_exception, one_page 5)
unfolding read_mem translate
beyond = refl

no_register :
    (read_register (one_page 5) 40 ≡ aborted) × (write_register (one_page 5) 40 1 ≡ aborted)
unfolding read_register write_register
no_register = (refl, refl)

abbrev after_write : Machine
after_write =
    let m = put_entry (one_page 5) 0 (marked (page 5) true) in
    record m { main_memory = store m.main_memory 648 4 0x01020304 }

write_runs : write_mem (one_page 5) 8 4 0x01020304 ≡ ok (value 0x01020304, after_write)
unfolding write_mem translate use_entry
write_runs = refl

granted :
    Granted
      (one_page 6)
      (page 6 ∷ [])
      8
      4
      false
      776
      (put_entry (one_page 6) 0 (marked (page 6) false))
granted = record {
  entry = page 6;
  aligned = refl;
  inside = omega arith;
  at = refl;
  is_valid = refl;
  writable = refl;
  frame = omega arith;
  address = refl;
  same_otherwise = refl;
}

translate-Runs_example : Runs (one_page 5) (translate (one_page 5) 8 4 true)
translate-Runs_example = translate-Runs (one_page 5) 8 4 true one_page-IsValid refl

translate_iff_example :
    (translate (one_page 5) 8 4 false ≡ ok (physical 648, one_page 5))
    ↔ Granted (one_page 5) (page 5 ∷ []) 8 4 false 648 (one_page 5)
translate_iff_example =
    translate_iff (one_page 5) (page 5 ∷ []) 8 4 false 648 (one_page 5) refl refl refl (omega arith)

read_mem-write_mem_example :
    (last : Machine) × (read_mem after_write 8 4 ≡ ok (value 0x01020304, last))
    × (last.main_memory ≡ after_write.main_memory)
read_mem-write_mem_example =
    read_mem-write_mem (one_page 5) (page 5 ∷ []) 8 4 0x01020304 0x01020304 after_write
      one_page-Paged refl write_runs

frames_differ : Disjoint (page 5 ∷ []) (page 6 ∷ [])
frames_differ zero zero e f p q = ground arith
frames_differ zero (suc j) e f p q = cc
frames_differ (suc i) j e f p q = cc

write_mem_isolated_example : load after_write.main_memory 776 4 ≡ load (zeros memory_size) 776 4
write_mem_isolated_example =
    write_mem_isolated (one_page 5) (page 5 ∷ []) 8 4 0x01020304 0x01020304 after_write (one_page 6)
      (page 6 ∷ []) 8 4 776 false (put_entry (one_page 6) 0 (marked (page 6) false)) one_page-Paged
      refl write_runs refl granted frames_differ
