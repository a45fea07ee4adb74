-- ===== src/AddrSpace/Tests.antt =====
-- The theorems about address spaces, on the empty map of frames.
use project.Prelude.{ℕ, ◌≡◌, arith, List, some, ok, length, length-replicate, replicate, ◌∙◌}
use project.Bitmap.{Bitmap}
use project.Bitmap.View.{IsValid, bit}
use project.Bitmap.Init.{init-IsClear}
use project.Bitmap.Count.{clear_count-none}
use project.Machine.{TranslationEntry, memory_size}
use project.Machine.Memory.{Disjoint}
use project.AddrSpace.{reserve, release, allocate_pages}
use project.AddrSpace.Reserve.{free_frames, entries, Reserves, reserve-Reserves}
use project.AddrSpace.Release.{release-reserve}
use project.AddrSpace.Isolation.{reserve-Disjoint}
use project.AddrSpace.{restore_state, translate_space, fresh_entry}
use project.AddrSpace.Agree.{space_of, bare, translate-translate_space}
use project.Machine.{translate}
use project.UserMemory.Sample.{sample}
use project.Prelude.{◌>>=◌, [], ◌∷◌, true, zero, suc, get_elem?}

empty_map : Bitmap
empty_map = (init-IsClear 128 (omega arith)).out

empty_map-IsValid : IsValid empty_map
unfolding empty_map
empty_map-IsValid = (init-IsClear 128 (omega arith)).valid

empty_map-size : empty_map.num_bits ≡ 128
unfolding empty_map
empty_map-size = (init-IsClear 128 (omega arith)).size

empty_map-free : free_frames empty_map ≡ 128
unfolding empty_map
empty_map-free =
    let c = init-IsClear 128 (omega arith) in rw (c.bits, c.size) (clear_count-none 128)

memory : List ℕ
memory = replicate memory_size 7

memory-size : length memory ≡ memory_size
unfolding memory
memory-size = length-replicate {A = ℕ} memory_size 7

release-reserve_example :
    (table : List TranslationEntry) × (taken : Bitmap) × (cleared : List ℕ) × (back : Bitmap)
    × (reserve 3 empty_map memory ≡ ok (some (table, taken, cleared)))
    × (release (record { page_table = some table; num_pages = 3 }) taken ≡ ok back)
    × (bit back ≡ bit empty_map)
release-reserve_example =
    release-reserve 3 empty_map memory empty_map-IsValid empty_map-size memory-size
      (omega (arith, empty_map-free))

first : Reserves 3 0 empty_map (allocate_pages 3 0 empty_map memory)
first =
    (reserve-Reserves 3 empty_map memory empty_map-IsValid empty_map-size memory-size
      (omega (arith, empty_map-free))).0

first-returns :
    reserve 3 empty_map memory ≡ ok (some (entries 0 first.frames, first.out, first.memory))
unfolding first
first-returns =
    (reserve-Reserves 3 empty_map memory empty_map-IsValid empty_map-size memory-size
      (omega (arith, empty_map-free))).1

second : Reserves 2 0 first.out (allocate_pages 2 0 first.out first.memory)
second =
    (reserve-Reserves 2 first.out first.memory first.valid (first.same_size ∙ empty_map-size)
      first.same_length (omega (arith, first.left, empty_map-free))).0

second-returns :
    reserve 2 first.out first.memory
    ≡ ok (some (entries 0 second.frames, second.out, second.memory))
unfolding second
second-returns =
    (reserve-Reserves 2 first.out first.memory first.valid (first.same_size ∙ empty_map-size)
      first.same_length (omega (arith, first.left, empty_map-free))).1

reserve-Disjoint_example : Disjoint (entries 0 first.frames) (entries 0 second.frames)
reserve-Disjoint_example =
    reserve-Disjoint 3 2 empty_map memory empty_map-IsValid empty_map-size memory-size
      (omega (arith, empty_map-free)) (entries 0 first.frames) (entries 0 second.frames) first.out
      second.out first.memory second.memory first-returns
      (omega (arith, first.left, empty_map-free)) second-returns

abbrev one_page : List TranslationEntry
one_page = fresh_entry 0 5 ∷ []

one_page-valid : (i : ℕ) (e : TranslationEntry) → get_elem? one_page i ≡ some e → e.valid ≡ true
one_page-valid zero e h = ground arith
one_page-valid (suc i) e h = cc

translate-translate_space_example :
    translate (restore_state (space_of 1 one_page) (bare sample)) 9 1 true ≡ (
      translate_space (space_of 1 one_page) 9 true >>= λ t.
      ok (t.0, restore_state t.1 (bare sample)))
translate-translate_space_example =
    translate-translate_space 1 one_page sample 9 true (omega arith) one_page-valid
