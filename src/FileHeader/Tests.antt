-- ===== src/FileHeader/Tests.antt =====
-- The theorems about file headers on a small free map.
use project.Prelude.{◌≡◌, refl, true, arith, [], ◌∷◌, pos, minus_one, ok, undefined, replicate}
use project.Bitmap.{Bitmap}
use project.Bitmap.View.{IsValid, bit}
use project.Bitmap.Init.{init-IsClear}
use project.Bitmap.Count.{clear_count-none}
use project.FileHeader.{FileHeader, allocate, deallocate, byte_to_sector, file_length}
use project.FileHeader.Allocate.{
  Allocates, free_sectors, sized, allocate-Allocates, allocate_overflow,
}
use project.FileHeader.Deallocate.{deallocate-allocate}

abbrev blank : FileHeader
blank = record { num_bytes = 0; num_sectors = 0; data_sectors = replicate 30 minus_one }

-- A free map of 40 sectors, none taken.
free_map : Bitmap
free_map = (init-IsClear 40 (omega arith)).out

free_map-IsValid : IsValid free_map
unfolding free_map
free_map-IsValid = (init-IsClear 40 (omega arith)).valid

free_map-free : free_sectors free_map ≡ 40
unfolding free_map
free_map-free = let c = init-IsClear 40 (omega arith) in rw (c.bits, c.size) (clear_count-none 40)

second_sector : byte_to_sector (record blank { data_sectors = pos 7 ∷ pos 9 ∷ [] }) 130 ≡ ok (pos 9)
unfolding byte_to_sector
second_sector = refl

length_of_blank : file_length blank ≡ 0
unfolding file_length
length_of_blank = refl

allocate-Allocates_example : Allocates (sized blank 200) free_map 2 0 (allocate blank free_map 200)
allocate-Allocates_example =
    allocate-Allocates blank free_map 200 free_map-IsValid refl (omega arith)
      (omega (arith, free_map-free))

allocate_overflow_example : allocate blank free_map 4000 ≡ undefined
allocate_overflow_example =
    allocate_overflow blank free_map 4000 free_map-IsValid refl (omega arith)
      (omega (arith, free_map-free))

deallocate-allocate_example :
    (h' : FileHeader) × (taken : Bitmap) × (back : Bitmap) × (allocate blank free_map 200
      ≡ ok (true, h', taken))
    × (deallocate h' taken ≡ ok back)
    × (bit back ≡ bit free_map)
deallocate-allocate_example =
    deallocate-allocate blank free_map 200 free_map-IsValid refl (omega arith)
      (omega (arith, free_map-free))
