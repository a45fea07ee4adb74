-- ===== src/FileHeader/Allocate.antt =====
-- `FileHeader::Allocate`: what it takes from the free map, and where it fails.
use project.Prelude.{
  ℕ, zero, suc, ◌+◌, ◌≤◌, ◌<◌, ◌≡◌, refl, ◌∙◌, ap, Bool, true, false, arith, List, [], ◌∷◌, pos,
  Exec, ok, undefined, Bool-cases, inl, inr, ltb, lt→ltb, le→not_ltb, length, get_elem?, set,
  length-set, get_elem?-set_self, get_elem?-set_ne,
}
use project.Bitmap.{Bitmap, div_round_up, find_and_set}
use project.Bitmap.View.{IsValid, bit, clear_count}
use project.Bitmap.Find.{Found}
use project.Bitmap.Count.{num_clear_lem, find_and_set-Found, find_takes_one}
use project.FileHeader.{FileHeader, sector_size, num_direct, max_file_size, allocate_from, allocate}
use project.Bitmap.Marks.{mark_all, Each, Each-cons}
use project.FileHeader.Sectors.{Holds}

abbrev pub free_sectors : Bitmap → ℕ
free_sectors free = clear_count (bit free) free.num_bits

-- `r` is a normal return with `n` sectors, clear before and distinct, marked in the free map and
-- stored in the header from index `i` on; nothing else has changed.
pub record Allocates (h : FileHeader) (free : Bitmap) (n i : ℕ)
    (r : Exec (Bool × FileHeader × Bitmap)) : Type 0 where
  pub sectors : List ℕ
  pub header : FileHeader
  pub out : Bitmap
  pub returns : r ≡ ok (true, header, out)
  pub count : length sectors ≡ n
  pub fresh : Each free.num_bits false (bit free) sectors
  pub valid : IsValid out
  pub same_size : out.num_bits ≡ free.num_bits
  pub bits : bit out ≡ mark_all sectors (bit free)
  pub stored : Holds header.data_sectors i sectors
  pub below : (j : ℕ) → j < i → get_elem? header.data_sectors j ≡ get_elem? h.data_sectors j
  pub same_length : length header.data_sectors ≡ length h.data_sectors
  pub same_fields : (header.num_bytes ≡ h.num_bytes) × (header.num_sectors ≡ h.num_sectors)

-- The header once `sector` stands at index `i`.
abbrev stored_at : FileHeader → ℕ → ℕ → FileHeader
stored_at h i sector = record h { data_sectors = set h.data_sectors i (pos sector) }

allocate_from_step :
    (n i : ℕ) (h : FileHeader) (free : Bitmap)
    → i < length h.data_sectors
    → (f : Found free 0 (find_and_set free))
    → Allocates
        (stored_at h i f.at)
        f.out
        n
        (i + 1)
        (allocate_from (stored_at h i f.at) f.out n (i + 1))
    → Allocates h free (suc n) i (allocate_from h free (suc n) i)
unfolding allocate_from
allocate_from_step n i h free inside f rest = record {
  sectors = f.at ∷ rest.sectors;
  header = rest.header;
  out = rest.out;
  returns = rw (f.returns, lt→ltb i (length h.data_sectors) (omega arith)) rest.returns;
  count = ap suc rest.count;
  fresh =
      Each-cons free.num_bits (bit free) f.at rest.sectors f.in_range f.was_clear
        (rw (f.bits, f.same_size) at rest.fresh);
  valid = rest.valid;
  same_size = rest.same_size ∙ f.same_size;
  bits = unfold mark_all in (rest.bits ∙ ap (mark_all rest.sectors) f.bits);
  stored = (
    rest.below i (omega arith) ∙ get_elem?-set_self h.data_sectors i (pos f.at) (omega arith),
    rest.stored,
  );
  below = λ j p.
      rest.below j (omega arith) ∙ get_elem?-set_ne h.data_sectors i j (pos f.at) (omega arith);
  same_length = rest.same_length ∙ length-set h.data_sectors i (pos f.at);
  same_fields = rest.same_fields;
}

allocate_from-Allocates :
    (n i : ℕ) (h : FileHeader) (free : Bitmap)
    → IsValid free
    → n ≤ free_sectors free
    → i + n ≤ length h.data_sectors
    → Allocates h free n i (allocate_from h free n i)
unfolding allocate_from
allocate_from-Allocates zero i h free v room fits = record {
  sectors = [];
  header = h;
  out = free;
  returns = refl;
  count = refl;
  fresh = tt;
  valid = v;
  same_size = refl;
  bits = unfold mark_all in refl;
  stored = tt;
  below = λ j p. refl;
  same_length = refl;
  same_fields = (refl, refl);
}
allocate_from-Allocates (suc n) i h free v room fits =
    let f : Found free 0 (find_and_set free) = find_and_set-Found free v (omega arith) in
    allocate_from_step n i h free (omega arith) f (
      allocate_from-Allocates n (i + 1) (stored_at h i f.at) f.out f.valid
        (omega (arith, find_takes_one f)) (omega (arith, length-set h.data_sectors i (pos f.at))))

abbrev pub sectors_for : ℕ → ℕ
sectors_for size = div_round_up size sector_size

-- `h` as `Allocate` leaves it before the loop.
abbrev pub sized : FileHeader → ℕ → FileHeader
sized h size = record h { num_bytes = size; num_sectors = sectors_for size }

-- Of a file that fits the header, `Allocate` takes exactly the sectors that its bytes need:
-- distinct, free before, marked now and listed in the header in order; no other bit changes.
pub allocate-Allocates :
    (h : FileHeader) (free : Bitmap) (size : ℕ)
    → IsValid free
    → length h.data_sectors ≡ num_direct
    → size ≤ max_file_size
    → sectors_for size ≤ free_sectors free
    → Allocates (sized h size) free (sectors_for size) 0 (allocate h free size)
unfolding allocate
allocate-Allocates h free size v len small room =
    rw (num_clear_lem free v, le→not_ltb (free_sectors free) (sectors_for size) room)
      (allocate_from-Allocates (sectors_for size) 0 (sized h size) free v room (ground arith))

-- Without room `Allocate` returns FALSE and leaves the free map alone.
pub allocate_no_room :
    (h : FileHeader) (free : Bitmap) (size : ℕ)
    → IsValid free
    → free_sectors free < sectors_for size
    → allocate h free size ≡ ok (false, sized h size, free)
unfolding allocate
allocate_no_room h free size v full =
    rw (num_clear_lem free v, lt→ltb (free_sectors free) (sectors_for size) full)

allocate_from_overflow :
    (n i : ℕ) (h : FileHeader) (free : Bitmap)
    → IsValid free
    → n ≤ free_sectors free
    → length h.data_sectors < i + n
    → i ≤ length h.data_sectors
    → allocate_from h free n i ≡ undefined
unfolding allocate_from
allocate_from_overflow zero i h free v room over at = absurd (omega arith)
allocate_from_overflow (suc n) i h free v room over at =
    let f : Found free 0 (find_and_set free) = find_and_set-Found free v (omega arith) in
    rw f.returns (elim (Bool-cases (ltb i (length h.data_sectors))) [
      | inl inside ↦ rw inside (
          allocate_from_overflow n (i + 1) (stored_at h i f.at) f.out f.valid
            (omega (arith, find_takes_one f))
            (omega (arith, length-set h.data_sectors i (pos f.at)))
            (ground (arith, length-set h.data_sectors i (pos f.at))))
      | inr outside ↦ rw outside
    ])

-- A file of more than `MaxFileSize` bytes is not refused: where the disk has room, the loop writes
-- past the end of `dataSectors`.
pub allocate_overflow :
    (h : FileHeader) (free : Bitmap) (size : ℕ)
    → IsValid free
    → length h.data_sectors ≡ num_direct
    → max_file_size < size
    → sectors_for size ≤ free_sectors free
    → allocate h free size ≡ undefined
unfolding allocate
allocate_overflow h free size v len large room =
    rw (num_clear_lem free v, le→not_ltb (free_sectors free) (sectors_for size) room)
      (allocate_from_overflow (sectors_for size) 0 (sized h size) free v room (ground arith)
        (omega arith))
