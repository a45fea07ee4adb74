-- ===== src/FileHeader/Deallocate.antt =====
-- `FileHeader::Deallocate`, and that it undoes `Allocate`.
use project.Prelude.{
  ℕ, ◌+◌, ◌≤◌, ◌≡◌, refl, ◌∙◌, ap, true, false, List, [], ◌∷◌, pos, Exec, ok, length,
}
use project.Bitmap.{Bitmap, clear}
use project.Bitmap.View.{IsValid, bit, Updates}
use project.Bitmap.Laws.{test_lem, clear-Updates}
use project.FileHeader.{
  FileHeader, num_direct, max_file_size, allocate, deallocate_from, deallocate,
}
use project.Bitmap.Marks.{clear_all, clear_all-mark_all, Each, Each-mark_all, Each-tail}
use project.FileHeader.Sectors.{Holds}
use project.FileHeader.Allocate.{Allocates, free_sectors, sectors_for, sized, allocate-Allocates}

-- `r` is a normal return of the free map with the listed sectors cleared.
pub record Clears (free : Bitmap) (sectors : List ℕ) (r : Exec Bitmap) : Type 0 where
  pub out : Bitmap
  pub returns : r ≡ ok out
  pub valid : IsValid out
  pub same_size : out.num_bits ≡ free.num_bits
  pub bits : bit out ≡ clear_all sectors (bit free)

deallocate_from_step :
    (x : ℕ) (xs : List ℕ) (i : ℕ) (h : FileHeader) (free : Bitmap)
    → IsValid free
    → Holds h.data_sectors i (x ∷ xs)
    → Each free.num_bits true (bit free) (x ∷ xs)
    → (u : Updates free x false (clear free (pos x)))
    → Clears u.out xs (deallocate_from h u.out (length xs) (i + 1))
    → Clears free (x ∷ xs) (deallocate_from h free (length (x ∷ xs)) i)
unfolding deallocate_from clear_all
deallocate_from_step x xs i h free v s e u rest = record {
  out = rest.out;
  returns = rw (s.0, test_lem x v e.0, e.1, u.returns) rest.returns;
  valid = rest.valid;
  same_size = rest.same_size ∙ u.same_size;
  bits = rest.bits ∙ ap (clear_all xs) u.bits;
}

pub deallocate_from-Clears :
    (sectors : List ℕ) (i : ℕ) (h : FileHeader) (free : Bitmap)
    → IsValid free
    → Holds h.data_sectors i sectors
    → Each free.num_bits true (bit free) sectors
    → Clears free sectors (deallocate_from h free (length sectors) i)
unfolding deallocate_from clear_all
deallocate_from-Clears [] i h free v s e = record {
  out = free;
  returns = refl;
  valid = v;
  same_size = refl;
  bits = refl;
}
deallocate_from-Clears (x ∷ xs) i h free v s e =
    let u : Updates free x false (clear free (pos x)) = clear-Updates x v e.0 in
    deallocate_from_step x xs i h free v s e u (
      deallocate_from-Clears xs (i + 1) h u.out u.valid s.1
        (rw (u.same_size, u.bits) (Each-tail free.num_bits (bit free) x xs e)))

-- On a well-formed free map with enough clear bits, a header with `NumDirect` sectors and for a size of
-- at most `MaxFileSize`: `Allocate` succeeds, `Deallocate` of the header passes its assertions and
-- gives the free map back bit for bit.
pub deallocate-allocate :
    (h : FileHeader) (free : Bitmap) (size : ℕ)
    → IsValid free
    → length h.data_sectors ≡ num_direct
    → size ≤ max_file_size
    → sectors_for size ≤ free_sectors free
    → (h' : FileHeader) × (taken : Bitmap) × (back : Bitmap) × (allocate h free size
        ≡ ok (true, h', taken))
      × (deallocate h' taken ≡ ok back)
      × (bit back ≡ bit free)
unfolding deallocate
deallocate-allocate h free size v len small room = (
  a.header,
  a.out,
  d.out,
  a.returns,
  rw (a.same_fields.1, ← a.count) d.returns,
  d.bits
      ∙ ap (clear_all a.sectors) a.bits
      ∙ clear_all-mark_all free.num_bits (bit free) a.sectors a.fresh,
)
  where
    a : Allocates (sized h size) free (sectors_for size) 0 (allocate h free size)
    a = allocate-Allocates h free size v len small room

    d : Clears a.out a.sectors (deallocate_from a.header a.out (length a.sectors) 0)
    d =
        deallocate_from-Clears a.sectors 0 a.header a.out a.valid a.stored
          (rw (a.same_size, a.bits) (Each-mark_all free.num_bits (bit free) a.sectors a.fresh))
