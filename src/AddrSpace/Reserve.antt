-- ===== src/AddrSpace/Reserve.antt =====
-- What the loader takes from the map of frames, and that the destructor gives it back.
use project.Prelude.{
  ℕ, zero, suc, ◌+◌, ◌*◌, ◌≤◌, ◌<◌, ◌≡◌, refl, ◌∙◌, ap, true, false, arith, List, [], ◌∷◌, none,
  some, pos, Exec, ok, leb, lt→ltb, le→not_ltb, length, length-set, replicate, set,
}
use project.Bitmap.{Bitmap, find_and_set}
use project.Bitmap.View.{IsValid, bit, clear_count}
use project.Bitmap.Find.{Found}
use project.Bitmap.Count.{num_clear_lem, find_and_set-Found, find_takes_one}
use project.Bitmap.Marks.{mark_all, Each, Each-cons}
use project.Machine.{TranslationEntry, page_size, num_phys_pages, memory_size}
use project.AddrSpace.{write_bytes, copy_to, fresh_entry, zero_frame, allocate_pages, reserve}

abbrev pub free_frames : Bitmap → ℕ
free_frames map = clear_count (bit map) map.num_bits

-- The entries that the loader makes for a list of frames, from page `i` on.
abbrev pub entries : ℕ → List ℕ → List TranslationEntry
entries i [] = []
entries i (f ∷ frames) = fresh_entry i f ∷ entries (i + 1) frames

length-write_bytes :
    (mem : List ℕ) (p : ℕ) (bytes : List ℕ) → length (write_bytes mem p bytes) ≡ length mem
unfolding write_bytes
length-write_bytes mem p [] = refl
length-write_bytes mem p (b ∷ bytes) =
    length-write_bytes (set mem p b) (p + 1) bytes ∙ length-set mem p b

-- A frame of the machine is inside the memory.
frame_inside :
    (f : ℕ) (mem : List ℕ)
    → f < num_phys_pages
    → length mem ≡ memory_size
    → zero_frame (pos f) mem ≡ ok (f, write_bytes mem (f * page_size) (replicate page_size 0))
unfolding zero_frame copy_to
frame_inside f mem h m =
    let e : leb (f * page_size + length (replicate {A = ℕ} page_size 0)) (length mem) ≡ true =
      ground (arith, m) in
    rw e refl

-- `n` frames that were clear and are distinct, marked now, and a page table of them in order.
pub record Reserves (n i : ℕ) (map : Bitmap) (r : Exec (List TranslationEntry × Bitmap × List ℕ))
    : Type 0 where
  pub frames : List ℕ
  pub out : Bitmap
  pub memory : List ℕ
  pub returns : r ≡ ok (entries i frames, out, memory)
  pub count : length frames ≡ n
  pub fresh : Each map.num_bits false (bit map) frames
  pub valid : IsValid out
  pub same_size : out.num_bits ≡ map.num_bits
  pub bits : bit out ≡ mark_all frames (bit map)
  pub same_length : length memory ≡ memory_size
  pub left : free_frames out + n ≡ free_frames map

step :
    (n i : ℕ) (map : Bitmap) (mem : List ℕ)
    → map.num_bits ≡ num_phys_pages
    → length mem ≡ memory_size
    → (f : Found map 0 (find_and_set map))
    → Reserves n (i + 1) f.out (
        allocate_pages n (i + 1) f.out (write_bytes mem (f.at * page_size) (replicate page_size 0)))
    → Reserves (suc n) i map (allocate_pages (suc n) i map mem)
unfolding allocate_pages
step n i map mem size len f rest = record {
  frames = f.at ∷ rest.frames;
  out = rest.out;
  memory = rest.memory;
  returns =
      rw (f.returns, frame_inside f.at mem (omega (arith, f.in_range, size)) len, rest.returns)
        refl;
  count = ap suc rest.count;
  fresh =
      Each-cons map.num_bits (bit map) f.at rest.frames f.in_range f.was_clear
        (rw (f.bits, f.same_size) at rest.fresh);
  valid = rest.valid;
  same_size = rest.same_size ∙ f.same_size;
  bits = unfold mark_all in (rest.bits ∙ ap (mark_all rest.frames) f.bits);
  same_length = rest.same_length;
  left = omega (arith, rest.left, find_takes_one f);
}

allocate_pages-Reserves :
    (n i : ℕ) (map : Bitmap) (mem : List ℕ)
    → IsValid map
    → map.num_bits ≡ num_phys_pages
    → length mem ≡ memory_size
    → n ≤ free_frames map
    → Reserves n i map (allocate_pages n i map mem)
unfolding allocate_pages
allocate_pages-Reserves zero i map mem v size len room = record {
  frames = [];
  out = map;
  memory = mem;
  returns = refl;
  count = refl;
  fresh = tt;
  valid = v;
  same_size = refl;
  bits = unfold mark_all in refl;
  same_length = len;
  left = omega arith;
}
allocate_pages-Reserves (suc n) i map mem v size len room =
    let f : Found map 0 (find_and_set map) = find_and_set-Found map v (omega arith) in
    step n i map mem size len f (
      allocate_pages-Reserves n (i + 1) f.out
        (write_bytes mem (f.at * page_size) (replicate page_size 0)) f.valid (f.same_size ∙ size)
        (length-write_bytes mem (f.at * page_size) (replicate page_size 0) ∙ len)
        (omega (arith, find_takes_one f)))

-- A valid map of the machine's frames with `n` clear: the loader takes exactly `n` of them, distinct
-- and clear before, marks them and no other, and its page table maps page `k` to the `k`-th of them.
pub reserve-Reserves :
    (n : ℕ) (map : Bitmap) (mem : List ℕ)
    → IsValid map
    → map.num_bits ≡ num_phys_pages
    → length mem ≡ memory_size
    → n ≤ free_frames map
    → (s : Reserves n 0 map (allocate_pages n 0 map mem)) × (reserve n map mem
        ≡ ok (some (entries 0 s.frames, s.out, s.memory)))
unfolding reserve
reserve-Reserves n map mem v size len room =
    let s = allocate_pages-Reserves n 0 map mem v size len room in
    (s, rw (num_clear_lem map v, le→not_ltb (free_frames map) n room, s.returns) refl)

-- With fewer clear frames than pages the loader takes none.
pub reserve_no_room :
    (n : ℕ) (map : Bitmap) (mem : List ℕ)
    → IsValid map
    → free_frames map < n
    → reserve n map mem ≡ ok none
unfolding reserve
reserve_no_room n map mem v full = rw (num_clear_lem map v, lt→ltb (free_frames map) n full) refl
