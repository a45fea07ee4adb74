-- ===== src/AddrSpace/Release.antt =====
-- The destructor gives back the frames of the page table, and two address spaces share none.
use project.Prelude.{
  ℕ, zero, suc, ◌+◌, ◌≤◌, ◌≡◌, refl, ◌∙◌, ap, subst, true, false, arith, List, [], ◌∷◌, Option,
  none, some, pos, Exec, ok, length, get_elem?,
}
use project.Bitmap.{Bitmap, clear}
use project.Bitmap.View.{IsValid, bit, Updates}
use project.Bitmap.Laws.{clear-Updates}
use project.Bitmap.Marks.{clear_all, clear_all-mark_all, Each, Each-mark_all, Each-tail}
use project.Machine.{TranslationEntry, num_phys_pages, memory_size}
use project.AddrSpace.{fresh_entry, reserve, release_from, release}
use project.AddrSpace.Reserve.{free_frames, entries, reserve-Reserves}

-- The table has these frames at its entries from `i` on.
abbrev Holds : List TranslationEntry → ℕ → List ℕ → Type 0
Holds table i [] = Unit {0}
Holds table i (f ∷ frames) =
    ((e : TranslationEntry) × (get_elem? table i ≡ some e) × (e.physical_page ≡ f))
    × Holds table (i + 1) frames

abbrev HasFrame : List TranslationEntry → ℕ → ℕ → Type 0
HasFrame table i f = (e : TranslationEntry) × (get_elem? table i ≡ some e) × (e.physical_page ≡ f)

Holds-of :
    (table : List TranslationEntry) (i : ℕ) (frames : List ℕ)
    → ((k f : ℕ) → get_elem? frames k ≡ some f → HasFrame table (i + k) f)
    → Holds table i frames
Holds-of table i [] h = tt
Holds-of table i (f ∷ frames) h = (
  subst (λ j. HasFrame table j f) (omega arith) (h 0 f refl),
  Holds-of table (i + 1) frames
      (λ k g p. subst (λ j. HasFrame table j g) (omega arith) (h (suc k) g p)),
)

entries-at :
    (i k f : ℕ) (frames : List ℕ) → get_elem? frames k ≡ some f → HasFrame (entries i frames) k f
entries-at i k f [] p = absurd (cc)
entries-at i zero f (x ∷ frames) p = (fresh_entry i x, refl, ap frame_or p)
  where
    frame_or : Option ℕ → ℕ
    frame_or none = 0
    frame_or (some y) = y
entries-at i (suc k) f (x ∷ frames) p = entries-at (i + 1) k f frames p

entries-Holds : (frames : List ℕ) → Holds (entries 0 frames) 0 frames
entries-Holds frames = Holds-of (entries 0 frames) 0 frames (λ k f p.
    subst (λ j. HasFrame (entries 0 frames) j f) (omega arith) (entries-at 0 k f frames p))

-- `r` is a normal return of the map with the listed frames cleared.
pub record Frees (map : Bitmap) (frames : List ℕ) (r : Exec Bitmap) : Type 0 where
  pub out : Bitmap
  pub returns : r ≡ ok out
  pub valid : IsValid out
  pub bits : bit out ≡ clear_all frames (bit map)

free_one :
    (x : ℕ) (xs : List ℕ) (i : ℕ) (table : List TranslationEntry) (map : Bitmap)
    → HasFrame table i x
    → (u : Updates map x false (clear map (pos x)))
    → Frees u.out xs (release_from table (length xs) (i + 1) u.out)
    → Frees map (x ∷ xs) (release_from table (length (x ∷ xs)) i map)
unfolding release_from clear_all
free_one x xs i table map s u rest = record {
  out = rest.out;
  returns = rw (s.1, s.2, u.returns) rest.returns;
  valid = rest.valid;
  bits = rest.bits ∙ ap (clear_all xs) u.bits;
}

release_from-Frees :
    (frames : List ℕ) (i : ℕ) (table : List TranslationEntry) (map : Bitmap)
    → IsValid map
    → Holds table i frames
    → Each map.num_bits true (bit map) frames
    → Frees map frames (release_from table (length frames) i map)
unfolding release_from clear_all
release_from-Frees [] i table map v s e = record {
  out = map;
  returns = refl;
  valid = v;
  bits = refl;
}
release_from-Frees (x ∷ xs) i table map v s e =
    let u : Updates map x false (clear map (pos x)) = clear-Updates x v e.0 in
    free_one x xs i table map s.0 u (
      release_from-Frees xs (i + 1) table u.out u.valid s.1
        (rw (u.same_size, u.bits) (Each-tail map.num_bits (bit map) x xs e)))

-- On a valid map of the machine's frames with at least `n` clear bits, and a memory of its size:
-- `reserve` gives an address space of `n` pages its frames, and the destructor passes its assertions
-- and leaves the map of frames bit for bit as it was.
pub release-reserve :
    (n : ℕ) (map : Bitmap) (mem : List ℕ)
    → IsValid map
    → map.num_bits ≡ num_phys_pages
    → length mem ≡ memory_size
    → n ≤ free_frames map
    → (table : List TranslationEntry) × (taken : Bitmap) × (cleared : List ℕ) × (back : Bitmap)
      × (reserve n map mem ≡ ok (some (table, taken, cleared)))
      × (release (record { page_table = some table; num_pages = n }) taken ≡ ok back)
      × (bit back ≡ bit map)
unfolding release
release-reserve n map mem v size len room =
    let (s, e) = reserve-Reserves n map mem v size len room in
    let d : Frees s.out s.frames (release_from (entries 0 s.frames) (length s.frames) 0 s.out) =
      release_from-Frees s.frames 0 (entries 0 s.frames) s.out s.valid (entries-Holds s.frames)
        (rw (s.same_size, s.bits) (Each-mark_all map.num_bits (bit map) s.frames s.fresh)) in
    (
      entries 0 s.frames,
      s.out,
      s.memory,
      d.out,
      e,
      rw (← s.count) d.returns,
      d.bits
          ∙ ap (clear_all s.frames) s.bits
          ∙ clear_all-mark_all map.num_bits (bit map) s.frames s.fresh,
    )
