-- ===== src/AddrSpace/Isolation.antt =====
-- Two address spaces never share a frame.
use project.Prelude.{
  ℕ, zero, suc, ◌+◌, ◌≤◌, ◌≡◌, refl, sym, ◌∙◌, ap, true, false, arith, List, [], ◌∷◌, Option, none,
  some, Exec, ok, aborted, undefined, halted, subst, get_elem?, length,
}
use project.Bitmap.{Bitmap}
use project.Bitmap.View.{IsValid, bit}
use project.Bitmap.Marks.{Each-value, member, mark_all_lem}
use project.Machine.{TranslationEntry, num_phys_pages, memory_size}
use project.Machine.Memory.{Disjoint}
use project.AddrSpace.{reserve}
use project.AddrSpace.Reserve.{free_frames, entries, Reserves, reserve-Reserves}

frame_of : Option TranslationEntry → ℕ
frame_of none = 0
frame_of (some e) = e.physical_page

entries-member :
    (i k : ℕ) (e : TranslationEntry) (frames : List ℕ)
    → get_elem? (entries i frames) k ≡ some e
    → member e.physical_page frames ≡ true
unfolding member frame_of
entries-member i k e [] h = absurd cc
entries-member i zero e (f ∷ frames) h =
    let p : f ≡ e.physical_page = ap frame_of h in rw (← p) (ground arith)
entries-member i (suc k) e (f ∷ frames) h = ground (arith, entries-member (i + 1) k e frames h)

abbrev Given : Type 0
Given = List TranslationEntry × Bitmap × List ℕ

-- What `reserve` gave.
given : Given → Exec (Option Given) → Given
given d (ok (some t)) = t
given d (ok none) = d
given d aborted = d
given d undefined = d
given d halted = d

same_given : (a b : Given) → ◌≡◌ {A = Exec (Option Given)} (ok (some a)) (ok (some b)) → a ≡ b
unfolding given
same_given a b h = ap (given a) h

apart :
    (n k : ℕ) (map : Bitmap) (r r' : Exec Given) (s : Reserves n 0 map r)
    (t : Reserves k 0 s.out r')
    → Disjoint (entries 0 s.frames) (entries 0 t.frames)
apart n k map r r' s t i j e f p q same =
    let m = entries-member 0 i e s.frames p in
    let marked : bit s.out e.physical_page ≡ true =
      rw (s.bits, mark_all_lem s.frames (bit map) e.physical_page, m) refl in
    let clear : bit s.out f.physical_page ≡ false =
      Each-value s.out.num_bits false (bit s.out) t.frames f.physical_page t.fresh
        (entries-member 0 j f t.frames q) in
    let bad : true ≡ false = sym marked ∙ ap (bit s.out) same ∙ clear in cc

-- Of two address spaces that got their frames from `reserve` one after the other, while the first
-- still has its own, no page of one is in a frame of the other.
pub reserve-Disjoint :
    (n k : ℕ) (map : Bitmap) (mem : List ℕ)
    → IsValid map
    → map.num_bits ≡ num_phys_pages
    → length mem ≡ memory_size
    → n ≤ free_frames map
    → (table other : List TranslationEntry) (taken taken' : Bitmap) (mem' mem'' : List ℕ)
    → reserve n map mem ≡ ok (some (table, taken, mem'))
    → k ≤ free_frames taken
    → reserve k taken mem' ≡ ok (some (other, taken', mem''))
    → Disjoint table other
reserve-Disjoint n k map mem v size len room table other taken taken' mem' mem'' first room'
      second =
    let (s, es) = reserve-Reserves n map mem v size len room in
    let a = same_given _ _ (sym es ∙ first) in
    let room'' : k ≤ free_frames s.out = rw (ap (λ (g : Given). g.1) a) room' in
    let (t, et) =
      reserve-Reserves k s.out s.memory s.valid (s.same_size ∙ size) s.same_length room'' in
    let second' : reserve k s.out s.memory ≡ ok (some (other, taken', mem'')) =
      rw (ap (λ (g : Given). g.1) a, ap (λ (g : Given). g.2) a) second in
    let b = same_given _ _ (sym et ∙ second') in
    let d = apart n k map _ _ s t in
    subst (λ x. Disjoint x other) (ap (λ (g : Given). g.0) a)
      (subst (Disjoint (entries 0 s.frames)) (ap (λ (g : Given). g.0) b) d)
