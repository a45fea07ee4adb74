-- ===== src/Machine/Memory.antt =====
-- `ReadMem` and `WriteMem`: what is written is read back, and only the granted frame is written.
use native.Mathlib.Decide.{dec_lt}
use project.Prelude.{
  ℕ, ◌+◌, ◌*◌, ◌/◌, ◌%◌, ◌^◌, ◌≤◌, ◌≡◌, refl, ◌≢◌, ◌∙◌, ap, ◌⊎◌, inl, inr, Bool, true, false, List,
  none, some, arith, ok, >>=-eq-ok, get_elem?, set, length, length-set, get_elem?-set_self,
}
use project.Machine.{
  Machine, TranslationEntry, Translation, physical, raises, value, page_size, memory_size,
  put_entry, valid_size, widen, translate, write_at, read_mem, write_mem,
}
use project.Machine.Bytes.{load, store, load-store_self, load-store_disjoint, length-store}
use project.Machine.Translate.{marked, stays_in_page}
use project.Machine.Grant.{Granted, translate_iff}

put_entry-tlb :
    (m : Machine) (i : ℕ) (e : TranslationEntry) → m.tlb ≡ none → (put_entry m i e).tlb ≡ none
put_entry-tlb m i e h = rw h

put_entry-page_table :
    (m : Machine) (table : List TranslationEntry) (i : ℕ) (e : TranslationEntry)
    → m.tlb ≡ none
    → m.page_table ≡ some table
    → (put_entry m i e).page_table ≡ some (set table i e)
put_entry-page_table m table i e h k = rw (h, k)

-- A machine whose programs run behind the page table `table`.
pub record Paged (m : Machine) (table : List TranslationEntry) : Type 0 where
  pub memory : length m.main_memory ≡ memory_size
  pub no_tlb : m.tlb ≡ none
  pub page_table : m.page_table ≡ some table
  pub fits : m.page_table_size ≤ length table

-- A write that went through: where, and what it left behind.
record Written (m : Machine) (table : List TranslationEntry) (addr size v : ℕ) (after : Machine)
    : Type 0 where
  at : ℕ
  middle : Machine
  granted : Granted m table addr size true at middle
  result : after ≡ record middle { main_memory = store middle.main_memory at size v }

write_at-value :
    (size v x : ℕ) (t : Translation × Machine) (after : Machine)
    → valid_size size ≡ true
    → write_at size v t ≡ ok (value x, after)
    → (p : ℕ) × (t ≡ (physical p, t.1))
      × (after ≡ record t.1 { main_memory = store t.1.main_memory p size v })
write_at-value size v x (raises e, m) after s h = cc
write_at-value size v x (physical p, m) after s h = let e = rw s at h in (p, refl, cc)

written :
    (m : Machine) (table : List TranslationEntry) (addr size v x : ℕ) (after : Machine)
    → Paged m table
    → valid_size size ≡ true
    → write_mem m addr size v ≡ ok (value x, after)
    → Written m table addr size v after
unfolding write_mem
written m table addr size v x after pg s h =
    let (t, e, k) = >>=-eq-ok (translate m addr size true) (write_at size v) h in
    let (p, tp, r) = write_at-value size v x t after s k in
    record {
      at = p;
      middle = t.1;
      granted =
          (translate_iff m table addr size true p t.1 pg.no_tlb pg.page_table s pg.fits).0
            (e ∙ ap ok tp);
      result = r;
    }

module _ {m : Machine} {table : List TranslationEntry} {addr size v : ℕ} {after : Machine}
    (pg : Paged m table) (w : Written m table addr size v after) where
  whole : after ≡ record (put_entry m (addr / page_size) (marked w.granted.entry true)) {
    main_memory = store m.main_memory w.at size v;
  }
  whole =
      w.result
      ∙ ap (λ (n : Machine). record n { main_memory = store n.main_memory w.at size v })
          w.granted.same_otherwise

  -- The memory after a write.
  Written-memory : after.main_memory ≡ store m.main_memory w.at size v
  Written-memory = ap (λ (n : Machine). n.main_memory) whole

  -- A write leaves the machine behind the same table, with one entry marked.
  Written-Paged : Paged after (set table (addr / page_size) (marked w.granted.entry true))
  Written-Paged = record {
    memory = ap length Written-memory ∙ length-store size w.at v m.main_memory ∙ pg.memory;
    no_tlb = ap (λ (n : Machine). n.tlb) whole ∙ put_entry-tlb m _ _ pg.no_tlb;
    page_table =
        ap (λ (n : Machine). n.page_table) whole
        ∙ put_entry-page_table m table _ _ pg.no_tlb pg.page_table;
    fits =
        rw
          (
            ap (λ (n : Machine). n.page_table_size) whole,
            length-set table (addr / page_size) (marked w.granted.entry true),
          )
          pg.fits;
  }

-- The range that was granted lies inside one frame, and inside the memory.
pub granted_range :
    {m : Machine} {table : List TranslationEntry} {addr size : ℕ} {writing : Bool} {p : ℕ}
    {after : Machine}
    → valid_size size ≡ true
    → (g : Granted m table addr size writing p after)
    → (g.entry.physical_page * page_size ≤ p)
      × (p + size ≤ g.entry.physical_page * page_size + page_size)
      × (p + size ≤ memory_size)
granted_range {addr = addr} {size = size} s g =
    omega (arith, stays_in_page addr size s g.aligned, g.frame, g.address)

-- `ReadMem` through a granted access.
read_granted :
    (m : Machine) (table : List TranslationEntry) (addr size p : ℕ) (after : Machine)
    → Paged m table
    → valid_size size ≡ true
    → Granted m table addr size false p after
    → read_mem m addr size ≡ ok (value (widen size (load after.main_memory p size)), after)
unfolding read_mem
read_granted m table addr size p after pg s g =
    rw ((translate_iff m table addr size false p after pg.no_tlb pg.page_table s pg.fits).1 g, s)

-- The address that was written can be read.
readable :
    {m : Machine} {table : List TranslationEntry} {addr size v : ℕ} {after : Machine}
    → Paged m table
    → (w : Written m table addr size v after)
    → (last : Machine) × Granted after
        (set table (addr / page_size) (marked w.granted.entry true))
        addr
        size
        false
        w.at
        last
      × (last.main_memory ≡ after.main_memory)
readable {m = m} {table = table} {addr = addr} {size = size} {after = after} pg w = (
  put_entry after (addr / page_size) (marked (marked w.granted.entry true) false),
  record {
    entry = marked w.granted.entry true;
    aligned = w.granted.aligned;
    inside = omega (arith, w.granted.inside, ap (λ (n : Machine). n.page_table_size) (whole pg w));
    at =
        get_elem?-set_self table (addr / page_size) (marked w.granted.entry true)
          (omega (arith, w.granted.inside, pg.fits));
    is_valid = w.granted.is_valid;
    writable = ground arith;
    frame = w.granted.frame;
    address = w.granted.address;
    same_otherwise = refl;
  },
  refl,
)

-- Ranges inside different frames do not meet.
apart :
    (p size q size' f g : ℕ)
    → (f * page_size ≤ p) × (p + size ≤ f * page_size + page_size) × (p + size ≤ memory_size)
    → (g * page_size ≤ q) × (q + size' ≤ g * page_size + page_size) × (q + size' ≤ memory_size)
    → f ≢ g
    → (q + size' ≤ p) ⊎ (p + size ≤ q)
apart p size q size' f g h k d = elim (dec_lt f g) [
  | yes lt ↦ inr (omega arith)
  | no ge ↦ inl (omega arith)
]

-- What `WriteMem` has written at an address, `ReadMem` of the same size reads there, cut to the
-- bytes of that size (and, for one byte, with its sign extended).
pub read_mem-write_mem :
    (m : Machine) (table : List TranslationEntry) (addr size v x : ℕ) (after : Machine)
    → Paged m table
    → valid_size size ≡ true
    → write_mem m addr size v ≡ ok (value x, after)
    → (last : Machine) × (read_mem after addr size ≡ ok (value (widen size (v % 256 ^ size)), last))
      × (last.main_memory ≡ after.main_memory)
read_mem-write_mem m table addr size v x after pg s h =
    let w = written m table addr size v x after pg s h in
    let (last, g, same) = readable pg w in
    let entry = marked w.granted.entry true in
    let stored : load last.main_memory w.at size ≡ v % 256 ^ size =
      ap (λ (mem : List ℕ). load mem w.at size) (same ∙ Written-memory pg w)
      ∙ load-store_self size w.at v m.main_memory
          (omega (arith, granted_range s w.granted, pg.memory)) in
    (
      last,
      read_granted after (set table (addr / page_size) entry) addr size w.at last
            (Written-Paged pg w) s g
          ∙ ap (λ (n : ℕ). ok (value (widen size n), last)) stored,
      same,
    )

-- No frame serves both page tables.
abbrev pub Disjoint : List TranslationEntry → List TranslationEntry → Type 0
Disjoint table other =
    (i j : ℕ) (e f : TranslationEntry)
    → get_elem? table i ≡ some e
    → get_elem? other j ≡ some f
    → e.physical_page ≢ f.physical_page

-- Two address spaces without a common frame cannot disturb each other: a write through one page
-- table leaves every number alone that the other lets its program access.
pub write_mem_isolated :
    (m : Machine) (table : List TranslationEntry) (addr size v x : ℕ) (after : Machine)
    (n : Machine) (other : List TranslationEntry) (addr' size' q : ℕ) (writing : Bool)
    (n' : Machine)
    → Paged m table
    → valid_size size ≡ true
    → write_mem m addr size v ≡ ok (value x, after)
    → valid_size size' ≡ true
    → Granted n other addr' size' writing q n'
    → Disjoint table other
    → load after.main_memory q size' ≡ load m.main_memory q size'
write_mem_isolated m table addr size v x after n other addr' size' q writing n' pg s h s' g d =
    let w = written m table addr size v x after pg s h in
    rw (Written-memory pg w) (
      load-store_disjoint size' size w.at q v m.main_memory (
        apart w.at size q size' w.granted.entry.physical_page g.entry.physical_page
          (granted_range s w.granted) (granted_range s' g)
          (d _ _ w.granted.entry g.entry w.granted.at g.at)))
