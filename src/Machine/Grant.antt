-- ===== src/Machine/Grant.antt =====
-- What the page table grants, and that `Translate` grants just that.
use native.Mathlib.Decide.{dec_lt}
use project.Prelude.{
  ℕ, ◌+◌, ◌*◌, ◌/◌, ◌%◌, ◌≤◌, ◌<◌, ◌≡◌, ◌↔◌, ◌∙◌, ◌⊎◌, inl, inr, Bool, true, false, ◌&&◌, List,
  Option, none, some, arith, Exec, ok, get_elem?, Bool-cases, length, get_elem?-some, sym, ap₂,
}
use project.Machine.{
  Machine, TranslationEntry, physical, page_size, num_phys_pages, put_entry, use_entry, misaligned,
  valid_size, translate, resolve, Lookup, found, missing, ExceptionType, lookup_in, table_lookup,
  address_error_exception, page_fault_exception,
}
use project.Machine.Translate.{marked, use_entry_grants}

-- The page table lets `addr` be accessed, at the physical address `p`, leaving the machine `after`.
pub record Granted (m : Machine) (table : List TranslationEntry) (addr size : ℕ) (writing : Bool)
    (p : ℕ) (after : Machine) : Type 0 where
  pub entry : TranslationEntry
  pub aligned : misaligned addr size ≡ false
  pub inside : addr / page_size < m.page_table_size
  pub at : get_elem? table (addr / page_size) ≡ some entry
  pub is_valid : entry.valid ≡ true
  pub writable : (entry.read_only && writing) ≡ false
  pub frame : entry.physical_page < num_phys_pages
  pub address : p ≡ entry.physical_page * page_size + addr % page_size
  pub same_otherwise : after ≡ put_entry m (addr / page_size) (marked entry writing)

-- What the search in a page table gives: the valid entry inside it, or an exception.
record Hit (table : List TranslationEntry) (size vpn : ℕ) (r : Exec Lookup) : Type 0 where
  entry : TranslationEntry
  returns : r ≡ ok (found vpn entry)
  inside : vpn < size
  at : get_elem? table vpn ≡ some entry
  is_valid : entry.valid ≡ true

abbrev Miss : Exec Lookup → Type 0
Miss r = (x : ExceptionType) × (r ≡ ok (missing x))

lookup_hit :
    (tlb pt : Option (List TranslationEntry)) (table : List TranslationEntry) (size vpn : ℕ)
    (e : TranslationEntry)
    → tlb ≡ none
    → pt ≡ some table
    → vpn < size
    → get_elem? table vpn ≡ some e
    → e.valid ≡ true
    → lookup_in tlb pt size vpn ≡ ok (found vpn e)
lookup_hit tlb pt table size vpn e p q h at v = rw (p, q) (ground arith)

table_route :
    (tlb pt : Option (List TranslationEntry)) (table : List TranslationEntry) (size vpn : ℕ)
    → tlb ≡ none
    → pt ≡ some table
    → lookup_in tlb pt size vpn ≡ table_lookup table size vpn
table_route tlb pt table size vpn p q = rw (p, q)

table_cases :
    (table : List TranslationEntry) (size vpn : ℕ)
    → size ≤ length table
    → Hit table size vpn (table_lookup table size vpn) ⊎ Miss (table_lookup table size vpn)
table_cases table size vpn fits = elim (dec_lt vpn size) [
  | no out ↦ inr (address_error_exception, ground arith)
  | yes h ↦
      let (e, at) = get_elem?-some table vpn (omega arith) in
      elim (Bool-cases e.valid) [
        | inl v ↦
            inl (record { entry = e; returns = ground arith; inside = h; at = at; is_valid = v })
        | inr v ↦ inr (page_fault_exception, ground arith)
      ]
]

module _ (m : Machine) (table : List TranslationEntry) (addr size : ℕ) (writing : Bool) (p : ℕ)
    (after : Machine) (no_tlb : m.tlb ≡ none) (pt : m.page_table ≡ some table)
    (sized : valid_size size ≡ true) where
  grants :
      Granted m table addr size writing p after
      → translate m addr size writing ≡ ok (physical p, after)
  unfolding translate
  grants g =
      rw
        (
          g.aligned,
          lookup_hit m.tlb m.page_table table m.page_table_size (addr / page_size) g.entry no_tlb pt
              g.inside g.at g.is_valid,
        )
        (use_entry_grants m (addr / page_size) g.entry addr size writing sized g.aligned g.writable
            g.frame
          ∙ ap₂ (λ (a : ℕ) (n : Machine). ok (physical a, n)) (sym g.address)
              (sym g.same_otherwise))

  translate_by :
      misaligned addr size ≡ false
      → (l : Lookup) → table_lookup table m.page_table_size (addr / page_size) ≡ ok l
      → translate m addr size writing ≡ resolve m (addr % page_size) size writing l
  unfolding translate
  translate_by a l h =
      rw (a, table_route m.tlb m.page_table table m.page_table_size (addr / page_size) no_tlb pt, h)

  granted_by :
      {r : Exec Lookup}
      → misaligned addr size ≡ false
      → (h : Hit table m.page_table_size (addr / page_size) r)
      → use_entry m (addr / page_size) h.entry (addr % page_size) size writing
        ≡ ok (physical p, after)
      → Granted m table addr size writing p after
  unfolding use_entry
  granted_by a h e = elim (Bool-cases (h.entry.read_only && writing)) [
    | inl ro ↦ ground arith
    | inr w ↦ elim (dec_lt h.entry.physical_page num_phys_pages) [
      | no fr ↦ ground arith
      | yes fr ↦
          let g = use_entry_grants m (addr / page_size) h.entry addr size writing sized a w fr in
          record {
            entry = h.entry;
            aligned = a;
            inside = h.inside;
            at = h.at;
            is_valid = h.is_valid;
            writable = w;
            frame = fr;
            address = cc;
            same_otherwise = cc;
          }
    ]
  ]

  only_granted :
      m.page_table_size ≤ length table
      → translate m addr size writing ≡ ok (physical p, after)
      → Granted m table addr size writing p after
  unfolding translate
  only_granted fits e = elim (Bool-cases (misaligned addr size)) [
    | inl bad ↦ let e' = rw bad at e in cc
    | inr a ↦ elim (table_cases table m.page_table_size (addr / page_size) fits) [
      | inl h ↦
          granted_by a h (sym (translate_by a (found (addr / page_size) h.entry) h.returns) ∙ e)
      | inr (x, h) ↦ let e' = sym (translate_by a (missing x) h) ∙ e in ground arith
    ]
  ]

-- With a page table in place, an access is let through to the physical address `p` exactly when it
-- is aligned, its page lies inside the table, is valid, is not read-only for a write, and has a frame
-- of the machine; `p` is then that frame at the offset of `addr`, and the entry is marked used (and
-- dirty, by a write), and nothing else changes.
pub translate_iff :
    (m : Machine) (table : List TranslationEntry) (addr size : ℕ) (writing : Bool) (p : ℕ)
    (after : Machine)
    → m.tlb ≡ none
    → m.page_table ≡ some table
    → valid_size size ≡ true
    → m.page_table_size ≤ length table
    → (translate m addr size writing ≡ ok (physical p, after))
      ↔ Granted m table addr size writing p after
translate_iff m table addr size writing p after n t s fits = (
  only_granted m table addr size writing p after n t s fits,
  grants m table addr size writing p after n t s,
)
