-- ===== src/Machine/Translate.antt =====
-- `Machine::Translate`: it always returns, and it grants an access exactly when the page table does.
use native.Mathlib.Decide.{dec_lt}
use project.Prelude.{
  ℕ, ◌+◌, ◌*◌, ◌/◌, ◌%◌, ◌≤◌, ◌<◌, ◌≡◌, refl, inl, inr, Bool, true, false, not, ◌&&◌, List, Option,
  none, some, arith, Exec, ok, leb, if◌then◌else◌, Bool-cases, get_elem?-some,
}
use project.Machine.{
  Machine, TranslationEntry, Translation, physical, raises, Lookup, found, missing, ExceptionType,
  page_size, num_phys_pages, put_entry, use_entry, misaligned, valid_size, resolve, lookup_in,
  tlb_lookup, translate, read_only_exception, bus_error_exception, address_error_exception,
  page_fault_exception,
}
use project.Machine.Valid.{IsValid, OneTable, put_entry-IsValid}

-- `r` is a normal return that has touched nothing but the bits of a table entry.
pub record Runs (m : Machine) (r : Exec (Translation × Machine)) : Type 0 where
  pub result : Translation
  pub after : Machine
  pub returns : r ≡ ok (result, after)
  pub valid : IsValid after
  pub memory : after.main_memory ≡ m.main_memory
  pub registers : after.registers ≡ m.registers

abbrev pub marked : TranslationEntry → Bool → TranslationEntry
marked e writing = record e { used = true; dirty = if writing then true else e.dirty }

-- An aligned access that starts inside a page ends inside it.
pub stays_in_page :
    (addr size : ℕ)
    → valid_size size ≡ true
    → misaligned addr size ≡ false
    → addr % page_size + size ≤ page_size
stays_in_page addr size s a = ground arith

bad_frame :
    (e : TranslationEntry)
    → ¬ (e.physical_page < num_phys_pages)
    → leb num_phys_pages e.physical_page ≡ true
bad_frame e h = ground arith

-- The checks of an entry that let an access through.
pub use_entry_grants :
    (m : Machine) (i : ℕ) (e : TranslationEntry) (addr size : ℕ) (writing : Bool)
    → valid_size size ≡ true
    → misaligned addr size ≡ false
    → (e.read_only && writing) ≡ false
    → e.physical_page < num_phys_pages
    → use_entry m i e (addr % page_size) size writing
      ≡ ok (
        physical (e.physical_page * page_size + addr % page_size),
        put_entry m i (marked e writing),
      )
unfolding use_entry
use_entry_grants m i e addr size writing s a ro fr = ground (arith, stays_in_page addr size s a)

refused : {m : Machine} (e : ExceptionType) → IsValid m → Runs m (ok (raises e, m))
refused {m} e v = record {
  result = raises e;
  after = m;
  returns = refl;
  valid = v;
  memory = refl;
  registers = refl;
}

granted :
    {m : Machine} (i p : ℕ) (e : TranslationEntry)
    → IsValid m
    → Runs m (ok (physical p, put_entry m i e))
granted {m} i p e v = record {
  result = physical p;
  after = put_entry m i e;
  returns = refl;
  valid = put_entry-IsValid i e v;
  memory = refl;
  registers = refl;
}

use_entry-Runs :
    (m : Machine) (i : ℕ) (e : TranslationEntry) (addr size : ℕ) (writing : Bool)
    → IsValid m
    → valid_size size ≡ true
    → misaligned addr size ≡ false
    → Runs m (use_entry m i e (addr % page_size) size writing)
unfolding use_entry
use_entry-Runs m i e addr size writing v s a = elim (Bool-cases (e.read_only && writing)) [
  | inl ro ↦ rw ro (refused read_only_exception v)
  | inr w ↦ elim (dec_lt e.physical_page num_phys_pages) [
    | yes fr ↦ rw (use_entry_grants m i e addr size writing s a w fr) (granted i _ _ v)
    | no fr ↦ rw (w, bad_frame e fr) (refused bus_error_exception v)
  ]
]

resolve-Runs :
    (m : Machine) (l : Lookup) (addr size : ℕ) (writing : Bool)
    → IsValid m
    → valid_size size ≡ true
    → misaligned addr size ≡ false
    → Runs m (resolve m (addr % page_size) size writing l)
resolve-Runs m (found i e) addr size writing v s a = use_entry-Runs m i e addr size writing v s a
resolve-Runs m (missing e) addr size writing v s a = refused e v

-- With one table in place the search for an entry returns.
lookup_in-ok :
    (tlb table : Option (List TranslationEntry)) (size vpn : ℕ)
    → OneTable tlb table size
    → (l : Lookup) × (lookup_in tlb table size vpn ≡ ok l)
lookup_in-ok (some tlb) (some table) size vpn h = absurd h
lookup_in-ok none none size vpn h = absurd h
lookup_in-ok (some tlb) none size vpn h = (tlb_lookup tlb 0 vpn, refl)
lookup_in-ok none (some table) size vpn h = elim (dec_lt vpn size) [
  | no out ↦ (missing address_error_exception, ground arith)
  | yes inside ↦
      let (e, at) = get_elem?-some table vpn (omega arith) in
      (if not e.valid then missing page_fault_exception else found vpn e, ground arith)
]

-- `Translate` of an access of 1, 2 or 4 bytes on a valid machine always returns: no ASSERT fails and
-- no table is read outside its bounds. It changes neither memory nor registers.
pub translate-Runs :
    (m : Machine) (addr size : ℕ) (writing : Bool)
    → IsValid m
    → valid_size size ≡ true
    → Runs m (translate m addr size writing)
unfolding translate
translate-Runs m addr size writing v s = elim (Bool-cases (misaligned addr size)) [
  | inl bad ↦ rw bad (refused address_error_exception v)
  | inr a ↦
      let (l, found_l) =
        lookup_in-ok m.tlb m.page_table m.page_table_size (addr / page_size) v.one_table in
      rw (a, found_l) (resolve-Runs m l addr size writing v s a)
]
