-- ===== src/AddrSpace/Agree.antt =====
-- `AddrSpace::Translate` against the machine's own `Translate`.
use project.Prelude.{
  ℕ, zero, suc, sym, ap, ◌∙◌, [], ◌∷◌, ◌+◌, ◌*◌, ◌/◌, ◌%◌, ◌≤◌, ◌<◌, ◌≡◌, refl, inl, inr, Bool, not,
  if◌then◌else◌, true, false, ◌&&◌, arith, List, Option, some, none, Exec, ok, aborted, undefined,
  halted, ◌>>=◌, ltb, leb, Bool-cases, length, get_elem?, get_elem?-some, set,
}
use project.Machine.{
  Machine, TranslationEntry, page_size, num_phys_pages, memory_size, translate, use_entry, missing,
  found, page_fault_exception,
}
use project.AddrSpace.{AddrSpace, restore_state, translate_entry, translate_space}

set_same : {A : Type 0} (xs : List A) (i : ℕ) (e : A) → get_elem? xs i ≡ some e → set xs i e ≡ xs
set_same {A} [] i e h = refl
set_same {A} (x ∷ xs) zero e h =
    ap (λ (o : Option A). elim o [ none ↦ xs | some y ↦ y ∷ xs ]) (sym h)
set_same {A} (x ∷ xs) (suc i) e h = ap (◌∷◌ x) (set_same xs i e h)

and_swap : (a b : Bool) → (a && b) ≡ (b && a)
and_swap true true = refl
and_swap true false = refl
and_swap false true = refl
and_swap false false = refl

-- Without a TLB.
abbrev pub bare : Machine → Machine
bare m = record m { tlb = none }

bind_assoc :
    {A B C : Type 0} (r : Exec A) (f : A → Exec B) (g : B → Exec C)
    → (r >>= f >>= g) ≡ (r >>= λ a. f a >>= g)
bind_assoc (ok a) f g = refl
bind_assoc aborted f g = refl
bind_assoc undefined f g = refl
bind_assoc halted f g = refl

abbrev pub space_of : ℕ → List TranslationEntry → AddrSpace
space_of n table = record { page_table = some table; num_pages = n }

-- The entry's checks are the machine's for one byte.
entry_agrees :
    (n : ℕ) (table : List TranslationEntry) (m : Machine) (i offset : ℕ) (e : TranslationEntry)
    (writing : Bool)
    → offset < page_size
    → get_elem? table i ≡ some e
    → use_entry (restore_state (space_of n table) (bare m)) i e offset 1 writing ≡ (
        translate_entry e offset writing >>= λ t.
        ok (t.0, restore_state (space_of n (set table i t.1)) (bare m)))
unfolding use_entry restore_state
entry_agrees n table m i offset e writing o g = elim (Bool-cases (e.read_only && writing)) [
  | inl r ↦
      let r' : (writing && e.read_only) ≡ true = and_swap writing e.read_only ∙ r in
      rw (r, r', set_same table i e g) refl
  | inr r ↦
      let r' : (writing && e.read_only) ≡ false = and_swap writing e.read_only ∙ r in
      elim (Bool-cases (leb num_phys_pages e.physical_page)) [
        | inl b ↦ rw (r, r', b, set_same table i e g) refl
        | inr b ↦
            let low : leb (e.physical_page * page_size + offset + 1) memory_size ≡ true =
              ground arith in
            let low' : ltb (e.physical_page * page_size + offset) memory_size ≡ true =
              ground arith in
            rw (r, r', b, low, low') refl
      ]
]

if_not : {A : Type 0} (b : Bool) (x y : A) → b ≡ true → (if not b then x else y) ≡ y
if_not true x y h = refl
if_not false x y h = cc

inside_agrees :
    (n : ℕ) (table : List TranslationEntry) (m : Machine) (vaddr : ℕ) (e : TranslationEntry)
    (writing : Bool)
    → leb n (vaddr / page_size) ≡ false
    → get_elem? table (vaddr / page_size) ≡ some e
    → e.valid ≡ true
    → translate (restore_state (space_of n table) (bare m)) vaddr 1 writing ≡ (
        translate_space (space_of n table) vaddr writing >>= λ t.
        ok (t.0, restore_state t.1 (bare m)))
unfolding translate translate_space restore_state
inside_agrees n table m vaddr e writing inside g v =
    rw (inside, g, if_not e.valid (missing page_fault_exception) (found (vaddr / page_size) e) v)
      (entry_agrees n table m (vaddr / page_size) (vaddr % page_size) e writing (omega arith) g
        ∙ sym (bind_assoc (translate_entry e (vaddr % page_size) writing) _ _))

-- For one byte, without a TLB and behind a page table of valid entries, at least as many as the
-- address space has pages, the machine's
-- `Translate` and `AddrSpace::Translate` give the same address or exception and leave the same
-- entries.
pub translate-translate_space :
    (n : ℕ) (table : List TranslationEntry) (m : Machine) (vaddr : ℕ) (writing : Bool)
    → n ≤ length table
    → ((i : ℕ) (e : TranslationEntry) → get_elem? table i ≡ some e → e.valid ≡ true)
    → translate (restore_state (space_of n table) (bare m)) vaddr 1 writing ≡ (
        translate_space (space_of n table) vaddr writing >>= λ t.
        ok (t.0, restore_state t.1 (bare m)))
unfolding translate translate_space restore_state
translate-translate_space n table m vaddr writing fits valid =
    elim (Bool-cases (leb n (vaddr / page_size))) [
      | inl out ↦ rw out refl
      | inr inside ↦
          let (e, g) = get_elem?-some table (vaddr / page_size) (ground (arith, fits)) in
          inside_agrees n table m vaddr e writing inside g (valid (vaddr / page_size) e g)
    ]
