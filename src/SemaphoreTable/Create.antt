-- ===== src/SemaphoreTable/Create.antt =====
-- `STable::Create`: when a name is refused, and what is made otherwise.
use project.Prelude.{
  ℕ, ◌<◌, ◌≡◌, refl, sym, ◌∙◌, ap, Bool, true, false, List, none, some, arith, Exec, ok, ◌==◌, ◌⊎◌,
  inl, inr, Bool-cases, set, length-set, get_elem?-set_self, get_elem?-set_ne, get_elem?-eq-get_or,
  pos, ℤ, minus_one, lt→ltb,
}
use project.Bitmap.{Bitmap, find_and_set}
use project.Bitmap.View
use project.Bitmap.View.{bit, update}
use project.Bitmap.Find.{Found, Full, find_and_set_cases}
use project.Semaphore.{new_semaphore}
use project.CString.{strlen, str_same}
use project.SemaphoreTable.{SemaphoreTable, Sem, max_semaphore, no_sem, new_sem, create, create_new}
use project.SemaphoreTable.Search.{IsValid, Holds, Unused, find_sem_cases}

-- A new semaphore in the lowest free slot.
pub record Made (t : SemaphoreTable) (name : List ℕ) (value : ℕ) (r : Exec (ℤ × SemaphoreTable))
    : Type 0 where
  pub at : ℕ
  pub out : SemaphoreTable
  pub returns : r ≡ ok (pos 0, out)
  pub in_range : at < max_semaphore
  pub was_clear : bit t.bm at ≡ false
  pub lowest : (j : ℕ) → j < at → bit t.bm j ≡ true
  pub marks : bit out.bm ≡ update (bit t.bm) at true
  pub slots :
      out.sem_tab ≡ set t.sem_tab at (some (record { name = name; sem = new_semaphore value }))
  pub valid : IsValid out

pub data Creates (t : SemaphoreTable) (name : List ℕ) (value : ℕ) (r : Exec (ℤ × SemaphoreTable))
    : Type 0 where
  in_use :
      (i : ℕ) (s : Sem)
      → i < max_semaphore
      → bit t.bm i ≡ true
      → Holds t i s
      → str_same name s.name ≡ true
      → r ≡ ok (minus_one, t)
      → Creates t name value r
  full :
      ((i : ℕ) → i < max_semaphore → bit t.bm i ≡ true)
      → r ≡ ok (minus_one, t)
      → Creates t name value r
  made : Unused t name 0 → Made t name value r → Creates t name value r

put-IsValid :
    (t : SemaphoreTable) (at : ℕ) (s : Sem) (bm : Bitmap)
    → IsValid t
    → at < max_semaphore
    → View.IsValid bm
    → bm.num_bits ≡ t.bm.num_bits
    → bit bm ≡ update (bit t.bm) at true
    → IsValid (record { bm = bm; sem_tab = set t.sem_tab at (some s) })
put-IsValid t at s bm v h b n e = record {
  bitmap = b;
  bits = n ∙ v.bits;
  slots = length-set t.sem_tab at (some s) ∙ v.slots;
  filled = λ i g c. elim (Bool-cases (at == i)) [
    | inl q ↦
        let same : i ≡ at = ground arith in
        (s, rw same (get_elem?-set_self t.sem_tab at (some s) (omega (arith, h, v.slots))))
    | inr q ↦
        let was : bit t.bm i ≡ true = rw q at (ap (λ (f : ℕ → Bool). f i) (sym e)) ∙ c in
        let (s', here) = v.filled i g was in
        (s', get_elem?-set_ne t.sem_tab at i (some s) (ground arith) ∙ here)
  ];
}

module _ (t : SemaphoreTable) (v : IsValid t) (name : List ℕ) (value : ℕ)
    (short : strlen name < 50) where
  new_sem_lem : new_sem name value ≡ ok (record { name = name; sem = new_semaphore value })
  unfolding new_sem
  new_sem_lem = rw (lt→ltb (strlen name) 50 short) refl

  create_new-Creates :
      Unused t name 0
      → (Found t.bm 0 (find_and_set t.bm) ⊎ Full t.bm 0 (find_and_set t.bm))
      → Creates t name value (create_new t name value none)
  create_new-Creates u (inr f) =
      full (λ i h. f.all_set i (omega arith) (omega (arith, v.bits))) (rw f.returns refl)
  create_new-Creates u (inl f) =
      let inside : f.at < max_semaphore = omega (arith, f.in_range, v.bits) in
      let s : Sem = record { name = name; sem = new_semaphore value } in
      made u (record {
        at = f.at;
        out = record { bm = f.out; sem_tab = set t.sem_tab f.at (some s) };
        returns =
            rw
              (
                f.returns,
                new_sem_lem,
                get_elem?-eq-get_or t.sem_tab f.at no_sem (omega (arith, inside, v.slots)),
              )
              refl;
        in_range = inside;
        was_clear = f.was_clear;
        lowest = λ j l. f.lowest j (omega arith) l;
        marks = f.bits;
        slots = refl;
        valid = put-IsValid t f.at s f.out v inside f.valid f.same_size f.bits;
      })

-- On a valid table, and with a name of fewer than 50 bytes, `Create` returns: -1 and the table as it
-- was if a marked slot has a semaphore of the name, or every slot is marked; otherwise no marked slot
-- has the name, and it returns 0 with a new semaphore of that name and value in the lowest free slot
-- of a valid table.
pub create-Creates :
    (t : SemaphoreTable) (name : List ℕ) (value : ℕ)
    → IsValid t
    → strlen name < 50
    → Creates t name value (create t name value)
unfolding create
create-Creates t name value v short = elim (find_sem_cases t v name max_semaphore 0 refl) [
  | inl f ↦ in_use f.at f.sem f.in_range f.marked f.holds f.named (rw f.returns refl)
  | inr f ↦
      rw f.returns
        (create_new-Creates t v name value short f.unused (find_and_set_cases t.bm v.bitmap))
]
