-- ===== src/ProcessTable/Start.antt =====
-- `PTable::ExecUpdate`: on which conditions a process is started, and where.
use project.Prelude.{
  ℕ, ◌<◌, ◌≤◌, undefined, ◌≡◌, refl, Bool, true, false, List, Option, none, some, arith, Exec, ok,
  ◌>>=◌, ◌⊎◌, inl, inr, Bool-cases, set, pos, ◌+ℤ◌, ℤ, minus_one, get_elem?, get_elem?-eq-get_or,
}
use project.Bitmap.{find_and_set}
use project.Bitmap.View.{bit}
use project.Bitmap.Find.{Found, Full, find_and_set_cases}
use project.CString.{str_same, strlen}
use project.ProcessTable.{
  ProcessTable, Pcb, Caller, Outcome, Making, fits, max_process, new_pcb, get_current_thread_id,
  leave, allocated, pcb_exec, exec_locked,
}
use project.ProcessTable.Slots.{IsValid, put-IsValid}

-- Why a program is not started.
pub data Refusal (opens : List ℕ → Bool) (t : ProcessTable) (file : List ℕ)
    : Option (List ℕ) → Type 0 where
  no_name : Refusal opens t file none
  unopened : (name : List ℕ) → opens name ≡ false → Refusal opens t file (some name)
  itself : (name : List ℕ) → str_same file name ≡ true → Refusal opens t file (some name)
  full :
      (name : List ℕ)
      → ((i : ℕ) → i < max_process → bit t.bm i ≡ true)
      → Refusal opens t file (some name)

-- The new process is in the lowest free slot, as a child of the caller's.
pub record StartedAt (t t' : ProcessTable) (parent : ℤ) (name : List ℕ) (thread free : ℕ)
    : Type 0 where
  pub in_range : free < max_process
  pub was_free : bit t.bm free ≡ false
  pub lowest : (j : ℕ) → j < free → bit t.bm j ≡ true
  pub slots :
      t'.pcb
      ≡ set t.pcb free (
          some (record (new_pcb (pos free)) {
            parent_id = parent;
            file = some name;
            thread = some thread;
          }))
  pub valid : IsValid t'

-- The program may be started: it opens, it is not the caller's own, and a slot is free.
pub record Admitted (opens : List ℕ → Bool) (t : ProcessTable) (file name : List ℕ) (free : ℕ)
    : Type 0 where
  pub opened : opens name ≡ true
  pub not_itself : str_same file name ≡ false
  pub in_range : free < max_process
  pub was_free : bit t.bm free ≡ false

-- It is refused, or started, or the copy of its name runs over the end of its block.
abbrev pub Starts :
    (List ℕ → Bool)
    → (ℕ → ℕ)
    → ProcessTable
    → List ℕ
    → ℤ
    → Option (List ℕ)
    → ℕ
    → Exec Outcome
    → Type 0
Starts opens block t file parent name thread r =
    (Refusal opens t file name × (r ≡ leave minus_one t))
    ⊎ ((n : List ℕ) × (free : ℕ) × (name ≡ some n)
        × Admitted opens t file n free
        × (((t' : ProcessTable) × (strlen n < block (strlen n))
              × StartedAt t t' parent n thread free
              × (r ≡ leave (pos free) t'))
            ⊎ ((block (strlen n) ≤ strlen n) × (r ≡ undefined))))

module _ (opens : List ℕ → Bool) (t : ProcessTable) (file : List ℕ) (parent : ℤ) (thread : ℕ)
    (block : ℕ → ℕ) (v : IsValid t) where
  abbrev made : Making
  made = record { thread = some thread; block = block }

  in_slot :
      (name : List ℕ)
      → opens name ≡ true
      → str_same file name ≡ false
      → Found t.bm 0 (find_and_set t.bm)
      → Starts opens block t file parent
          (some name)
          thread
          (find_and_set t.bm >>= allocated made name parent t)
  unfolding pcb_exec
  in_slot name open_it other f =
      let inside : f.at < max_process = omega (arith, f.in_range, v.bits) in
      let at = get_elem?-eq-get_or t.pcb f.at none (omega (arith, v.slots)) in
      let c : Pcb = record (new_pcb (pos f.at)) {
        parent_id = parent;
        file = some name;
        thread = some thread;
      } in
      let t' = record t { bm = f.out; pcb = set t.pcb f.at (some c); psize = t.psize +ℤ pos 1 } in
      inr (
        name,
        f.at,
        refl,
        record { opened = open_it; not_itself = other; in_range = inside; was_free = f.was_clear },
        elim (Bool-cases (fits block name)) [
          | inl e ↦ inl (
            t',
            ground arith,
            record {
              in_range = inside;
              was_free = f.was_clear;
              lowest = λ j l. f.lowest j (omega arith) l;
              slots = refl;
              valid = put-IsValid t v f.at inside c f.out _ f.valid f.same_size f.bits (name, refl);
            },
            rw (f.returns, at, e) refl,
          )
          | inr e ↦ inr (ground arith, rw (f.returns, at, e) refl)
        ],
      )

  no_slot :
      (name : List ℕ)
      → Full t.bm 0 (find_and_set t.bm)
      → Starts opens block t file parent
          (some name)
          thread
          (find_and_set t.bm >>= allocated made name parent t)
  no_slot name f =
      inl (full name (λ i h. f.all_set i (omega arith) (omega (arith, v.bits))), rw f.returns refl)

-- With the table locked and valid, and the caller's process `parent` found in the table with the file
-- `file`, and where a thread can be made: `ExecUpdate` refuses, and leaves the table as it is, if there
-- is no name, the file does not open, it is the caller's own program, or every slot is marked. Otherwise
-- there is a name, the file opens, it is not the caller's own program and a slot is not marked. Then, if
-- the block for the name has a byte more than was asked for, it gives the number of the lowest slot that
-- is not marked, where the new process now is, as a child of the caller's, in a valid table; if not, its
-- `strcpy` runs over the end of the block.
pub exec_locked-Starts :
    (opens : List ℕ → Bool) (block : ℕ → ℕ) (t : ProcessTable) (caller : Caller) (parent thread : ℕ)
    (c : Pcb) (file : List ℕ) (name : Option (List ℕ))
    → IsValid t
    → get_current_thread_id t caller ≡ ok (pos parent)
    → get_elem? t.pcb parent ≡ some (some c)
    → c.file ≡ some file
    → Starts opens block t file
        (pos parent)
        name
        thread
        (exec_locked opens (record { thread = some thread; block = block }) t caller name)
unfolding exec_locked
exec_locked-Starts opens block t caller parent thread c file none v current at named =
    inl (no_name, refl)
exec_locked-Starts opens block t caller parent thread c file (some name) v current at named =
    elim (Bool-cases (opens name)) [
      | inr shut ↦ inl (unopened name shut, rw shut refl)
      | inl open_it ↦ elim (Bool-cases (str_same file name)) [
        | inl self ↦ inl (itself name self, rw (open_it, current, at, named, self) refl)
        | inr other ↦
            rw (open_it, current, at, named, other)
              (elim (find_and_set_cases t.bm v.bitmap) [
                | inl f ↦ in_slot opens t file (pos parent) thread block v name open_it other f
                | inr f ↦ no_slot opens t file (pos parent) thread block v name f
              ])
      ]
    ]
