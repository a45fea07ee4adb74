-- ===== src/ProcessTable/Slots.antt =====
-- The bitmap of the table marks slots that hold a process. A slot whose bit is clear may hold one
-- that has exited.
use project.Prelude.{
  get_elem?, get_elem?-eq-get_or, ℕ, ◌<◌, ◌≡◌, refl, sym, ok, ◌∙◌, ap, Bool, true, false, List,
  Option, none, some, arith, ◌==◌, inl, inr, Bool-cases, length, get_or, set, length-set,
  get_or-set_self, get_or-set_ne, pos, ℤ, leb,
}
use project.Bitmap.{Bitmap}
use project.Bitmap.View
use project.Bitmap.View.{bit, update, Updates}
use project.Bitmap.Laws.{clear-Updates}
use project.ProcessTable.{ProcessTable, Pcb, max_process, remove, finished, is_exist, remove}

abbrev pub occupied {ℓ} : {A : Type ℓ} → Option A → Bool
occupied none = false
occupied (some c) = true

-- A process that has been started has a file.
abbrev pub HasFile : Option Pcb → Type 0
HasFile none = Unit {0}
HasFile (some c) = (file : List ℕ) × (c.file ≡ some file)

pub record IsValid (t : ProcessTable) : Type 0 where
  pub bitmap : View.IsValid t.bm
  pub bits : t.bm.num_bits ≡ max_process
  pub slots : length t.pcb ≡ max_process
  pub agree : (i : ℕ) → i < max_process → bit t.bm i ≡ true → occupied (get_or t.pcb i none) ≡ true
  pub named : (i : ℕ) → HasFile (get_or t.pcb i none)

module _ (t : ProcessTable) (v : IsValid t) (at : ℕ) (h : at < max_process) (c : Pcb) (bm : Bitmap)
    (size : ℤ) where
  agree_after :
      bit bm ≡ update (bit t.bm) at true
      → (i : ℕ) → i < max_process
      → bit bm i ≡ true
      → occupied (get_or (set t.pcb at (some c)) i none) ≡ true
  agree_after e i g b = elim (Bool-cases (at == i)) [
    | inl s ↦
        let same : i ≡ at = ground arith in
        rw (same, get_or-set_self t.pcb at (some c) none (omega (arith, v.slots))) refl
    | inr s ↦
        let was : bit t.bm i ≡ true = rw s at (ap (λ (f : ℕ → Bool). f i) (sym e)) ∙ b in
        rw (get_or-set_ne t.pcb at i (some c) none (ground arith)) (v.agree i g was)
  ]

  named_after : HasFile (some c) → (i : ℕ) → HasFile (get_or (set t.pcb at (some c)) i none)
  named_after f i = elim (Bool-cases (at == i)) [
    | inl s ↦
        let same : i ≡ at = ground arith in
        rw (same, get_or-set_self t.pcb at (some c) none (omega (arith, v.slots))) f
    | inr s ↦ rw (get_or-set_ne t.pcb at i (some c) none (ground arith)) (v.named i)
  ]

  -- A slot that is marked and filled.
  pub put-IsValid :
      View.IsValid bm
      → bm.num_bits ≡ t.bm.num_bits
      → bit bm ≡ update (bit t.bm) at true
      → HasFile (some c)
      → IsValid (record t { bm = bm; pcb = set t.pcb at (some c); psize = size })
  put-IsValid b n e f = record {
    bitmap = b;
    bits = n ∙ v.bits;
    slots = length-set t.pcb at (some c) ∙ v.slots;
    agree = agree_after e;
    named = named_after f;
  }

cleared :
    (t : ProcessTable) (i : ℕ) (bm : Bitmap)
    → IsValid t
    → View.IsValid bm
    → bm.num_bits ≡ t.bm.num_bits
    → bit bm ≡ update (bit t.bm) i false
    → IsValid (record t { bm = bm })
cleared t i bm v b n e = record {
  bitmap = b;
  bits = n ∙ v.bits;
  slots = v.slots;
  agree = λ j g set_j. elim (Bool-cases (i == j)) [
    | inl s ↦ absurd (let no_bit = rw s at (ap (λ (f : ℕ → Bool). f j) e) in cc)
    | inr s ↦ v.agree j g (rw s at (ap (λ (f : ℕ → Bool). f j) (sym e)) ∙ set_j)
  ];
  named = v.named;
}

-- What is left of a process whose thread has ended in `Remove`.
pub record Lingers (t : ProcessTable) (i : ℕ) (t' : ProcessTable) : Type 0 where
  pub valid : IsValid t'
  pub still_exists : is_exist t' (pos i) ≡ true
  pub slot_free : bit t'.bm i ≡ false
  pub same_slots : t'.pcb ≡ t.pcb
  pub same_count : t'.psize ≡ t.psize

-- `Remove` of a process of a valid table by the process's own thread ends that thread before the slot
-- is emptied: the bit of the slot is clear, so that the slot can be given away, but the process still
-- exists in the table, and is still counted.
pub remove-Lingers :
    (t : ProcessTable) (thread i : ℕ) (c : Pcb)
    → IsValid t
    → i < max_process
    → get_elem? t.pcb i ≡ some (some c)
    → c.thread ≡ some thread
    → (t' : ProcessTable) × (remove t thread (pos i) ≡ ok (finished t')) × Lingers t i t'
unfolding remove is_exist
remove-Lingers t thread i c v h at own =
    let u = clear-Updates i v.bitmap (omega (arith, v.bits)) in
    let inside : leb max_process i ≡ false = ground arith in
    let got = get_elem?-eq-get_or t.pcb i none (omega (arith, v.slots)) in
    let here : get_or t.pcb i none ≡ some c = cc in
    let self : (thread == thread) ≡ true = ground arith in
    let t' = record t { bm = u.out } in
    (
      t',
      rw (inside, here, u.returns, at, own, self) refl,
      record {
        valid = cleared t i u.out v u.valid u.same_size u.bits;
        still_exists = rw (inside, here) refl;
        slot_free = ap (λ (f : ℕ → Bool). f i) u.bits ∙ ground arith;
        same_slots = refl;
        same_count = refl;
      },
    )
