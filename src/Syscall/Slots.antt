-- ===== src/Syscall/Slots.antt =====
-- The operations of the table, and those on a descriptor of the table, are safe on a kernel whose
-- machine and table are well formed.
use project.Prelude.{
  ℕ, zero, suc, ◌+◌, ◌<◌, ◌≡◌, ◌≢◌, inl, inr, ap, List, none, some, Option, ℤ, minus_one, Exec,
  ◌==ℤ◌, eq_of_==ℤ, Bool-cases,
}
use project.CString.{str_case_same}
use project.Host.{Host}
use project.Machine.Valid.{IsValid as IsMachine}
use project.FileTable.{
  Table, slot, capacity, get_file_descriptor, close_entry, close_in, opening_name_from,
  is_opening_with_name,
}
use project.FileTable.Descriptor.{FileDescriptor, OpenFile, close_file}
use project.FileTable.Search.{is_opening_cases}
use project.FileTable.Valid.{IsSlot, IsValid, set-IsValid}
use project.FileTable.Preserve.{Good}
use project.Syscall.{Kernel, at_descriptor}
use project.Syscall.Safety.{Safe, Safe-ok, Safe->>=}
use project.Syscall.Files.{Slotted, close_file-Safe}

-- A file is open under the identifier.
pub record HasFile (files : Table) (id : ℤ) : Type 0 where
  pub at : ℕ
  pub found : get_file_descriptor files id ≡ some at
  pub file : OpenFile
  pub is_file : (slot files at).file ≡ some file

pub record Stands (files : Table) (id : ℤ) (i : ℕ) : Type 0 where
  pub same : (slot files i).id ≡ id
  pub below : i < capacity

pub get_file_descriptor-Stands :
    (files : Table) (id : ℤ) (i : ℕ) → get_file_descriptor files id ≡ some i → Stands files id i
unfolding get_file_descriptor
get_file_descriptor-Stands files id i h = elim (is_opening_cases files id) [
  | inr n ↦
      absurd
        (let e : ◌≡◌ {A = Option ℕ} none (some i) = rw (n.is_none, get_file_descriptor) at h in cc)
  | inl f ↦
      let e : some f.at ≡ some i = rw (f.is_at, get_file_descriptor) at h in
      let e' : f.at ≡ i = ap (λ o. elim o [ none ↦ 0 | some j ↦ j ]) e in
      record { same = rw⁻¹ e' (eq_of_==ℤ _ _ f.passes); below = rw⁻¹ e' f.below }
]

-- No socket is open: every slot that is in use has a name.
abbrev pub Named : Table → Type 0
Named files =
    (i : ℕ) → (slot files i).mode ≢ minus_one → (n : List ℕ) × ((slot files i).name ≡ some n)

opening_name_from-Safe :
    (files : Table) (name : List ℕ) (left i : ℕ)
    → Named files
    → Safe (λ r. Unit {0}) (opening_name_from files name left i)
unfolding opening_name_from
opening_name_from-Safe files name zero i named = Safe-ok _ _ tt
opening_name_from-Safe files name (suc left) i named =
    let rest = opening_name_from-Safe files name left (i + 1) named in
    elim (Bool-cases ((slot files i).mode ==ℤ minus_one)) [
      | inl e ↦ rw e rest
      | inr e ↦
          let (n, h) = named i (λ bad. let e' = rw bad at e in cc) in
          rw (e, h)
            (elim (Bool-cases (str_case_same n name)) [
              | inl s ↦ rw s (Safe-ok _ _ tt)
              | inr s ↦ rw s rest
            ])
    ]

pub is_opening_with_name-Safe :
    (files : Table) (name : List ℕ)
    → Named files
    → Safe (λ r. Unit {0}) (is_opening_with_name files name)
unfolding is_opening_with_name
is_opening_with_name-Safe files name named = opening_name_from-Safe files name 18 2 named

module _ (host : Host) where
  open host use {World}

  pub record IsGood (k : Kernel host) : Type 0 where
    pub machine : IsMachine k.machine
    pub files : IsValid k.files

  pub at_descriptor-Safe :
      {A : Type 0} (P : A → Type 0) (k : Kernel host) (id : ℤ)
      (f : FileDescriptor → World → Exec (A × FileDescriptor × World))
      → IsGood k
      → (h : HasFile k.files id) → Safe (λ t. P t.0 × IsSlot t.1) (f (slot k.files h.at) k.world)
      → Safe (λ t. P t.0 × IsGood t.1) (at_descriptor host k id f)
  unfolding at_descriptor
  at_descriptor-Safe P k id f g h s =
      let st = get_file_descriptor-Stands k.files id h.at h.found in
      rw (h.found) (
        Safe->>= (λ t. P t.0 × IsSlot t.1) (λ t. P t.0 × IsGood t.1) (f (slot k.files h.at) k.world)
          _ s
          (λ t q.
            Safe-ok (λ t. P t.0 × IsGood t.1) _
              (
                q.0,
                record { machine = g.machine; files = set-IsValid h.at t.1 g.files q.1 st.below },
              )))

  pub close_entry-Safe :
      (files : Table) (id : ℤ) (w : World)
      → IsValid files
      → Safe (Good host) (close_entry host files id w)
  unfolding close_entry close_in
  close_entry-Safe files id w v = elim (is_opening_cases files id) [
    | inr n ↦ rw n.is_none (Safe-ok (Good host) _ v)
    | inl f ↦ rw f.is_at (
        Safe->>= (Slotted host) (Good host) (close_file host (slot files f.at) w) _
          (close_file-Safe host _ w (v.slots f.at))
          (λ t s. Safe-ok (Good host) _ (set-IsValid f.at t.1 v s f.below)))
  ]
