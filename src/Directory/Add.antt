-- ===== src/Directory/Add.antt =====
-- `Directory::Add` as an update of the map.
use project.Prelude.{
  ℕ, suc, ◌≡◌, refl, sym, ◌∙◌, ap, Bool, true, false, not, List, [], ◌∷◌, Option, none, some, ◌⊎◌,
  inl, inr, Bool-cases, arith, if◌then◌else◌, ℤ, length,
}
use project.CString.{strn_same, strn_same-eq, eq-strn_same, prefix-strncpy, length-strncpy}
use project.Directory.{
  DirectoryEntry, Directory, file_name_max_len, is_entry, filled, fill_free, add,
}
use project.Directory.View.{view, IsValid, strn_same-Same, view-Same, find_index_cases}

-- The map with one more name.
abbrev pub update : (List ℕ → Option ℤ) → List ℕ → ℤ → List ℕ → Option ℤ
update f name s q = if strn_same file_name_max_len name q then some s else f q

abbrev pub IsFull : List DirectoryEntry → Type 0
IsFull [] = Unit
IsFull (e ∷ table) = (e.in_use ≡ true) × IsFull table

same_copy :
    (e : DirectoryEntry) (name q : List ℕ) (s : ℤ)
    → length e.name ≡ suc file_name_max_len
    → strn_same file_name_max_len (filled e name s).name q ≡ strn_same file_name_max_len name q
unfolding strn_same
same_copy e name q s h = rw (prefix-strncpy file_name_max_len name e.name (omega arith)) refl

-- A free entry was filled: a valid table again, with the name in the map.
pub record Filled (table : List DirectoryEntry) (name : List ℕ) (s : ℤ)
    (r : Option (List DirectoryEntry)) : Type 0 where
  pub out : List DirectoryEntry
  pub returns : r ≡ some out
  pub valid : IsValid out
  pub viewed : (q : List ℕ) → view out q ≡ update (view table) name s q

absent_head :
    (e : DirectoryEntry) (table : List DirectoryEntry) (name : List ℕ)
    → view (e ∷ table) name ≡ none
    → (is_entry e name ≡ false) × (view table name ≡ none)
absent_head e table name h = elim (Bool-cases (is_entry e name)) [
  | inl b ↦ absurd (let g = rw b at h in cc)
  | inr b ↦ (b, rw b at h)
]

same_sym :
    (a b : List ℕ)
    → strn_same file_name_max_len a b ≡ false
    → strn_same file_name_max_len b a ≡ false
same_sym a b h = elim (Bool-cases (strn_same file_name_max_len b a)) [
  | inr e ↦ e
  | inl e ↦
      let r = eq-strn_same file_name_max_len a b (sym (strn_same-eq file_name_max_len b a e)) in
      absurd cc
]

fill_here :
    (e : DirectoryEntry) (table : List DirectoryEntry) (name : List ℕ) (s : ℤ)
    → IsValid (e ∷ table)
    → e.in_use ≡ false
    → view table name ≡ none
    → Filled (e ∷ table) name s (fill_free (e ∷ table) name s)
unfolding fill_free
fill_here e table name s v free absent = record {
  out = filled e name s ∷ table;
  returns = rw free refl;
  valid = (
    length-strncpy file_name_max_len name e.name ∙ v.0,
    (λ h.
        view-Same table (filled e name s).name name
          (prefix-strncpy file_name_max_len name e.name (omega (arith, v.0)))
        ∙ absent),
    v.2,
  );
  viewed = λ q. rw (same_copy e name q s v.0, free) refl;
}

fill_later :
    (e : DirectoryEntry) (table : List DirectoryEntry) (name : List ℕ) (s : ℤ)
    → IsValid (e ∷ table)
    → e.in_use ≡ true
    → is_entry e name ≡ false
    → Filled table name s (fill_free table name s)
    → Filled (e ∷ table) name s (fill_free (e ∷ table) name s)
unfolding fill_free
fill_later e table name s v used other f =
    let differs : strn_same file_name_max_len e.name name ≡ false = ground arith in
    record {
      out = e ∷ f.out;
      returns = rw (ap not used, f.returns) refl;
      valid = (v.0, (λ h. f.viewed e.name ∙ rw (same_sym e.name name differs) (v.1 h)), f.valid);
      viewed = λ q. elim (Bool-cases (strn_same file_name_max_len name q)) [
        | inl n ↦
            let same = strn_same-Same e name q (strn_same-eq file_name_max_len name q n) in
            let not_here : is_entry e q ≡ false = ground arith in
            rw (not_here, n, f.viewed q, n) refl
        | inr n ↦ rw (f.viewed q, n) refl
      ];
    }

fill_free_cases :
    (table : List DirectoryEntry) (name : List ℕ) (s : ℤ)
    → IsValid table
    → view table name ≡ none
    → Filled table name s (fill_free table name s)
      ⊎ (IsFull table × (fill_free table name s ≡ none))
unfolding fill_free
fill_free_cases [] name s v absent = inr (tt, refl)
fill_free_cases (e ∷ table) name s v absent =
    let (other, later) = absent_head e table name absent in
    let rest = fill_free_cases table name s v.2 later in
    elim (Bool-cases e.in_use) [
      | inr free ↦ inl (fill_here e table name s v free later)
      | inl used ↦ elim rest [
        | inl f ↦ inl (fill_later e table name s v used other f)
        | inr f ↦ inr ((used, f.0), rw (ap not used, f.1) refl)
      ]
    ]

-- What `Add` does to a valid directory.
pub data Adds (d : Directory) (name : List ℕ) (s : ℤ) (r : Bool × Directory) : Type 0 where
  known : (at : ℤ) → view d.table name ≡ some at → r ≡ (false, d) → Adds d name s r
  full : view d.table name ≡ none → IsFull d.table → r ≡ (false, d) → Adds d name s r
  added :
      (d' : Directory)
      → view d.table name ≡ none
      → r ≡ (true, d')
      → IsValid d'.table
      → ((q : List ℕ) → view d'.table q ≡ update (view d.table) name s q)
      → Adds d name s r

-- On a valid directory `Add` returns FALSE and changes nothing if the name is there or every entry is
-- in use; otherwise it returns TRUE, and the directory is valid and maps the name to the sector and
-- every other name to what it was mapped to.
pub add-Adds :
    (d : Directory) (name : List ℕ) (s : ℤ) → IsValid d.table → Adds d name s (add d name s)
unfolding add
add-Adds d name s v = elim (find_index_cases d.table name 0) [
  | inl f ↦ known f.entry.sector f.viewed (rw f.result refl)
  | inr f ↦ elim (fill_free_cases d.table name s v f.viewed) [
    | inl g ↦
        added (record { table = g.out }) f.viewed (rw (f.result, g.returns) refl) g.valid g.viewed
    | inr g ↦ full f.viewed g.0 (rw (f.result, g.1) refl)
  ]
]
