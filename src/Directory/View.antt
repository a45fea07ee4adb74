-- ===== src/Directory/View.antt =====
-- The directory as a map from names to sectors, and `Find`.
use project.Prelude.{
  ℕ, suc, ◌+◌, ◌≡◌, refl, ◌∙◌, ap, true, List, [], ◌∷◌, Option, none, some, ok, ◌⊎◌, inl, inr,
  Bool-cases, arith, if◌then◌else◌, ℤ, pos, minus_one, get_elem?, length,
}
use project.CString.{prefix, strn_same}
use project.Directory.{
  DirectoryEntry, Directory, file_name_max_len, is_entry, find_index_from, find,
}

-- The sector of the first entry of a name.
abbrev pub view : List DirectoryEntry → List ℕ → Option ℤ
view [] name = none
view (e ∷ table) name =
    let rest = view table name in if is_entry e name then some e.sector else rest

-- No two entries in use have the same name, and names fill their arrays.
abbrev pub IsValid : List DirectoryEntry → Type 0
IsValid [] = Unit
IsValid (e ∷ table) =
    (length e.name ≡ suc file_name_max_len)
    × (e.in_use ≡ true → view table e.name ≡ none)
    × IsValid table

-- Two names that `strncmp` does not tell apart.
abbrev pub Same : List ℕ → List ℕ → Type 0
Same a b = prefix file_name_max_len a ≡ prefix file_name_max_len b

pub strn_same-Same :
    (e : DirectoryEntry) (a b : List ℕ)
    → Same a b
    → strn_same file_name_max_len e.name a ≡ strn_same file_name_max_len e.name b
unfolding strn_same
strn_same-Same e a b s = rw s refl

pub view-Same :
    (table : List DirectoryEntry) (a b : List ℕ) → Same a b → view table a ≡ view table b
view-Same [] a b s = refl
view-Same (e ∷ table) a b s = rw (strn_same-Same e a b s, view-Same table a b s) refl

-- The search found entry `at`, the first of the name.
pub record Hit (table : List DirectoryEntry) (name : List ℕ) (i : ℕ) (r : ℤ) : Type 0 where
  pub at : ℕ
  pub entry : DirectoryEntry
  pub result : r ≡ pos (i + at)
  pub here : get_elem? table at ≡ some entry
  pub used : entry.in_use ≡ true
  pub named : strn_same file_name_max_len entry.name name ≡ true
  pub viewed : view table name ≡ some entry.sector

pub record Miss (table : List DirectoryEntry) (name : List ℕ) (r : ℤ) : Type 0 where
  pub result : r ≡ minus_one
  pub viewed : view table name ≡ none

pub find_index_cases :
    (table : List DirectoryEntry) (name : List ℕ) (i : ℕ)
    → Hit table name i (find_index_from table name i)
      ⊎ Miss table name (find_index_from table name i)
unfolding find_index_from
find_index_cases [] name i = inr (record { result = refl; viewed = refl })
find_index_cases (e ∷ table) name i = elim (Bool-cases (is_entry e name)) [
  | inl h ↦ inl (record {
    at = 0;
    entry = e;
    result = rw h (ap pos (omega arith));
    here = refl;
    used = ground arith;
    named = ground arith;
    viewed = rw h refl;
  })
  | inr h ↦ elim (find_index_cases table name (i + 1)) [
    | inl f ↦ inl (record {
      at = suc f.at;
      entry = f.entry;
      result = rw h (f.result ∙ ap pos (omega arith));
      here = f.here;
      used = f.used;
      named = f.named;
      viewed = rw h f.viewed;
    })
    | inr f ↦ inr (record { result = rw h f.result; viewed = rw h f.viewed })
  ]
]

abbrev pub sector_or : Option ℤ → ℤ
sector_or none = minus_one
sector_or (some s) = s

-- `Find` gives the sector of the name, or -1 where no entry in use has the name.
pub find_lem : (d : Directory) (name : List ℕ) → find d name ≡ ok (sector_or (view d.table name))
unfolding find
find_lem d name = elim (find_index_cases d.table name 0) [
  | inl f ↦
      let at_zero : 0 + f.at ≡ f.at = omega arith in rw (f.result, at_zero, f.here, f.viewed) refl
  | inr f ↦ rw (f.result, f.viewed) refl
]
