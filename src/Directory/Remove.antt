-- ===== src/Directory/Remove.antt =====
-- `Directory::Remove` as an update of the map.
use project.Prelude.{
  ℕ, zero, suc, ◌+◌, ◌≡◌, refl, sym, subst, ◌∙◌, ap, Bool, true, false, List, [], ◌∷◌, Option, none,
  some, ok, inl, inr, Bool-cases, arith, if◌then◌else◌, ℤ, pos, get_elem?, set, Exec,
}
use project.CString.{strn_same, strn_same-eq, eq-strn_same}
use project.Directory.{
  DirectoryEntry, Directory, file_name_max_len, is_entry, unused, remove, find_index_from,
}
use project.Directory.View.{view, IsValid, strn_same-Same, view-Same, find_index_cases}

-- The map without a name.
abbrev pub erase : (List ℕ → Option ℤ) → List ℕ → List ℕ → Option ℤ
erase f name q = if strn_same file_name_max_len name q then none else f q

record Erased (table : List DirectoryEntry) (name : List ℕ) (out : List DirectoryEntry)
    : Type 0 where
  valid : IsValid out
  viewed : (q : List ℕ) → view out q ≡ erase (view table) name q

erase_here :
    (e : DirectoryEntry) (table : List DirectoryEntry) (name : List ℕ)
    → IsValid (e ∷ table)
    → e.in_use ≡ true
    → strn_same file_name_max_len e.name name ≡ true
    → Erased (e ∷ table) name (unused e ∷ table)
erase_here e table name v used named =
    let same = strn_same-eq file_name_max_len e.name name named in
    record {
      valid = (v.0, (λ h. cc), v.2);
      viewed = λ q. elim (Bool-cases (strn_same file_name_max_len name q)) [
        | inl n ↦
            let there = same ∙ strn_same-eq file_name_max_len name q n in
            rw n (view-Same table q e.name (sym there) ∙ v.1 used)
        | inr n ↦ elim (Bool-cases (strn_same file_name_max_len e.name q)) [
          | inr m ↦ let other : is_entry e q ≡ false = ground arith in rw (n, other) refl
          | inl m ↦
              let r =
                eq-strn_same file_name_max_len name q
                  (sym same ∙ strn_same-eq file_name_max_len e.name q m) in
              absurd cc
        ]
      ];
    }

erase_later :
    (e : DirectoryEntry) (table out : List DirectoryEntry) (name : List ℕ)
    → IsValid (e ∷ table)
    → is_entry e name ≡ false
    → Erased table name out
    → Erased (e ∷ table) name (e ∷ out)
erase_later e table out name v other f = record {
  valid = (
    v.0,
    (λ h. elim (Bool-cases (strn_same file_name_max_len name e.name)) [
      | inl n ↦ f.viewed e.name ∙ rw n refl
      | inr n ↦ f.viewed e.name ∙ rw n (v.1 h)
    ]),
    f.valid,
  );
  viewed = λ q. elim (Bool-cases (strn_same file_name_max_len name q)) [
    | inl n ↦
        let same = strn_same-Same e name q (strn_same-eq file_name_max_len name q n) in
        let not_here : is_entry e q ≡ false = ground arith in rw (not_here, n, f.viewed q, n) refl
    | inr n ↦ rw (f.viewed q, n) refl
  ];
}

erase_at :
    (table : List DirectoryEntry) (name : List ℕ) (i at : ℕ) (e : DirectoryEntry)
    → IsValid table
    → find_index_from table name i ≡ pos (i + at)
    → get_elem? table at ≡ some e
    → e.in_use ≡ true
    → strn_same file_name_max_len e.name name ≡ true
    → Erased table name (set table at (unused e))
unfolding find_index_from
erase_at [] name i at e v h here used named = cc
erase_at (x ∷ table) name i zero e v h here used named =
    let same : e ≡ x = cc in
    subst (λ (y : DirectoryEntry). Erased (x ∷ table) name (unused y ∷ table)) (sym same)
      (erase_here x table name v (ap (λ (y : DirectoryEntry). y.in_use) (sym same) ∙ used)
        (ap (λ (y : DirectoryEntry). strn_same file_name_max_len y.name name) (sym same) ∙ named))
erase_at (x ∷ table) name i (suc at) e v h here used named = elim (Bool-cases (is_entry x name)) [
  | inl b ↦ absurd (let r = rw b at h in ground arith)
  | inr b ↦
      let later : find_index_from table name (i + 1) ≡ pos (i + 1 + at) =
        rw b at h ∙ ap pos (omega arith) in
      erase_later x table (set table at (unused e)) name v b
        (erase_at table name (i + 1) at e v.2 later here used named)
]

pub data Removes (d : Directory) (name : List ℕ) (r : Exec (Bool × Directory)) : Type 0 where
  unknown : view d.table name ≡ none → r ≡ ok (false, d) → Removes d name r
  removed :
      (at : ℤ) (d' : Directory)
      → view d.table name ≡ some at
      → r ≡ ok (true, d')
      → IsValid d'.table
      → ((q : List ℕ) → view d'.table q ≡ erase (view d.table) name q)
      → Removes d name r

-- On a valid directory `Remove` returns FALSE and changes nothing if the name is not there; otherwise
-- it returns TRUE, and the directory is valid and maps the name to nothing and every other name to
-- what it was mapped to.
pub remove-Removes :
    (d : Directory) (name : List ℕ) → IsValid d.table → Removes d name (remove d name)
unfolding remove
remove-Removes d name v = elim (find_index_cases d.table name 0) [
  | inr f ↦ unknown f.viewed (rw f.result refl)
  | inl f ↦
      let at_zero : 0 + f.at ≡ f.at = omega arith in
      let out = erase_at d.table name 0 f.at f.entry v f.result f.here f.used f.named in
      removed f.entry.sector (record { table = set d.table f.at (unused f.entry) }) f.viewed
        (rw (f.result, at_zero, f.here) refl) out.valid out.viewed
]
