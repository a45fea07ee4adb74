-- ===== src/CString.antt =====
-- The functions of the C library that the kernel calls on strings. A `char *` stands as the list of
-- the bytes of its buffer; the string ends before the first zero byte.
use project.Prelude.{
  ℕ, zero, suc, ◌+◌, ◌≤◌, ◌≡◌, refl, ap, Bool, true, false, ◌&&◌, List, [], ◌∷◌, arith, ◌==◌, leb,
  if◌then◌else◌, length, take, inl, inr, Bool-cases,
}

-- The bytes before the terminator.
unfoldable pub chars : List ℕ → List ℕ
chars [] = []
chars (c ∷ s) = let rest = c ∷ chars s in if c == 0 then [] else rest

-- `strlen(s)`
unfoldable pub strlen : List ℕ → ℕ
strlen s = length (chars s)

-- `strlen(s) == 0`
unfoldable pub is_empty : List ℕ → Bool
is_empty [] = true
is_empty (c ∷ s) = c == 0

abbrev pub to_lower : ℕ → ℕ
to_lower c = if leb b'A' c && leb c b'Z' then c + 32 else c

-- Equality of two sequences of bytes, as `f` reads them.
pub same_by : (ℕ → ℕ) → List ℕ → List ℕ → Bool
same_by f [] [] = true
same_by f [] (d ∷ t) = false
same_by f (c ∷ s) [] = false
same_by f (c ∷ s) (d ∷ t) = f c == f d && same_by f s t

-- `strcmp(s, t) == 0`
unfoldable pub str_same : List ℕ → List ℕ → Bool
unfolding same_by
str_same s t = same_by (λ c. c) (chars s) (chars t)

-- `strcasecmp(s, t) == 0`
unfoldable pub str_case_same : List ℕ → List ℕ → Bool
unfolding same_by
str_case_same s t = same_by to_lower (chars s) (chars t)

same_by-eq : (s t : List ℕ) → same_by (λ c. c) s t ≡ true → s ≡ t
unfolding same_by
same_by-eq [] [] h = refl
same_by-eq [] (d ∷ t) h = cc
same_by-eq (c ∷ s) [] h = cc
same_by-eq (c ∷ s) (d ∷ t) h = ground (arith, same_by-eq s t)

same_by_refl : (f : ℕ → ℕ) (s : List ℕ) → same_by f s s ≡ true
unfolding same_by
same_by_refl f [] = refl
same_by_refl f (c ∷ s) = ground (arith, same_by_refl f s)

pub str_same_refl : (s : List ℕ) → str_same s s ≡ true
unfolding str_same
str_same_refl s = same_by_refl (λ c. c) (chars s)

pub str_case_same_refl : (s : List ℕ) → str_case_same s s ≡ true
unfolding str_case_same
str_case_same_refl s = same_by_refl to_lower (chars s)

pub str_same-eq : (s t : List ℕ) → str_same s t ≡ true → chars s ≡ chars t
unfolding str_same
str_same-eq s t h = same_by-eq (chars s) (chars t) h

pub eq-str_same : (s t : List ℕ) → chars s ≡ chars t → str_same s t ≡ true
unfolding str_same
eq-str_same s t h = rw h (same_by_refl (λ c. c) (chars t))

-- What `strncmp` with the limit `n` looks at.
abbrev pub prefix : ℕ → List ℕ → List ℕ
prefix n s = take n (chars s)

-- `strncmp(s, t, n) == 0`
unfoldable pub strn_same : ℕ → List ℕ → List ℕ → Bool
unfolding same_by
strn_same n s t = same_by (λ c. c) (prefix n s) (prefix n t)

-- The buffer `dest` after `strncpy(dest, s, n)`: after the end of `s` it is filled with zeros.
unfoldable pub strncpy : ℕ → List ℕ → List ℕ → List ℕ
strncpy zero s dest = dest
strncpy (suc n) s [] = []
strncpy (suc n) [] (d ∷ dest) = 0 ∷ strncpy n [] dest
strncpy (suc n) (c ∷ s) (d ∷ dest) = c ∷ strncpy n (if c == 0 then [] else s) dest

pub strn_same-eq : (n : ℕ) (s t : List ℕ) → strn_same n s t ≡ true → prefix n s ≡ prefix n t
unfolding strn_same
strn_same-eq n s t h = same_by-eq (prefix n s) (prefix n t) h

pub eq-strn_same : (n : ℕ) (s t : List ℕ) → prefix n s ≡ prefix n t → strn_same n s t ≡ true
unfolding strn_same
eq-strn_same n s t h = rw h (same_by_refl (λ c. c) (prefix n t))

pub prefix-strncpy :
    (n : ℕ) (s dest : List ℕ) → n ≤ length dest → prefix n (strncpy n s dest) ≡ prefix n s
unfolding strncpy chars
prefix-strncpy zero s dest h = refl
prefix-strncpy (suc n) s [] h = absurd (omega arith)
prefix-strncpy (suc n) [] (d ∷ dest) h = refl
prefix-strncpy (suc n) (c ∷ s) (d ∷ dest) h = elim (Bool-cases (c == 0)) [
  | inl e ↦ rw e refl
  | inr e ↦ rw e (ap (λ (r : List ℕ). c ∷ r) (prefix-strncpy n s dest (omega arith)))
]

pub length-strncpy : (n : ℕ) (s dest : List ℕ) → length (strncpy n s dest) ≡ length dest
unfolding strncpy
length-strncpy zero s dest = refl
length-strncpy (suc n) s [] = refl
length-strncpy (suc n) [] (d ∷ dest) = ap suc (length-strncpy n [] dest)
length-strncpy (suc n) (c ∷ s) (d ∷ dest) =
    ap suc (length-strncpy n (if c == 0 then [] else s) dest)
