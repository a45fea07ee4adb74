-- ===== src/Bitmap/Laws.antt =====
-- `Test`, `Mark`, `Clear` and the constructor against the view of a bitmap.
use native.Mathlib.Nat.{one-le-pow, le_refl}
use native.Mathlib.Decide.{ℕ_discrete}
use project.Prelude.{
  ℕ, zero, suc, ◌/◌, ◌%◌, ◌^◌, ◌≤◌, ◌<◌, ◌≡◌, refl, ◌∙◌, ap, fun_ext, Bool, true, false, arith,
  List, [], ◌∷◌, pos, ok, aborted, ◌==◌, if◌then◌else◌, lt→ltb, le→not_ltb, bit_and, bit_or, get_or,
  set, length, length-set, get_elem?-eq-get_or, get_or-set_self, get_or-set_ne,
}
use project.Bits.{
  test_bit, test_bit-and, test_bit-or, test_bit-pow, test_bit-complement, bit_and-pow, bit_and-le,
  bit_or-lt, pow-lt,
}
use project.Bitmap.{Bitmap, mask, complement, test, mark, clear}
use project.Bitmap.View.{IsValid, bit, update, Updates}

in_words : {b : Bitmap} (i : ℕ) → IsValid b → i < b.num_bits → i / 32 < length b.map
in_words i v h = ground arith

-- In range, `Test` returns the bit.
pub test_lem : {b : Bitmap} (i : ℕ) → IsValid b → i < b.num_bits → test b (pos i) ≡ ok (bit b i)
unfolding test bit
test_lem {b} i v h = ground (
  arith,
  lt→ltb i b.num_bits h,
  get_elem?-eq-get_or b.map (i / 32) 0 (in_words i v h),
  bit_and-pow (i % 32) (get_or b.map (i / 32) 0),
  one-le-pow (i % 32) 2,
)

-- A word rewritten at one bit changes the view there only.
bit-set :
    (b : Bitmap) (i w : ℕ) (x : Bool)
    → i / 32 < length b.map
    → ((j : ℕ)
        → j < 32
        → test_bit w j ≡ (if i % 32 == j then x else test_bit (get_or b.map (i / 32) 0) j))
    → bit (record b { map = set b.map (i / 32) w }) ≡ update (bit b) i x
unfolding bit
bit-set b i w x h e = fun_ext λ j. elim (ℕ_discrete (i / 32) (j / 32)) [
  | yes same ↦ ground (
    arith,
    e (j % 32) (omega arith),
    get_or-set_self b.map (i / 32) w 0 h,
    ap (λ (k : ℕ). get_or (set b.map (i / 32) w) k 0) same,
    ap (λ (k : ℕ). get_or b.map k 0) same,
  )
  | no other ↦ ground (arith, get_or-set_ne b.map (i / 32) (j / 32) w 0 other)
]

get_or-set_lt :
    (xs : List ℕ) (i j w n : ℕ) → w < n → get_or xs j 0 < n → get_or (set xs i w) j 0 < n
get_or-set_lt [] i j w n h g = g
get_or-set_lt (x ∷ xs) zero zero w n h g = h
get_or-set_lt (x ∷ xs) zero (suc j) w n h g = g
get_or-set_lt (x ∷ xs) (suc i) zero w n h g = g
get_or-set_lt (x ∷ xs) (suc i) (suc j) w n h g = get_or-set_lt xs i j w n h g

-- Rewriting one word with a word keeps the bitmap well formed.
set-IsValid :
    {b : Bitmap} (i w : ℕ) → IsValid b → w < 2 ^ 32 → IsValid (record b { map = set b.map i w })
set-IsValid {b} i w v h = record {
  rounded = v.rounded;
  sized = length-set b.map i w ∙ v.sized;
  words = λ j. get_or-set_lt b.map i j w _ h (v.words j);
}

mark_word :
    (i j a : ℕ) → test_bit (bit_or a (mask i)) j ≡ (if i % 32 == j then true else test_bit a j)
mark_word i j a = ground (arith, test_bit-or j a (mask i), test_bit-pow (i % 32) j)

clear_word :
    (i j a : ℕ)
    → j < 32
    → test_bit (bit_and a (complement (mask i))) j ≡ (if i % 32 == j then false else test_bit a j)
clear_word i j a h = ground (
  arith,
  test_bit-and j a (complement (mask i)),
  test_bit-complement 32 (i % 32) j (omega arith) h,
)

-- In range, `Mark` returns with the bit set and the others as they were: its own check passes.
pub mark-Updates :
    {b : Bitmap} (i : ℕ) → IsValid b → i < b.num_bits → Updates b i true (mark b (pos i))
unfolding mark
mark-Updates {b} i v h = record {
  out = b';
  returns = ground (
    arith,
    lt→ltb i b.num_bits h,
    get_elem?-eq-get_or b.map (i / 32) 0 (in_words i v h),
    test_lem {b = b'} i valid' h,
    ap (λ (f : ℕ → Bool). f i) bits',
  );
  valid = valid';
  same_size = refl;
  bits = bits';
}
  where
    w : ℕ
    w = bit_or (get_or b.map (i / 32) 0) (mask i)

    b' : Bitmap
    b' = record b { map = set b.map (i / 32) w }

    valid' : IsValid b'
    valid' =
        set-IsValid (i / 32) w v
          (bit_or-lt 32 _ _ (v.words (i / 32)) (pow-lt (i % 32) 32 (omega arith)))

    bits' : bit b' ≡ update (bit b) i true
    bits' = bit-set b i w true (in_words i v h) (λ j _. mark_word i j _)

-- In range, `Clear` returns with the bit clear and the others as they were.
pub clear-Updates :
    {b : Bitmap} (i : ℕ) → IsValid b → i < b.num_bits → Updates b i false (clear b (pos i))
unfolding clear
clear-Updates {b} i v h = record {
  out = b';
  returns = ground (
    arith,
    lt→ltb i b.num_bits h,
    get_elem?-eq-get_or b.map (i / 32) 0 (in_words i v h),
    test_lem {b = b'} i valid' h,
    ap (λ (f : ℕ → Bool). f i) bits',
  );
  valid = valid';
  same_size = refl;
  bits = bits';
}
  where
    word : ℕ
    word = get_or b.map (i / 32) 0

    b' : Bitmap
    b' = record b { map = set b.map (i / 32) (bit_and word (complement (mask i))) }

    valid' : IsValid b'
    valid' =
        set-IsValid (i / 32) _ v (
          omega
            (arith, bit_and-le word word (complement (mask i)) (le_refl word), v.words (i / 32)))

    bits' : bit b' ≡ update (bit b) i false
    bits' = bit-set b i _ false (in_words i v h) (λ j g. clear_word i j word g)

-- Outside the bitmap the three methods fail their ASSERT.
pub out_of_range :
    (b : Bitmap) (i : ℕ)
    → b.num_bits ≤ i
    → (test b (pos i) ≡ aborted) × (mark b (pos i) ≡ aborted) × (clear b (pos i) ≡ aborted)
unfolding test mark clear
out_of_range b i h = ground (arith, le→not_ltb i b.num_bits h)
