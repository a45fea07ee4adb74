-- ===== src/Bitmap/Find.antt =====
-- `FindAndSet`: a search for the lowest clear bit.
use project.Prelude.{
  ℕ, zero, suc, ◌+◌, ◌≤◌, ◌<◌, ◌≡◌, refl, ap, ◌∙◌, ==_iff, ◌⊎◌, inl, inr, true, false, arith, ℤ,
  pos, minus_one, Exec, ok, ◌==◌, Bool-cases,
}
use project.Bitmap.{Bitmap, mark, find_from, find_and_set}
use project.Bitmap.View.{IsValid, bit, update, Updates}
use project.Bitmap.Laws.{test_lem, mark-Updates}

-- The search from `i` met the clear bit `at` first, returned it, and set it.
pub record Found (b : Bitmap) (i : ℕ) (r : Exec (ℤ × Bitmap)) : Type 0 where
  pub at : ℕ
  pub out : Bitmap
  pub returns : r ≡ ok (pos at, out)
  pub from : i ≤ at
  pub in_range : at < b.num_bits
  pub was_clear : bit b at ≡ false
  pub lowest : (j : ℕ) → i ≤ j → j < at → bit b j ≡ true
  pub valid : IsValid out
  pub same_size : out.num_bits ≡ b.num_bits
  pub bits : bit out ≡ update (bit b) at true

-- The search from `i` met no clear bit: -1, and the bitmap as it was.
pub record Full (b : Bitmap) (i : ℕ) (r : Exec (ℤ × Bitmap)) : Type 0 where
  pub returns : r ≡ ok (minus_one, b)
  pub all_set : (j : ℕ) → i ≤ j → j < b.num_bits → bit b j ≡ true

find_hit :
    (b : Bitmap) (left i : ℕ)
    → IsValid b
    → i < b.num_bits
    → bit b i ≡ false
    → Found b i (find_from b (suc left) i)
unfolding find_from
find_hit b left i v h c = record {
  at = i;
  out = u.out;
  returns = ground (arith, test_lem i v h, u.returns);
  from = omega arith;
  in_range = h;
  was_clear = c;
  lowest = λ j p q. absurd (omega arith);
  valid = u.valid;
  same_size = u.same_size;
  bits = u.bits;
}
  where
    u : Updates b i true (mark b (pos i))
    u = mark-Updates i v h

find_miss :
    (b : Bitmap) (left i : ℕ)
    → IsValid b
    → i < b.num_bits
    → bit b i ≡ true
    → find_from b (suc left) i ≡ find_from b left (i + 1)
unfolding find_from
find_miss b left i v h c = ground (arith, test_lem i v h)

extend :
    (b : Bitmap) (i n : ℕ)
    → bit b i ≡ true
    → ((j : ℕ) → i + 1 ≤ j → j < n → bit b j ≡ true)
    → (j : ℕ) → i ≤ j
    → j < n
    → bit b j ≡ true
extend b i n c rest j p q = elim (Bool-cases (i == j)) [
  | inl same ↦ ground (arith, ap (bit b) ((==_iff i j).0 same))
  | inr other ↦ rest j (ground arith) q
]

find_from_cases :
    (left i : ℕ) (b : Bitmap)
    → IsValid b
    → i + left ≡ b.num_bits
    → Found b i (find_from b left i) ⊎ Full b i (find_from b left i)
unfolding find_from
find_from_cases zero i b v e =
    inr (record { returns = refl; all_set = λ j p q. absurd (omega arith) })
find_from_cases (suc left) i b v e = elim (Bool-cases (bit b i)) [
  | inr c ↦ inl (find_hit b left i v (omega arith) c)
  | inl c ↦ later c (find_from_cases left (i + 1) b v (omega arith))
]
  where
    later :
        bit b i ≡ true
        → Found b (i + 1) (find_from b left (i + 1)) ⊎ Full b (i + 1) (find_from b left (i + 1))
        → Found b i (find_from b (suc left) i) ⊎ Full b i (find_from b (suc left) i)
    later c (inl f) = inl (record {
      at = f.at;
      out = f.out;
      returns = find_miss b left i v (omega arith) c ∙ f.returns;
      from = omega (arith, f.from);
      in_range = f.in_range;
      was_clear = f.was_clear;
      lowest = extend b i f.at c f.lowest;
      valid = f.valid;
      same_size = f.same_size;
      bits = f.bits;
    })
    later c (inr f) = inr (record {
      returns = find_miss b left i v (omega arith) c ∙ f.returns;
      all_set = extend b i b.num_bits c f.all_set;
    })

-- `FindAndSet` on a well-formed bitmap returns the lowest clear bit and sets that bit alone, or
-- returns -1 and changes nothing when every bit is set.
pub find_and_set_cases :
    (b : Bitmap) → IsValid b → Found b 0 (find_and_set b) ⊎ Full b 0 (find_and_set b)
unfolding find_and_set
find_and_set_cases b v = find_from_cases b.num_bits 0 b v (omega arith)
