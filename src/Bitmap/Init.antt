-- ===== src/Bitmap/Init.antt =====
-- The constructor of `Bitmap`.
use project.Prelude.{
  ℕ, zero, suc, ◌+◌, ◌/◌, ◌<◌, ◌≡◌, refl, ◌∙◌, fun_ext, false, arith, pos, Exec, ok, lt→ltb,
  replicate, length-replicate, get_or-replicate,
}
use project.Bits.{zero-test_bit}
use project.Bitmap.{Bitmap, bits_in_word, div_round_up, clear, clear_from, init}
use project.Bitmap.View.{IsValid, bit, update, Updates}
use project.Bitmap.Laws.{clear-Updates}

-- `r` is a normal return of a bitmap of `n` bits, all clear.
pub record IsClear (n : ℕ) (r : Exec Bitmap) : Type 0 where
  pub out : Bitmap
  pub returns : r ≡ ok out
  pub valid : IsValid out
  pub size : out.num_bits ≡ n
  pub bits : bit out ≡ (λ _. false)

abbrev zeros : ℕ → Bitmap
zeros n =
    let k = div_round_up n bits_in_word in
    record { num_bits = n; num_words = k; map = replicate k 0 }

zeros-IsValid : (n : ℕ) → IsValid (zeros n)
zeros-IsValid n = record {
  rounded = refl;
  sized = length-replicate _ 0;
  words = λ i. rw (get_or-replicate {A = ℕ} (div_round_up n bits_in_word) i 0) (omega arith);
}

zeros-bits : (n : ℕ) → bit (zeros n) ≡ (λ _. false)
unfolding bit
zeros-bits n = fun_ext λ j.
    rw (get_or-replicate {A = ℕ} (div_round_up n bits_in_word) (j / bits_in_word) 0)
      (zero-test_bit _)

update_self : (i : ℕ) → update (λ _. false) i false ≡ (λ _. false)
update_self i = fun_ext λ j. ground arith

-- Clearing what is clear changes nothing that can be seen.
clear_from-IsClear :
    (left i n : ℕ) (b : Bitmap)
    → IsValid b
    → b.num_bits ≡ n
    → bit b ≡ (λ _. false)
    → i + left ≡ n
    → IsClear n (clear_from b left i)
unfolding clear_from
clear_from-IsClear zero i n b v s z e = record {
  out = b;
  returns = refl;
  valid = v;
  size = s;
  bits = z;
}
clear_from-IsClear (suc left) i n b v s z e =
    rw u.returns
      (clear_from-IsClear left (i + 1) n u.out u.valid (u.same_size ∙ s) cleared (omega arith))
  where
    u : Updates b i false (clear b (pos i))
    u = clear-Updates i v (omega arith)

    cleared : bit u.out ≡ (λ _. false)
    cleared = u.bits ∙ (rw z (update_self i))

-- A new bitmap of at least one bit has the size that was asked for, and every bit clear.
pub init-IsClear : (n : ℕ) → 0 < n → IsClear n (init (pos n))
unfolding init
init-IsClear n h =
    rw (lt→ltb 0 n h)
      (clear_from-IsClear n 0 n (zeros n) (zeros-IsValid n) refl (zeros-bits n) (omega arith))
