-- ===== src/Bitmap/View.antt =====
-- What a bitmap means: a finite map from bit numbers to Booleans. The words that hold it are hidden.
use project.Prelude.{
  ℕ, zero, suc, ◌+◌, ◌/◌, ◌%◌, ◌^◌, ◌<◌, ◌≡◌, Bool, Exec, ok, if◌then◌else◌, ◌==◌, length, get_or,
}
use project.Bits.{test_bit}
use project.Bitmap.{Bitmap, bits_in_word, div_round_up}

-- The words cover the bits, and each fits an `unsigned int`.
pub record IsValid (b : Bitmap) : Type 0 where
  pub rounded : b.num_words ≡ div_round_up b.num_bits bits_in_word
  pub sized : length b.map ≡ b.num_words
  pub words : (i : ℕ) → get_or b.map i 0 < 2 ^ 32

-- Is bit `i` set?
unfoldable pub bit : Bitmap → ℕ → Bool
bit b i = test_bit (get_or b.map (i / bits_in_word) 0) (i % bits_in_word)

abbrev pub update : (ℕ → Bool) → ℕ → Bool → ℕ → Bool
update f i v j = if i == j then v else f j

-- `r` is a normal return, with bit `i` changed to `v` and nothing else.
pub record Updates (b : Bitmap) (i : ℕ) (v : Bool) (r : Exec Bitmap) : Type 0 where
  pub out : Bitmap
  pub returns : r ≡ ok out
  pub valid : IsValid out
  pub same_size : out.num_bits ≡ b.num_bits
  pub bits : bit out ≡ update (bit b) i v

-- How many of the bits below `n` are clear.
unfoldable pub clear_count : (ℕ → Bool) → ℕ → ℕ
clear_count f zero = 0
clear_count f (suc n) = clear_count f n + (if f n then 0 else 1)
