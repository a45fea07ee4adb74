-- ===== src/Prelude/Outcome.antt =====
-- How a piece of kernel code ends: with a value, with a failed ASSERT (the kernel aborts), by
-- undefined behaviour (an index outside its array, a NULL pointer followed), or in
-- `Interrupt::Halt`, which does not return.
use mathlib.Core.Path.{◌≡◌, refl}
use mathlib.Core.Bool.{Bool, true, false}
use mathlib.Core.Option.{Option, none, some}

pub data Exec {ℓ} (A : Type ℓ) : Type ℓ where
  ok : A → Exec A
  aborted : Exec A
  undefined : Exec A
  halted : Exec A

module _ {ℓ κ} {A : Type ℓ} {B : Type κ} where
  infixl 5 ◌>>=◌
  abbrev pub ◌>>=◌ : Exec A → (A → Exec B) → Exec B
  aborted >>= next = aborted
  undefined >>= next = undefined
  halted >>= next = halted
  ok value >>= next = next value

  -- If the whole returns, so did the first.
  pub >>=-eq-ok :
      (first : Exec A) (next : A → Exec B) {last : B}
      → (first >>= next) ≡ ok last
      → (middle : A) × (first ≡ ok middle) × (next middle ≡ ok last)
  >>=-eq-ok aborted next h = cc
  >>=-eq-ok undefined next h = cc
  >>=-eq-ok halted next h = cc
  >>=-eq-ok (ok middle) next h = (middle, refl, h)

pub >>=_assoc {ℓ κ μ} :
    {A : Type ℓ} {B : Type κ} {C : Type μ} (m : Exec A) (f : A → Exec B) (g : B → Exec C)
    → ((m >>= f) >>= g) ≡ (m >>= λ a. f a >>= g)
>>=_assoc (ok a) f g = refl
>>=_assoc aborted f g = refl
>>=_assoc undefined f g = refl
>>=_assoc halted f g = refl

-- One after the other, where the first has no value.
infixl 5 ◌>>◌
abbrev pub ◌>>◌ {κ} : {B : Type κ} → Exec (Unit {0}) → Exec B → Exec B
first >> then_this = first >>= λ _. then_this

-- `ASSERT(condition)` of lib/debug.h.
abbrev pub assert : Bool → Exec (Unit {0})
assert true = ok tt
assert false = aborted

-- An access that C leaves undefined where the element is not there.
abbrev pub defined {ℓ} : {A : Type ℓ} → Option A → Exec A
defined (some a) = ok a
defined none = undefined

-- `r` is a normal return, of a value with the property `P`.
pub record Returns {ℓ κ} {A : Type ℓ} (P : A → Type κ) (r : Exec A) : Type (ℓ ⊔ κ) where
  pub out : A
  pub is_out : r ≡ ok out
  pub holds : P out

pub Returns->>= {ℓ κ μ ν} :
    {A : Type ℓ} {B : Type μ} (P : A → Type κ) (Q : B → Type ν) (m : Exec A) (f : A → Exec B)
    → Returns P m
    → ((a : A) → P a → Returns Q (f a))
    → Returns Q (m >>= f)
Returns->>= P Q m f r next =
    let s = next r.out r.holds in
    record { out = s.out; is_out = rw r.is_out s.is_out; holds = s.holds }
