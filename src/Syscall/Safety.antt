-- ===== src/Syscall/Safety.antt =====
-- Code without undefined behaviour: it returns a value with some property, or the kernel stops.
use project.Prelude.{
  ◌≡◌, refl, subst, inl, inr, Bool, true, false, Exec, ok, aborted, undefined, halted, ◌>>=◌, ◌>>◌,
  assert, Returns,
}
use project.UserMemory.Byte.{HaltsOr}

pub Safe {ℓ} : {A : Type ℓ} → (A → Type 0) → Exec A → Type 0
Safe P (ok a) = P a
Safe P aborted = Unit {0}
Safe P halted = Unit {0}
Safe P undefined = ⊥

pub Safe-ok {ℓ} : {A : Type ℓ} (P : A → Type 0) (a : A) → P a → Safe P (ok a)
unfolding Safe
Safe-ok P a p = p

pub Safe->>= {ℓ κ} :
    {A : Type ℓ} {B : Type κ} (P : A → Type 0) (Q : B → Type 0) (r : Exec A) (f : A → Exec B)
    → Safe P r
    → ((a : A) → P a → Safe Q (f a))
    → Safe Q (r >>= f)
unfolding Safe
Safe->>= P Q (ok a) f s next = next a s
Safe->>= P Q aborted f s next = tt
Safe->>= P Q halted f s next = tt
Safe->>= P Q undefined f s next = absurd s

pub Safe-weaken {ℓ} :
    {A : Type ℓ} (P Q : A → Type 0) (r : Exec A) → ((a : A) → P a → Q a) → Safe P r → Safe Q r
unfolding Safe
Safe-weaken P Q (ok a) f s = f a s
Safe-weaken P Q aborted f s = tt
Safe-weaken P Q halted f s = tt
Safe-weaken P Q undefined f s = absurd s

pub Safe-assert {ℓ} :
    {A : Type ℓ} (P : A → Type 0) (b : Bool) (r : Exec A) → Safe P r → Safe P (assert b >> r)
unfolding Safe
Safe-assert P true r s = s
Safe-assert P false r s = tt

pub Returns-Safe {ℓ} : {A : Type ℓ} (P : A → Type 0) (r : Exec A) → Returns P r → Safe P r
unfolding Safe
Returns-Safe P r s = rw s.is_out s.holds

pub HaltsOr-Safe {ℓ} : {A : Type ℓ} (P : A → Type 0) (r : Exec A) → HaltsOr P r → Safe P r
unfolding Safe
HaltsOr-Safe P r (inl h) = rw h tt
HaltsOr-Safe P r (inr s) = Returns-Safe P r s

pub Safe-value {ℓ} : {A : Type ℓ} (P : A → Type 0) (r : Exec A) (a : A) → r ≡ ok a → Safe P r → P a
unfolding Safe
Safe-value P r a e s = subst (λ q. Safe P q) e s

-- A value that is known to be what the code returned.
pub Safe-known :
    {A : Type 0} (P : A → Type 0) (r : Exec A) → Safe P r → Safe (λ a. P a × (r ≡ ok a)) r
unfolding Safe
Safe-known P (ok a) s = (s, refl)
Safe-known P aborted s = tt
Safe-known P halted s = tt
Safe-known P undefined s = absurd s
