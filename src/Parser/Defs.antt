-- ===== src/Parser/Defs.antt =====
-- State passing with an error, loops over a count, and the view of a reader's state.
use ducktape_sdk.Prelude.{ℕ, zero, suc, ◌≡◌, refl, if◌then◌else◌, Bool, true, false, List, [], ◌∷◌}

pub data Result {ℓ κ} (E : Type ℓ) (A : Type κ) : Type (ℓ ⊔ κ) where
  ok : A → Result E A
  err : E → Result E A

-- A method that takes `&mut self`, may fail with `E`, and returns an `A`.
abbrev pub Read {ℓ κ τ} : Type ℓ → Type κ → Type τ → Type (ℓ ⊔ κ ⊔ τ)
Read S E A = S → Result E (A × S)

module _ {ℓ κ τ} {S : Type ℓ} {E : Type κ} {A : Type τ} where
  abbrev pub pure : A → Read S E A
  pure a s = ok (a, s)

  abbrev pub fail : E → Read S E A
  fail e s = err e

-- `if test { return Err(e) }`
abbrev pub refuse_if {ℓ κ} : {S : Type ℓ} {E : Type κ} → Bool → E → Read S E (Unit {0})
refuse_if true e = fail e
refuse_if false e = pure tt

infixl 5 ◌>>=◌ ◌>>◌
abbrev pub ◌>>=◌ {ℓ κ τ υ} :
    {S : Type ℓ} {E : Type κ} {A : Type τ} {B : Type υ} → Read S E A → (A → Read S E B) → Read S E B
◌>>=◌ m f s = elim (m s) [ ok (a, s') ↦ f a s' | err e ↦ err e ]

abbrev pub ◌>>◌ {ℓ κ τ υ} :
    {S : Type ℓ} {E : Type κ} {A : Type τ} {B : Type υ} → Read S E A → Read S E B → Read S E B
m >> n = m >>= λ _. n

-- `for _ in 0..count { acc = step(acc)? }`
unfoldable pub for_each {ℓ κ τ} :
    {S : Type ℓ} {E : Type κ} {A : Type τ} → ℕ → (A → Read S E A) → A → Read S E A
for_each zero step acc = pure acc
for_each (suc n) step acc = step acc >>= for_each n step

-- What a reader works on: the bytes that it has not read yet, and the states that it keeps to.
pub record View {ℓ} (S : Type ℓ) : Type (ℓ ⊔ 1) where
  pub remaining : S → List ℕ
  pub IsGood : S → Type 0

module _ {ℓ κ} {A : Type ℓ} {C : Type κ} (snoc : C → A → C) where
  abbrev pub push_all : C → List A → C
  push_all c [] = c
  push_all c (x ∷ xs) = push_all (snoc c x) xs

  -- Each item fits what is collected before it.
  abbrev pub Chain {τ} : (C → A → Type τ) → C → List A → Type τ
  Chain Fits c [] = Unit
  Chain Fits c (x ∷ xs) = Fits c x × Chain Fits (snoc c x) xs

-- A test that refuses, passed: the test was false, and the result is the other branch's.
pub if_err_ok {ℓ κ τ} :
    {E : Type ℓ} {A : Type κ} {S : Type τ} (b : Bool) (e : E) (a a' : A) (s s' : S)
    → ◌≡◌ {A = Result E (A × S)} (if b then err e else ok (a, s)) (ok (a', s'))
    → (b ≡ false) × (a ≡ a') × (s ≡ s')
if_err_ok true e a a' s s' h = absurd (cc)
if_err_ok false e a a' s s' h = (refl, cc, cc)

pub if_err_eq_ok {ℓ κ} :
    {E : Type ℓ} {A : Type κ} (b : Bool) (e : E) (r : Result E A) (a : A)
    → (if b then err e else r) ≡ ok a
    → (b ≡ false) × (r ≡ ok a)
if_err_eq_ok true e r a h = absurd (cc)
if_err_eq_ok false e r a h = (refl, h)
