-- ===== src/Duckfs/Results.antt =====
-- `?` on the results of the filesystem's core, and what a successful chain says of its steps.
use ducktape_sdk.Prelude.{◌≡◌, refl, Bool, true, false, Option, none, some}
use ducktape_sdk.Parser.{Result, ok, err}

-- A chain stays folded, so that `bind-ok` can take it apart.
infixl 5 ◌>>=◌ ◌>>◌
unfoldable pub ◌>>=◌ {ℓ κ τ} :
    {E : Type ℓ} {A : Type κ} {B : Type τ} → Result E A → (A → Result E B) → Result E B
ok a >>= f = f a
err e >>= f = err e

abbrev pub ◌>>◌ {ℓ κ τ} :
    {E : Type ℓ} {A : Type κ} {B : Type τ} → Result E A → Result E B → Result E B
m >> n = m >>= λ _. n

-- `if test { return Err(e) }`
abbrev pub deny_if {ℓ} : {E : Type ℓ} → Bool → E → Result E (Unit {0})
deny_if true e = err e
deny_if false e = ok tt

-- `ok_or_else`
abbrev pub ok_or {ℓ κ} : {E : Type ℓ} {A : Type κ} → Option A → E → Result E A
ok_or none e = err e
ok_or (some a) e = ok a

-- A state passed on when the step that made it succeeded.
abbrev pub edited {ℓ κ τ} : {S : Type ℓ} {E : Type κ} {A : Type τ} → S × Result E A → Result E S
edited (s, ok a) = ok s
edited (s, err e) = err e

module _ {ℓ κ} {E : Type ℓ} {A : Type κ} where
  pub bind-ok {τ} :
      {B : Type τ} (m : Result E A) (f : A → Result E B) (b : B)
      → (m >>= f) ≡ ok b
      → (a : A) × (m ≡ ok a) × (f a ≡ ok b)
  unfolding ◌>>=◌
  bind-ok (ok a) f b h = (a, refl, h)
  bind-ok (err e) f b h = absurd (cc)

  pub ok_or-ok : (o : Option A) (e : E) (a : A) → ok_or o e ≡ ok a → o ≡ some a
  ok_or-ok none e a h = absurd (cc)
  ok_or-ok (some x) e a h = cc

pub deny_if-ok {ℓ} : {E : Type ℓ} (b : Bool) (e : E) (u : Unit {0}) → deny_if b e ≡ ok u → b ≡ false
deny_if-ok true e u h = absurd (cc)
deny_if-ok false e u h = refl

pub ok-eq {ℓ κ} : {E : Type ℓ} {A : Type κ} (a b : A) → ◌≡◌ {A = Result E A} (ok a) (ok b) → a ≡ b
ok-eq a b h = cc

pub err-ok {ℓ κ} :
    {E : Type ℓ} {A : Type κ} (e : E) (a : A) → ¬ (◌≡◌ {A = Result E A} (err e) (ok a))
err-ok e a h = cc
