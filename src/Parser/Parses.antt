-- ===== src/Parser/Parses.antt =====
-- What a reader has consumed when it returns, and the rules by which such facts compose.
use ducktape_sdk.Prelude.{
  ℕ, zero, suc, ◌≡◌, refl, sym, ap, subst, if◌then◌else◌, ◌∙◌, Bool, true, false, List, [], ◌∷◌,
  ◌++◌, append-nil, append_assoc, length, concat_map,
}
use ducktape_sdk.Parser.Reads.{Reads}
use ducktape_sdk.Parser.Defs.{
  Result, ok, err, Read, pure, fail, refuse_if, ◌>>=◌, ◌>>◌, for_each, View, push_all, Chain,
}

-- If the reader returns `a` from a good state, it has consumed some bytes `xs`, and `Q xs a`.
pub record Parses {ℓ κ τ υ} {S : Type ℓ} {E : Type κ} {A : Type τ} (v : View S) (m : Read S E A)
    (Q : List ℕ → A → Type υ) : Type (ℓ ⊔ κ ⊔ τ ⊔ υ) where
  pub inverts :
      (s s' : S) (a : A)
      → v.IsGood s
      → m s ≡ ok (a, s')
      → (xs : List ℕ) × (v.remaining s ≡ xs ++ v.remaining s') × v.IsGood s' × Q xs a

pub bind_ok {ℓ κ τ υ} :
    {S : Type ℓ} {E : Type κ} {A : Type τ} {B : Type υ} (m : Read S E A) (f : A → Read S E B)
    (s s' : S) (b : B)
    → (m >>= f) s ≡ ok (b, s')
    → (a : A) × (t : S) × (m s ≡ ok (a, t)) × (f a t ≡ ok (b, s'))
bind_ok {S = S} {E = E} {A = A} m f s s' b h = go (m s) refl h
  where
    go :
        (r : Result E (A × S))
        → m s ≡ r
        → elim r [ ok (a, t) ↦ f a t | err e ↦ err e ] ≡ ok (b, s')
        → (a : A) × (t : S) × (m s ≡ ok (a, t)) × (f a t ≡ ok (b, s'))
    go (ok (a, t)) e h = (a, t, e, h)
    go (err x) e h = absurd (cc)

module _ {ℓ κ} {S : Type ℓ} {E : Type κ} (v : View S) where
  pub Parses-pure {τ υ} :
      {A : Type τ} (Q : List ℕ → A → Type υ) {a : A} → Q [] a → Parses {E = E} v (pure a) Q
  Parses-pure Q {a} q = record {
    inverts = λ s s' b g h. (
      [],
      ap v.remaining {x = s} {y = s'} (cc),
      subst v.IsGood (cc) g,
      subst (Q []) {x = a} (cc) q,
    );
  }

  pub Parses-refuse_if {υ} :
      (Q : List ℕ → Unit {0} → Type υ) (b : Bool) (e : E)
      → (b ≡ false → Q [] tt)
      → Parses v (refuse_if b e) Q
  Parses-refuse_if Q true e q = record { inverts = λ s s' b g h. absurd (cc) }
  Parses-refuse_if Q false e q = Parses-pure Q (q refl)

  pub Parses-fail {τ υ} : {A : Type τ} (Q : List ℕ → A → Type υ) (e : E) → Parses v (fail e) Q
  Parses-fail Q e = record { inverts = λ s s' b g h. absurd (cc) }

  pub Parses-if {τ υ} :
      {A : Type τ} {Q : List ℕ → A → Type υ} (b : Bool) {m n : Read S E A}
      → (b ≡ true → Parses v m Q)
      → (b ≡ false → Parses v n Q)
      → Parses v (if b then m else n) Q
  Parses-if true p q = p refl
  Parses-if false p q = q refl

  pub Parses-weaken {τ υ ρ} :
      {A : Type τ} {m : Read S E A} {P : List ℕ → A → Type υ} (Q : List ℕ → A → Type ρ)
      → Parses v m P
      → ((xs : List ℕ) (a : A) → P xs a → Q xs a)
      → Parses v m Q
  Parses-weaken Q p q = record {
    inverts = λ s s' a g h. let (xs, r, g', x) = p.inverts s s' a g h in (xs, r, g', q xs a x);
  }

  pub Parses-bind {τ υ ρ σ} :
      {A : Type τ} {B : Type υ} (m : Read S E A) (f : A → Read S E B) {P : List ℕ → A → Type ρ}
      {Q : List ℕ → B → Type σ}
      → Parses v m P
      → ((a : A) (xs : List ℕ) → P xs a → Parses v (f a) (λ ys b. Q (xs ++ ys) b))
      → Parses v (m >>= f) Q
  Parses-bind m f {Q = Q} p q = record {
    inverts = λ s s' b g h.
        let (a, t, e, k) = bind_ok m f s s' b h in
        let (xs, r1, g1, q1) = p.inverts s t a g e in
        let (ys, r2, g2, q2) = (q a xs q1).inverts t s' b g1 k in
        (xs ++ ys, r1 ∙ ap (λ z. xs ++ z) r2 ∙ sym (append_assoc xs ys (v.remaining s')), g2, q2);
  }

  pub Parses-guard {τ υ} :
      {A : Type τ} {n : Read S E A} {Q : List ℕ → A → Type υ} (b : Bool) (e : E)
      → (b ≡ false → Parses v n Q)
      → Parses v (refuse_if b e >> n) Q
  Parses-guard {Q = Q} true e q = Parses-fail Q e
  Parses-guard false e q = q refl

  -- The last read of a method, whose value is returned through `f`.
  pub Parses-map {τ υ ρ σ} :
      {A : Type τ} {B : Type υ} (m : Read S E A) (f : A → B) {P : List ℕ → A → Type ρ}
      (Q : List ℕ → B → Type σ)
      → Parses v m P
      → ((a : A) (xs : List ℕ) → P xs a → Q xs (f a))
      → Parses v (m >>= λ x. pure (f x)) Q
  Parses-map m f Q p q =
      Parses-bind m (λ x. pure (f x)) p
        λ a xs h.
          Parses-pure (λ ys b. Q (xs ++ ys) b)
            (subst (λ z. Q z (f a)) (sym (append-nil xs)) (q a xs h))

  -- A read whose value is tested and then returned through `f`.
  pub Parses-checked {τ υ ρ σ} :
      {A : Type τ} {B : Type υ} (m : Read S E A) (test : A → Bool) (e : E) (f : A → B)
      {P : List ℕ → A → Type ρ} (Q : List ℕ → B → Type σ)
      → Parses v m P
      → ((a : A) (xs : List ℕ) → P xs a → test a ≡ false → Q xs (f a))
      → Parses v (m >>= λ x. refuse_if (test x) e >> pure (f x)) Q
  Parses-checked m test e f Q p q = Parses-bind m _ p λ a xs h. Parses-guard (test a) e λ t.
      Parses-pure (λ ys b. Q (xs ++ ys) b)
        (subst (λ z. Q z (f a)) (sym (append-nil xs)) (q a xs h t))

  module _ {τ υ} {A : Type τ} {C : Type υ} (enc : A → List ℕ) (snoc : C → A → C)
      (Fits : C → A → Type 0) (step : C → Read S E C) where
    -- One round reads one item that may follow what is collected, and appends it.
    abbrev pub Appends : C → List ℕ → C → Type (τ ⊔ υ)
    Appends c ys c' = (x : A) × (c' ≡ snoc c x) × Fits c x × (ys ≡ enc x)

    abbrev pub AppendsAll : ℕ → C → List ℕ → C → Type (τ ⊔ υ)
    AppendsAll n c ys c' =
        (xs : List A) × (length xs ≡ n)
        × (c' ≡ push_all snoc c xs)
        × Chain snoc Fits c xs
        × (ys ≡ concat_map enc xs)

    pub Parses-for_each :
        ((c : C) → Parses v (step c) (Appends c))
        → (n : ℕ) (c : C) → Parses v (for_each n step c) (AppendsAll n c)
    unfolding for_each
    Parses-for_each parses_step zero c = Parses-pure (AppendsAll 0 c) ([], refl, refl, tt, refl)
    Parses-for_each parses_step (suc n) c = Parses-bind _ _ (parses_step c) λ c1 ys p. record {
      inverts = λ s s' c2 g h.
          let (zs, r, g', (xs, n_eq, c_eq, chain, z_eq)) =
            (Parses-for_each parses_step n c1).inverts s s' c2 g h in
          let (x, c1_eq, fits, y_eq) = p in
          (
            zs,
            r,
            g',
            (
              x ∷ xs,
              ap suc n_eq,
              c_eq ∙ ap (λ d. push_all snoc d xs) c1_eq,
              (fits, subst (λ d. Chain snoc Fits d xs) c1_eq chain),
              cc,
            ),
          );
    }

-- A method and an encoder are inverse to one another on the values that satisfy `IsValid`.
pub record Codes {ℓ κ τ} {S : Type ℓ} {E : Type κ} {A : Type τ} (v : View S) (m : Read S E A)
    (enc : A → List ℕ) (IsValid : A → Type 0) : Type (ℓ ⊔ κ ⊔ τ) where
  pub reads : (a : A) → IsValid a → Reads v m (enc a) a
  pub parses : Parses v m (λ xs a. (xs ≡ enc a) × IsValid a)
