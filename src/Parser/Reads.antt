-- ===== src/Parser/Reads.antt =====
-- A reader consumes what an encoder wrote, and the rules by which such facts compose.
use ducktape_sdk.Prelude.{
  ℕ, ◌≡◌, refl, ap, subst, ◌∙◌, Bool, true, false, List, [], ◌∷◌, ◌++◌, append-nil, append_assoc,
  length, concat_map,
}
use ducktape_sdk.Parser.Defs.{
  ok, err, Read, pure, refuse_if, ◌>>=◌, ◌>>◌, for_each, View, push_all, Chain,
}

-- On a good state whose next bytes are `xs`, the reader returns `a` and leaves what follows.
pub record Reads {ℓ κ τ} {S : Type ℓ} {E : Type κ} {A : Type τ} (v : View S) (m : Read S E A)
    (xs : List ℕ) (a : A) : Type (ℓ ⊔ κ ⊔ τ) where
  pub runs :
      (s : S) (rest : List ℕ)
      → v.IsGood s
      → v.remaining s ≡ xs ++ rest
      → (s' : S) × (m s ≡ ok (a, s')) × v.IsGood s' × (v.remaining s' ≡ rest)

module _ {ℓ κ} {S : Type ℓ} {E : Type κ} (v : View S) where
  pub Reads-pure {τ} : {A : Type τ} (a : A) → Reads {E = E} v (pure a) [] a
  Reads-pure a = record { runs = λ s rest g e. (s, refl, g, e) }

  pub Reads-refuse_if : (b : Bool) (e : E) → b ≡ false → Reads v (refuse_if b e) [] tt
  Reads-refuse_if true e h = absurd (cc)
  Reads-refuse_if false e h = Reads-pure tt

  pub Reads-bind {τ υ} :
      {A : Type τ} {B : Type υ} (m : Read S E A) (f : A → Read S E B) {xs ys : List ℕ} {a : A}
      {b : B}
      → Reads v m xs a
      → Reads v (f a) ys b
      → Reads v (m >>= f) (xs ++ ys) b
  Reads-bind m f {xs = xs} {ys = ys} {b = b} p q = record {
    runs = λ s rest g e.
        let (s1, r1, g1, e1) = p.runs s (ys ++ rest) g (e ∙ append_assoc xs ys rest) in
        let (s2, r2, g2, e2) = q.runs s1 rest g1 e1 in
        (s2, ap (λ r. elim r [ ok (a, s') ↦ f a s' | err x ↦ err x ]) r1 ∙ r2, g2, e2);
  }

  pub Reads-guard {τ} :
      {A : Type τ} {n : Read S E A} {xs : List ℕ} {a : A} (b : Bool) (e : E)
      → b ≡ false
      → Reads v n xs a
      → Reads v (refuse_if b e >> n) xs a
  Reads-guard true e h p = absurd (cc)
  Reads-guard false e h p = p

  -- The last read of a method, whose value is returned through `g`.
  pub Reads-map {τ υ} :
      {A : Type τ} {B : Type υ} (m : Read S E A) (g : A → B) {xs : List ℕ} {a : A} {b : B}
      → Reads v m xs a
      → g a ≡ b
      → Reads v (m >>= λ x. pure (g x)) xs b
  Reads-map m g p q = record {
    runs = λ s rest gd e.
        let (s1, r1, g1, e1) = p.runs s rest gd e in
        (
          s1,
          ap (λ r. elim r [ ok (a, s') ↦ ok (g a, s') | err x ↦ err x ]) r1
              ∙ ap (λ z. ok (z, s1)) q,
          g1,
          e1,
        );
  }

  -- The last read, before steps that read nothing.
  pub Reads-last {τ υ} :
      {A : Type τ} {B : Type υ} (m : Read S E A) (f : A → Read S E B) {xs : List ℕ} {a : A} {b : B}
      → Reads v m xs a
      → Reads v (f a) [] b
      → Reads v (m >>= f) xs b
  Reads-last m f {xs} {b = b} p q =
      subst (λ ys. Reads v (m >>= f) ys b) (append-nil xs) (Reads-bind m f p q)

  -- A read whose value is tested and then returned through `g`.
  pub Reads-checked {τ υ} :
      {A : Type τ} {B : Type υ} (m : Read S E A) (test : A → Bool) (e : E) (g : A → B) {xs : List ℕ}
      {a : A}
      → Reads v m xs a
      → test a ≡ false
      → Reads v (m >>= λ x. refuse_if (test x) e >> pure (g x)) xs (g a)
  Reads-checked m test e g {xs} {a} p q =
      Reads-last m (λ x. refuse_if (test x) e >> pure (g x)) p
        (Reads-guard (test a) e q (Reads-pure (g a)))

  module _ {τ υ} {A : Type τ} {C : Type υ} (enc : A → List ℕ) (snoc : C → A → C)
      (Fits : C → A → Type 0) (step : C → Read S E C)
      (reads_step : (c : C) (x : A) → Fits c x → Reads v (step c) (enc x) (snoc c x)) where
    pub Reads-for_each :
        (xs : List A) (c : C)
        → Chain snoc Fits c xs
        → Reads v (for_each (length xs) step c) (concat_map enc xs) (push_all snoc c xs)
    unfolding for_each
    Reads-for_each [] c h = Reads-pure c
    Reads-for_each (x ∷ xs) c (h, hs) =
        Reads-bind _ _ (reads_step c x h) (Reads-for_each xs (snoc c x) hs)
