-- ===== src/Duckfs/Paths/Canonical/Split.antt =====
-- `split('/')` undoes the joining of segments by slashes, and joins back to its input.
use ducktape_sdk.Prelude.{
  ℕ, ◌≡◌, ◌≢◌, refl, sym, ap, ap₂, subst, ◌∙◌, false, List, [], ◌∷◌, ◌++◌, All, ◌==◌, Bool-cases,
  inl, inr, ==_iff,
}
use ducktape_sdk.Duckfs.Paths.{Segments, slash, split}

abbrev pub intercalate : Segments → List ℕ
intercalate [] = []
intercalate (s ∷ []) = s
intercalate (s ∷ t ∷ ss) = s ++ (slash ∷ intercalate (t ∷ ss))

abbrev pub NoSlash : List ℕ → Type 0
NoSlash = All (λ c. (c == slash) ≡ false)

split-NoSlash_self : (s : List ℕ) → NoSlash s → split s ≡ s ∷ []
unfolding split
split-NoSlash_self [] h = refl
split-NoSlash_self (c ∷ s) (p, h) = rw (p, split-NoSlash_self s h)

pub split-append : (s rest : List ℕ) → NoSlash s → split (s ++ (slash ∷ rest)) ≡ s ∷ split rest
unfolding split
split-append [] rest h = refl
split-append (c ∷ s) rest (p, h) = rw (p, split-append s rest h)

pub split-intercalate : (ss : Segments) → ss ≢ [] → All NoSlash ss → split (intercalate ss) ≡ ss
split-intercalate [] ne h = absurd (ne refl)
split-intercalate (s ∷ []) ne (p, h) = split-NoSlash_self s p
split-intercalate (s ∷ t ∷ ss) ne (p, h) =
    split-append s (intercalate (t ∷ ss)) p
    ∙ ap (λ z. s ∷ z) (split-intercalate (t ∷ ss) (λ e. cc) h)

pub split-cons : (p : List ℕ) → (s : List ℕ) × (ss : Segments) × (split p ≡ s ∷ ss)
unfolding split
split-cons [] = ([], [], refl)
split-cons (c ∷ p) =
    let (s, ss, e) = split-cons p in
    elim (Bool-cases (c == slash)) [ inl y ↦ ([], split p, rw y) | inr n ↦ (c ∷ s, ss, rw (n, e)) ]

intercalate-cons :
    (c : ℕ) (s : List ℕ) (ss : Segments) → intercalate ((c ∷ s) ∷ ss) ≡ c ∷ intercalate (s ∷ ss)
intercalate-cons c s [] = refl
intercalate-cons c s (t ∷ ss) = refl

NoSlash-cons :
    (c : ℕ) (s : List ℕ) (ss : Segments)
    → (c == slash) ≡ false
    → All NoSlash (s ∷ ss)
    → All NoSlash ((c ∷ s) ∷ ss)
NoSlash-cons c s ss n (h, hs) = ((n, h), hs)

pub intercalate-split : (p : List ℕ) → intercalate (split p) ≡ p
unfolding split
intercalate-split [] = refl
intercalate-split (c ∷ p) =
    let (s, ss, e) = split-cons p in
    elim (Bool-cases (c == slash)) [
      | inl y ↦
          rw (y, e)
            (ap₂ ◌∷◌ (sym ((==_iff c slash).0 y)) (ap intercalate (sym e) ∙ intercalate-split p))
      | inr n ↦
          rw (n, e)
            (intercalate-cons c s ss
              ∙ ap (λ z. c ∷ z) (ap intercalate (sym e) ∙ intercalate-split p))
    ]

pub split-NoSlash : (p : List ℕ) → All NoSlash (split p)
unfolding split
split-NoSlash [] = (tt, tt)
split-NoSlash (c ∷ p) =
    let (s, ss, e) = split-cons p in
    elim (Bool-cases (c == slash)) [
      | inl y ↦ rw y (tt, split-NoSlash p)
      | inr n ↦ rw (n, e) (NoSlash-cons c s ss n (subst (All NoSlash) e (split-NoSlash p)))
    ]
