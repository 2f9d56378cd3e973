-- ===== src/Duckfs/Fs/Commit/Log.antt =====
-- What the planning pass of `commit_apply` in crates/duckfs/core/src/fs.rs records of the paths: each is
-- entered in the set of seen paths, new to it, and each is touched with its segments.
use ducktape_sdk.Prelude.{
  ℕ, ◌≡◌, refl, sym, ap, subst, ◌∙◌, Bool, true, false, List, [], ◌∷◌, ◌++◌, append-nil,
  append_assoc, Bool-cases, inl, inr,
}
use ducktape_sdk.Bytes.Order.{bytes_order}
use ducktape_sdk.BTree.{BTreeMap, insert, contains_key}
use ducktape_sdk.Parser.{Result, ok, err, pure, refuse_if, ◌>>=◌}
use ducktape_sdk.Duckfs.Errors.{FilesError}
use ducktape_sdk.Duckfs.Results.{err-ok, ok-eq}
use ducktape_sdk.Duckfs.Paths.{Segments}
use ducktape_sdk.Duckfs.Fs.Tables.{join_segs}
use ducktape_sdk.Duckfs.Fs.Commit.Plan.{Plan, Planning, lift, modify, dedup, touch}

abbrev pub Seen : Type 0
Seen = BTreeMap (List ℕ) (Unit {0})

abbrev pub enter_all : List (List ℕ) → Seen → Seen
enter_all [] seen = seen
enter_all (p ∷ ps) seen = enter_all ps (insert p tt seen)

-- Every path is new when it is entered.
abbrev pub IsFresh : List (List ℕ) → Seen → Type 0
IsFresh [] seen = Unit
IsFresh (p ∷ ps) seen = (contains_key p seen ≡ false) × IsFresh ps (insert p tt seen)

-- The paths entered and the paths touched by a part of the pass.
pub record Logs (entered : List (List ℕ)) (touched : List (List ℕ × Segments)) (s t : Plan)
    : Type 0 where
  pub fresh : IsFresh entered s.seen
  pub seen_eq : t.seen ≡ enter_all entered s.seen
  pub touched_eq : t.touched ≡ s.touched ++ touched

IsFresh-append :
    (ps qs : List (List ℕ)) (seen : Seen)
    → IsFresh ps seen
    → IsFresh qs (enter_all ps seen)
    → IsFresh (ps ++ qs) seen
IsFresh-append [] qs seen h k = k
IsFresh-append (p ∷ ps) qs seen (new, h) k = (new, IsFresh-append ps qs (insert p tt seen) h k)

enter_all-append :
    (ps qs : List (List ℕ)) (seen : Seen)
    → enter_all (ps ++ qs) seen ≡ enter_all qs (enter_all ps seen)
enter_all-append [] qs seen = refl
enter_all-append (p ∷ ps) qs seen = enter_all-append ps qs (insert p tt seen)

pub Logs-trans :
    {ps qs : List (List ℕ)} {xs ys : List (List ℕ × Segments)} (s t u : Plan)
    → Logs ps xs s t
    → Logs qs ys t u
    → Logs (ps ++ qs) (xs ++ ys) s u
Logs-trans {ps} {qs} {xs} {ys} s t u h k = record {
  fresh = IsFresh-append ps qs s.seen h.fresh (subst (IsFresh qs) h.seen_eq k.fresh);
  seen_eq = k.seen_eq ∙ ap (enter_all qs) h.seen_eq ∙ sym (enter_all-append ps qs s.seen);
  touched_eq = k.touched_eq ∙ ap (λ z. z ++ ys) h.touched_eq ∙ append_assoc s.touched xs ys;
}

pub Logs-nothing : (s t : Plan) → t.seen ≡ s.seen → t.touched ≡ s.touched → Logs [] [] s t
Logs-nothing s t e f = record {
  fresh = tt;
  seen_eq = e;
  touched_eq = f ∙ sym (append-nil s.touched);
}

-- A part of the pass whose every success is of this shape.
abbrev pub Part {ℓ} : {A : Type ℓ} → Planning A → (Plan → A → Plan → Type 0) → Type ℓ
Part {A = A} m R = (s : Plan) (a : A) (t : Plan) → m s ≡ ok (a, t) → R s a t

pub Part-bind {ℓ κ} :
    {A : Type ℓ} {B : Type κ} (m : Planning A) (f : A → Planning B) (R : Plan → A → Plan → Type 0)
    (Q : A → Plan → B → Plan → Type 0) (T : Plan → B → Plan → Type 0)
    → Part m R
    → ((a : A) → Part (f a) (Q a))
    → ((s : Plan) (a : A) (t : Plan) (b : B) (u : Plan) → R s a t → Q a t b u → T s b u)
    → Part (m >>= f) T
Part-bind {A = A} {B = B} m f R Q T h k join s b u e = go (m s) refl e
  where
    go :
        (r : Result FilesError (A × Plan))
        → m s ≡ r
        → (elim r as (λ _. Result FilesError (B × Plan)) [ ok (a, t) ↦ f a t | err x ↦ err x ])
          ≡ ok (b, u)
        → T s b u
    go (ok (a, t)) q p = join s a t b u (h s a t q) (k a t b u p)
    go (err x) q p = absurd (err-ok _ _ p)

-- A part that enters and touches what it is said to, whatever it returns.
abbrev pub Logging {ℓ} :
    {A : Type ℓ} → Planning A → List (List ℕ) → List (List ℕ × Segments) → Type ℓ
Logging m ps xs = Part m (λ s a t. Logs ps xs s t)

module _ {ℓ κ} {A : Type ℓ} {B : Type κ} {qs : List (List ℕ)} {ys : List (List ℕ × Segments)} where
  Logging-bind :
      (ps : List (List ℕ)) (xs : List (List ℕ × Segments)) (m : Planning A) (f : A → Planning B)
      → Logging m ps xs
      → ((a : A) → Logging (f a) qs ys)
      → Logging (m >>= f) (ps ++ qs) (xs ++ ys)
  Logging-bind ps xs m f h k = Part-bind m f _ _ _ h k (λ s a t b u p q. Logs-trans s t u p q)

  -- A part that logs nothing, and what follows it.
  pub Quiet-bind :
      (m : Planning A) (f : A → Planning B)
      → Logging m [] []
      → ((a : A) → Logging (f a) qs ys)
      → Logging (m >>= f) qs ys
  Quiet-bind m f h k = Logging-bind [] [] m f h k

pub Logging-lift {ℓ} : {A : Type ℓ} (m : Result FilesError A) → Logging (lift m) [] []
Logging-lift (ok a) s b t e =
    Logs-nothing s t (ap (λ x. x.1.seen) (sym (ok-eq _ _ e)))
      (ap (λ x. x.1.touched) (sym (ok-eq _ _ e)))
Logging-lift (err x) s b t e = absurd (err-ok _ _ e)

pub Logging-modify :
    (f : Plan → Plan)
    → ((s : Plan) → (f s).seen ≡ s.seen)
    → ((s : Plan) → (f s).touched ≡ s.touched)
    → Logging (modify f) [] []
Logging-modify f p q s a t e =
    let same = ap (λ x. x.1) (ok-eq _ _ e) in
    Logs-nothing s t (ap (λ (x : Plan). x.seen) (sym same) ∙ p s)
      (ap (λ (x : Plan). x.touched) (sym same) ∙ q s)

pub Logging-touch :
    (segments : Segments)
    → Logging (modify (touch segments)) [] ((join_segs segments, segments) ∷ [])
Logging-touch segments s a t e =
    let same = ap (λ x. x.1) (ok-eq _ _ e) in
    record {
      fresh = tt;
      seen_eq = ap (λ (x : Plan). x.seen) (sym same);
      touched_eq = ap (λ (x : Plan). x.touched) (sym same);
    }

pub Logging-dedup : (joined : List ℕ) → Logging (dedup joined) (joined ∷ []) []
unfolding dedup
Logging-dedup joined s a t e = elim (Bool-cases (contains_key joined s.seen)) [
  | inl there ↦ absurd (err-ok _ _ (rw there at e))
  | inr new ↦
      let same = ap (λ x. x.1) (ok-eq _ _ (rw new at e)) in
      record {
        fresh = (new, tt);
        seen_eq = ap (λ (x : Plan). x.seen) (sym same);
        touched_eq = ap (λ (x : Plan). x.touched) (sym same) ∙ sym (append-nil s.touched);
      }
]

pub Logging-pure {ℓ} : {A : Type ℓ} (a : A) → Logging (pure a) [] []
Logging-pure a s b t e =
    Logs-nothing s t (ap (λ x. x.1.seen) (sym (ok-eq _ _ e)))
      (ap (λ x. x.1.touched) (sym (ok-eq _ _ e)))

pub Logging-refuse : (b : Bool) (x : FilesError) → Logging (refuse_if b x) [] []
Logging-refuse true x s u t e = absurd (err-ok _ _ e)
Logging-refuse false x s u t e = Logging-pure tt s u t e

module _ {κ} {B : Type κ} {qs : List (List ℕ)} {ys : List (List ℕ × Segments)} where
  pub dedup-bind :
      (joined : List ℕ) (f : Unit {0} → Planning B)
      → ((a : Unit {0}) → Logging (f a) qs ys)
      → Logging (dedup joined >>= f) (joined ∷ qs) ys
  dedup-bind joined f k = Logging-bind (joined ∷ []) [] (dedup joined) f (Logging-dedup joined) k

  pub touch-bind :
      (segments : Segments) (f : Unit {0} → Planning B)
      → ((a : Unit {0}) → Logging (f a) qs ys)
      → Logging (modify (touch segments) >>= f) qs ((join_segs segments, segments) ∷ ys)
  touch-bind segments f k =
      Logging-bind [] ((join_segs segments, segments) ∷ []) (modify (touch segments)) f
        (Logging-touch segments) k
