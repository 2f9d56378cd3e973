-- ===== src/BTree/Append.antt =====
-- Decoders fill a map in key order: an insertion above the last key appends.
use ducktape_sdk.Prelude.{
  ◌≡◌, refl, sym, ap, subst, ◌∙◌, true, false, not, some, [], ◌∷◌, ◌++◌, append_assoc, append-nil,
  All, All-append, not-false,
}
use ducktape_sdk.Bytes.Order.{Order, less_asymm}
use ducktape_sdk.Parser.{push_all, Chain}
use ducktape_sdk.BTree.{BTreeMap, insert, last_key, last_not_below, Above, IsAscending}

module _ {ℓ κ} {K : Type ℓ} {V : Type κ} ⦃o : Order K⦄ where
  -- Every key of the map is below `k`.
  abbrev pub Below : K → BTreeMap K V → Type 0
  Below k = All (λ e. o.less e.0 k ≡ true)

  pub insert-Below :
      (k : K) (v : V) (m : BTreeMap K V) → Below k m → insert k v m ≡ m ++ ((k, v) ∷ [])
  unfolding insert
  insert-Below k v [] h = refl
  insert-Below k v ((j, w) ∷ m) (p, h) =
      rw (less_asymm j k p, p) (ap (λ z. (j, w) ∷ z) (insert-Below k v m h))

  last_not_below-Below :
      (k : K) (m : BTreeMap K V) → IsAscending m → last_not_below k m ≡ false → Below k m
  unfolding last_not_below
  last_not_below-Below k [] a h = tt
  last_not_below-Below k ((j, w) ∷ []) a h = (not-false _ h, tt)
  last_not_below-Below k ((j, w) ∷ (i, u) ∷ m) ((p, _), a) h =
      let rest = last_not_below-Below k ((i, u) ∷ m) a h in (o.less_trans j i k p rest.0, rest)

  Below-last_not_below : (k : K) (m : BTreeMap K V) → Below k m → last_not_below k m ≡ false
  unfolding last_not_below
  Below-last_not_below k [] h = refl
  Below-last_not_below k ((j, w) ∷ []) (p, h) = ap not p
  Below-last_not_below k ((j, w) ∷ (i, u) ∷ m) (p, h) = Below-last_not_below k ((i, u) ∷ m) h

  IsAscending-snoc :
      (k : K) (v : V) (m : BTreeMap K V)
      → IsAscending m
      → Below k m
      → IsAscending (m ++ ((k, v) ∷ []))
  IsAscending-snoc k v [] a b = (tt, tt)
  IsAscending-snoc k v ((j, w) ∷ m) (p, a) (q, b) =
      (All-append _ m ((k, v) ∷ []) p (q, tt), IsAscending-snoc k v m a b)

  last_key-snoc : (k : K) (v : V) (m : BTreeMap K V) → last_key (m ++ ((k, v) ∷ [])) ≡ some k
  unfolding last_key
  last_key-snoc k v [] = refl
  last_key-snoc k v (e ∷ []) = refl
  last_key-snoc k v (e ∷ f ∷ m) = last_key-snoc k v (f ∷ m)

  pub last_key-insert :
      (k : K) (v : V) (m : BTreeMap K V)
      → IsAscending m
      → last_not_below k m ≡ false
      → last_key (insert k v m) ≡ some k
  last_key-insert k v m a t =
      ap last_key (insert-Below k v m (last_not_below-Below k m a t)) ∙ last_key-snoc k v m

  pub IsAscending-insert :
      (k : K) (v : V) (m : BTreeMap K V)
      → IsAscending m
      → last_not_below k m ≡ false
      → IsAscending (insert k v m)
  IsAscending-insert k v m a t =
      let below = last_not_below-Below k m a t in
      subst IsAscending (sym (insert-Below k v m below)) (IsAscending-snoc k v m a below)

  Above-Below :
      (k : K) (j : K) (w : V) (m n : BTreeMap K V) → Above k (m ++ ((j, w) ∷ n)) → o.less k j ≡ true
  Above-Below k j w [] n (p, h) = p
  Above-Below k j w (e ∷ m) n (p, h) = Above-Below k j w m n h

  IsAscending-Below :
      (k : K) (v : V) (m n : BTreeMap K V) → IsAscending (m ++ ((k, v) ∷ n)) → Below k m
  IsAscending-Below k v [] n a = tt
  IsAscending-Below k v ((j, w) ∷ m) n (p, a) =
      (Above-Below j k v m n p, IsAscending-Below k v m n a)

  module _ (IsValid : K × V → Type 0) where
    abbrev pub snoc : BTreeMap K V → K × V → BTreeMap K V
    snoc m (k, v) = insert k v m

    -- The ascending test of a decoder's round passes, and the entry is valid.
    abbrev pub Fits : BTreeMap K V → K × V → Type 0
    Fits m (k, v) = (last_not_below k m ≡ false) × IsValid (k, v)

    pub Chain-ascends :
        (m xs : BTreeMap K V)
        → IsAscending m
        → Chain snoc Fits m xs
        → (push_all snoc m xs ≡ m ++ xs) × IsAscending (m ++ xs) × All IsValid xs
    Chain-ascends m [] a c = (sym (append-nil m), subst IsAscending (sym (append-nil m)) a, tt)
    Chain-ascends m ((k, v) ∷ xs) a ((t, p), c) =
        let below = last_not_below-Below k m a t in
        let e : insert k v m ≡ m ++ ((k, v) ∷ []) = insert-Below k v m below in
        let a' = subst IsAscending (sym e) (IsAscending-snoc k v m a below) in
        let (q, asc, all) = Chain-ascends (insert k v m) xs a' c in
        let r : insert k v m ++ xs ≡ m ++ ((k, v) ∷ xs) =
          ap (λ z. z ++ xs) e ∙ append_assoc m ((k, v) ∷ []) xs in
        (q ∙ r, subst IsAscending r asc, (p, all))

    pub ascends-Chain :
        (m xs : BTreeMap K V) → IsAscending (m ++ xs) → All IsValid xs → Chain snoc Fits m xs
    ascends-Chain m [] a h = tt
    ascends-Chain m ((k, v) ∷ xs) a (p, h) =
        let below = IsAscending-Below k v m xs a in
        let e : insert k v m ≡ m ++ ((k, v) ∷ []) = insert-Below k v m below in
        let r : insert k v m ++ xs ≡ m ++ ((k, v) ∷ xs) =
          ap (λ z. z ++ xs) e ∙ append_assoc m ((k, v) ∷ []) xs in
        (
          (Below-last_not_below k m below, p),
          ascends-Chain (insert k v m) xs (subst IsAscending (sym r) a) h,
        )
