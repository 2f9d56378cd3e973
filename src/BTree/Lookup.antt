-- ===== src/BTree/Lookup.antt =====
-- What `get` finds after `insert` and `remove`, and the order of the keys.
use ducktape_sdk.Prelude.{
  ◌≡◌, refl, subst, ap, true, none, some, [], ◌∷◌, if◌then◌else◌, arith, inl, inr, Bool-cases,
}
use ducktape_sdk.Bytes.Order.{Order, less_asymm}
use ducktape_sdk.BTree.{BTreeMap, get, insert, remove, Above, IsAscending}

module _ {ℓ κ} {K : Type ℓ} {V : Type κ} ⦃o : Order K⦄ where
  pub get-insert_same : (k : K) (v : V) (m : BTreeMap K V) → get k (insert k v m) ≡ some v
  unfolding get insert
  get-insert_same k v [] = rw (o.less_irrefl k)
  get-insert_same k v ((j, w) ∷ m) = elim (Bool-cases (o.less k j)) [
    | inl below ↦ rw (below, o.less_irrefl k)
    | inr b ↦ elim (Bool-cases (o.less j k)) [
      | inl above ↦ rw (b, above, b, above) (get-insert_same k v m)
      | inr a ↦ rw (b, a, o.less_irrefl k)
    ]
  ]

  -- No key of the map is the key that is looked up.
  pub get-Above : (k : K) (m : BTreeMap K V) → Above k m → get k m ≡ none
  unfolding get
  get-Above k [] h = refl
  get-Above k ((j, w) ∷ m) (p, h) = rw (p)

  pub Above-trans : (k j : K) (m : BTreeMap K V) → o.less k j ≡ true → Above j m → Above k m
  Above-trans k j [] p h = tt
  Above-trans k j (e ∷ m) p (q, h) = (o.less_trans k j e.0 p q, Above-trans k j m p h)

  pub get-insert_below :
      (k j : K) (v : V) (m : BTreeMap K V) → o.less k j ≡ true → get k (insert j v m) ≡ get k m
  unfolding get insert
  get-insert_below k j v [] p = rw (p)
  get-insert_below k j v ((i, w) ∷ m) p = ground (
    arith,
    o.less_trans k j i,
    get-insert_below k j v m p,
    o.less_trans j i k,
    less_asymm k j,
    o.less_total j i,
    less_asymm i k,
  )

  pub get-insert_above :
      (k j : K) (v : V) (m : BTreeMap K V) → o.less j k ≡ true → get k (insert j v m) ≡ get k m
  unfolding get insert
  get-insert_above k j v [] p = rw (less_asymm j k p, p)
  get-insert_above k j v ((i, w) ∷ m) p =
      ground
        (arith, less_asymm j k p, get-insert_above k j v m p, o.less_trans i j k, o.less_total j i)

  pub get-remove_same : (k : K) (m : BTreeMap K V) → IsAscending m → get k (remove k m) ≡ none
  unfolding get remove
  get-remove_same k [] a = refl
  get-remove_same k ((j, w) ∷ m) (p, a) = elim (Bool-cases (o.less k j)) [
    | inl below ↦ rw (below, below)
    | inr b ↦ elim (Bool-cases (o.less j k)) [
      | inl above ↦ rw (b, above, b, above) (get-remove_same k m a)
      | inr q ↦ rw (b, q) (get-Above k m (subst (λ z. Above z m) (o.less_total j k q b) p))
    ]
  ]

  pub get-remove_below :
      (k j : K) (m : BTreeMap K V)
      → IsAscending m
      → o.less k j ≡ true
      → get k (remove j m) ≡ get k m
  unfolding get remove
  get-remove_below k j [] a p = refl
  get-remove_below k j ((i, w) ∷ m) (q, a) p = elim (Bool-cases (o.less j i)) [
    | inl l ↦ rw (l)
    | inr l ↦ elim (Bool-cases (o.less i j)) [
      | inl g ↦
          rw (l, g)
            (ap (λ z. if o.less k i then none else if o.less i k then z else some w)
              (get-remove_below k j m a p))
      | inr g ↦
          let below : o.less k i ≡ true = subst (λ z. o.less k z ≡ true) (o.less_total j i l g) p in
          rw (l, g, below) (get-Above k m (Above-trans k i m below q))
    ]
  ]

  pub get-remove_above :
      (k j : K) (m : BTreeMap K V) → o.less j k ≡ true → get k (remove j m) ≡ get k m
  unfolding get remove
  get-remove_above k j [] p = refl
  get-remove_above k j ((i, w) ∷ m) p =
      ground (arith, less_asymm j k p, get-remove_above k j m p, less_asymm k i, o.less_total j i)

  Above-insert :
      (k j : K) (v : V) (m : BTreeMap K V) → o.less k j ≡ true → Above k m → Above k (insert j v m)
  unfolding insert
  Above-insert k j v [] p h = (p, tt)
  Above-insert k j v ((i, w) ∷ m) p (q, h) = elim (Bool-cases (o.less j i)) [
    | inl l ↦ rw (l) (p, (q, h))
    | inr l ↦ elim (Bool-cases (o.less i j)) [
      | inl g ↦ rw (l, g) (q, Above-insert k j v m p h)
      | inr g ↦ rw (l, g) (p, h)
    ]
  ]

  pub insert-IsAscending :
      (k : K) (v : V) (m : BTreeMap K V) → IsAscending m → IsAscending (insert k v m)
  unfolding insert
  insert-IsAscending k v [] a = (tt, tt)
  insert-IsAscending k v ((j, w) ∷ m) (p, a) = elim (Bool-cases (o.less k j)) [
    | inl l ↦ rw (l) ((l, Above-trans k j m l p), (p, a))
    | inr l ↦ elim (Bool-cases (o.less j k)) [
      | inl g ↦ rw (l, g) (Above-insert j k v m g p, insert-IsAscending k v m a)
      | inr g ↦ rw (l, g) (subst (λ z. Above z m) (o.less_total j k g l) p, a)
    ]
  ]

  Above-remove : (k j : K) (m : BTreeMap K V) → Above k m → Above k (remove j m)
  unfolding remove
  Above-remove k j [] h = tt
  Above-remove k j ((i, w) ∷ m) (q, h) = elim (Bool-cases (o.less j i)) [
    | inl l ↦ rw (l) (q, h)
    | inr l ↦ elim (Bool-cases (o.less i j)) [
      | inl g ↦ rw (l, g) (q, Above-remove k j m h)
      | inr g ↦ rw (l, g) h
    ]
  ]

  pub remove-IsAscending : (k : K) (m : BTreeMap K V) → IsAscending m → IsAscending (remove k m)
  unfolding remove
  remove-IsAscending k [] a = tt
  remove-IsAscending k ((j, w) ∷ m) (p, a) = elim (Bool-cases (o.less k j)) [
    | inl l ↦ rw (l) (p, a)
    | inr l ↦ elim (Bool-cases (o.less j k)) [
      | inl g ↦ rw (l, g) (Above-remove j k m p, remove-IsAscending k m a)
      | inr g ↦ rw (l, g) a
    ]
  ]
