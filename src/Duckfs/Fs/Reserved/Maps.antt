-- ===== src/Duckfs/Fs/Reserved/Maps.antt =====
-- What an insertion, a removal and a filter do to the entries of a map, to their number and to a sum
-- over them.
use ducktape_sdk.Prelude.{
  ℕ, suc, ◌+◌, ◌≤◌, ◌≡◌, refl, Bool, true, false, [], ◌∷◌, All, length, arith, inl, inr, Bool-cases,
}
use ducktape_sdk.Bytes.Order.{Order}
use ducktape_sdk.BTree.{BTreeMap, get, contains_key, insert, remove, IsAscending}
use ducktape_sdk.Duckfs.Refs.{sum_by}
use ducktape_sdk.Duckfs.Fs.{retain}

module _ {ℓ κ} {K : Type ℓ} {V : Type κ} ⦃o : Order K⦄ where
  pub All-insert {τ} :
      (P : K × V → Type τ) (k : K) (v : V) (m : BTreeMap K V)
      → P (k, v)
      → All P m
      → All P (insert k v m)
  unfolding insert
  All-insert P k v [] p h = (p, tt)
  All-insert P k v ((j, w) ∷ m) p (q, h) = elim (Bool-cases (o.less k j)) [
    | inl l ↦ rw (l) (p, (q, h))
    | inr l ↦ elim (Bool-cases (o.less j k)) [
      | inl g ↦ rw (l, g) (q, All-insert P k v m p h)
      | inr g ↦ rw (l, g) (p, h)
    ]
  ]

  pub All-remove {τ} :
      (P : K × V → Type τ) (k : K) (m : BTreeMap K V) → All P m → All P (remove k m)
  unfolding remove
  All-remove P k [] h = tt
  All-remove P k ((j, w) ∷ m) (q, h) = elim (Bool-cases (o.less k j)) [
    | inl l ↦ rw (l) (q, h)
    | inr l ↦ elim (Bool-cases (o.less j k)) [
      | inl g ↦ rw (l, g) (q, All-remove P k m h)
      | inr g ↦ rw (l, g) h
    ]
  ]

  -- A key that is not there adds one entry.
  pub length-insert_new :
      (k : K) (v : V) (m : BTreeMap K V)
      → contains_key k m ≡ false
      → length (insert k v m) ≡ suc (length m)
  unfolding insert contains_key get
  length-insert_new k v [] h = refl
  length-insert_new k v ((j, w) ∷ m) h = ground (arith, length-insert_new k v m)

  pub sum_by-insert_new :
      (f : K × V → ℕ) (k : K) (v : V) (m : BTreeMap K V)
      → contains_key k m ≡ false
      → sum_by f (insert k v m) ≡ f (k, v) + sum_by f m
  unfolding insert contains_key get
  sum_by-insert_new f k v [] h = refl
  sum_by-insert_new f k v ((j, w) ∷ m) h = ground (arith, sum_by-insert_new f k v m)

  pub length-remove : (k : K) (m : BTreeMap K V) → length (remove k m) ≤ length m
  unfolding remove
  length-remove k [] = omega arith
  length-remove k ((j, w) ∷ m) = ground (arith, length-remove k m)

  pub sum_by-remove :
      (f : K × V → ℕ) (k : K) (m : BTreeMap K V) → sum_by f (remove k m) ≤ sum_by f m
  unfolding remove
  sum_by-remove f k [] = omega arith
  sum_by-remove f k ((j, w) ∷ m) = ground (arith, sum_by-remove f k m)

module _ {ℓ κ} {K : Type ℓ} {V : Type κ} (keep : V → Bool) where
  pub All-retain {τ} : (P : K × V → Type τ) (m : BTreeMap K V) → All P m → All P (retain keep m)
  unfolding retain
  All-retain P [] h = tt
  All-retain P ((k, v) ∷ m) (p, h) = elim (Bool-cases (keep v)) [
    | inl e ↦ rw (e) (p, All-retain P m h)
    | inr e ↦ rw (e) (All-retain P m h)
  ]

  pub length-retain : (m : BTreeMap K V) → length (retain keep m) ≤ length m
  unfolding retain
  length-retain [] = omega arith
  length-retain ((k, v) ∷ m) = ground (arith, length-retain m)

  pub sum_by-retain : (f : K × V → ℕ) (m : BTreeMap K V) → sum_by f (retain keep m) ≤ sum_by f m
  unfolding retain
  sum_by-retain f [] = omega arith
  sum_by-retain f ((k, v) ∷ m) = ground (arith, sum_by-retain f m)

  pub retain-IsAscending :
      ⦃o : Order K⦄ (m : BTreeMap K V) → IsAscending m → IsAscending (retain keep m)
  unfolding retain
  retain-IsAscending [] a = tt
  retain-IsAscending ⦃o⦄ ((k, v) ∷ m) (p, a) = elim (Bool-cases (keep v)) [
    | inl e ↦ rw (e) (All-retain (λ z. o.less k z.0 ≡ true) m p, retain-IsAscending m a)
    | inr e ↦ rw (e) (retain-IsAscending m a)
  ]
