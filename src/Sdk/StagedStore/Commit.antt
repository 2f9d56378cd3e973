-- ===== src/Sdk/StagedStore/Commit.antt =====
-- What `commit` does to the reads of a durable store.
use ducktape_sdk.Prelude.{
  ℕ, ◌≡◌, refl, sym, ap, subst, ◌∙◌, Bool, true, false, Option, none, some, List, [], ◌∷◌, All,
  if◌then◌else◌, inl, inr, Bool-cases,
}
use ducktape_sdk.Bytes.Order.{
  bytes_order, bytes_eq, bytes_eq_self, bytes_eq→eq, bytes_lt, bytes_lt_irrefl, bytes_lt_total,
}
use ducktape_sdk.Sdk.Codec.{Error}
use ducktape_sdk.Parser.{Result, ok, err}
use ducktape_sdk.BTree as btree
use ducktape_sdk.BTree.{BTreeMap, Above, IsAscending}
use ducktape_sdk.BTree.Lookup.{Above-trans}
use ducktape_sdk.Sdk.MerkleStore.{MerkleStore, Durable, Applied, after}
use ducktape_sdk.Sdk.StagedStore.{
  Pending, StagedStore, is_empty, hashed, get, get_committed, committed, commit,
}

-- The hash tells `key` apart from the other keys of the overlay.
abbrev pub Separates : (List ℕ → List ℕ) → List ℕ → Pending → Type 0
Separates store_key key = All (λ e. bytes_eq (store_key e.0) (store_key key) ≡ bytes_eq e.0 key)

-- A read of the overlay, over the committed answer.
abbrev overlaid :
    Result Error (Option (List ℕ)) → Option (Option (List ℕ)) → Result Error (Option (List ℕ))
overlaid before none = before
overlaid before (some staged) = ok staged

true_ne_false : ¬ (true ≡ false)
true_ne_false h = cc

bytes_lt-ne : (a b : List ℕ) → bytes_lt a b ≡ true → bytes_eq b a ≡ false
bytes_lt-ne a b h = elim (Bool-cases (bytes_eq b a)) [
  | inr ne ↦ ne
  | inl e ↦
      let e2 : bytes_lt b b ≡ true = subst (λ z. bytes_lt z b ≡ true) (sym (bytes_eq→eq b a e)) h in
      absurd (true_ne_false (sym e2 ∙ bytes_lt_irrefl b))
]

-- The three ways that a lookup meets an entry.
module _ (key k : List ℕ) (v : Option (List ℕ)) (pending : Pending) where
  get-same :
      bytes_lt key k ≡ false → bytes_lt k key ≡ false → btree.get key ((k, v) ∷ pending) ≡ some v
  unfolding btree.get
  get-same a b = rw (a, b)

  get-below : bytes_lt key k ≡ true → btree.get key ((k, v) ∷ pending) ≡ none
  unfolding btree.get
  get-below a = rw (a)

  get-above :
      bytes_lt key k ≡ false
      → bytes_lt k key ≡ true
      → btree.get key ((k, v) ∷ pending) ≡ btree.get key pending
  unfolding btree.get
  get-above a b = rw (a, b)

module _ (store_key : List ℕ → List ℕ) where
  after-cons :
      (key k : List ℕ) (v : Option (List ℕ)) (pending : Pending)
      (before : Result Error (Option (List ℕ))) (b : Bool)
      → bytes_eq (store_key k) key ≡ b
      → after (hashed store_key ((k, v) ∷ pending)) key before
        ≡ after (hashed store_key pending) key (if b then ok v else before)
  unfolding hashed after
  after-cons key k v pending before b e =
      ap (λ z. after (hashed store_key pending) key (if z then ok v else before)) e

  after_other :
      (key : List ℕ) (pending : Pending) (before : Result Error (Option (List ℕ)))
      → Above key pending
      → Separates store_key key pending
      → after (hashed store_key pending) (store_key key) before ≡ before
  unfolding hashed after
  after_other key [] before above sep = refl
  after_other key ((k, v) ∷ pending) before (lt, above) (p, sep) =
      after-cons (store_key key) k v pending before false (p ∙ bytes_lt-ne key k lt)
      ∙ after_other key pending before above sep

  empty_case :
      (key : List ℕ) (before : Result Error (Option (List ℕ)))
      → after (hashed store_key []) (store_key key) before
        ≡ overlaid before (btree.get {V = Option (List ℕ)} key [])
  unfolding hashed after btree.get
  empty_case key before = refl

  after-hashed :
      (key : List ℕ) (pending : Pending) (before : Result Error (Option (List ℕ)))
      → IsAscending pending
      → Separates store_key key pending
      → after (hashed store_key pending) (store_key key) before
        ≡ overlaid before (btree.get key pending)
  after-hashed key [] before a sep = empty_case key before
  after-hashed key ((k, v) ∷ pending) before (above, a) (p, sep) =
      elim (Bool-cases (bytes_eq k key)) [
        | inl same ↦
            let e = bytes_eq→eq k key same in
            after-cons (store_key key) k v pending before true (p ∙ same)
            ∙ after_other key pending (ok v) (subst (λ z. Above z pending) e above) sep
            ∙ ap (overlaid before) (
                sym (
                  get-same key k v pending (subst (λ z. bytes_lt z k ≡ false) e (bytes_lt_irrefl k))
                    (subst (λ z. bytes_lt k z ≡ false) e (bytes_lt_irrefl k))))
        | inr other ↦
            after-cons (store_key key) k v pending before false (p ∙ other)
            ∙ (elim (Bool-cases (bytes_lt key k)) [
              | inl below ↦
                  after_other key pending before (Above-trans key k pending below above) sep
                  ∙ ap (overlaid before) (sym (get-below key k v pending below))
              | inr b ↦ elim (Bool-cases (bytes_lt k key)) [
                | inl l ↦
                    after-hashed key pending before a sep
                    ∙ ap (overlaid before) (sym (get-above key k v pending b l))
                | inr c ↦
                    let e = bytes_lt_total k key c b in
                    absurd (
                      true_ne_false
                        (sym (bytes_eq_self k) ∙ subst (λ z. bytes_eq k z ≡ false) (sym e) other))
              ]
            ])
      ]

module _ {S : Type 0} ⦃merkle : MerkleStore S⦄ (store_key : List ℕ → List ℕ) where
  -- A commit that succeeds empties the overlay, and from then on both kinds of read answer what a read
  -- through the overlay answered; one that fails keeps the overlay.
  abbrev pub Commits : List ℕ → StagedStore S → StagedStore S × Result Error (Unit {0}) → Type 0
  Commits key s (t, err e) = t.pending ≡ s.pending
  Commits key s (t, ok u) =
      (t.pending ≡ [])
      × (get store_key key t ≡ get store_key key s)
      × (get_committed store_key key t ≡ get store_key key s)

module _ {S : Type 0} ⦃merkle : MerkleStore S⦄ (IsStore : S → Type 0)
    (store_key : List ℕ → List ℕ) where
  Commits-batch :
      (durable : Durable merkle IsStore) (key : List ℕ) (s : StagedStore S)
      → IsAscending s.pending
      → Separates store_key key s.pending
      → (result : S × Result Error (Unit {0}))
      → Applied s.store (hashed store_key s.pending) (store_key key) result
      → Commits store_key key s (committed s.pending result)
  unfolding committed get get_committed btree.get
  Commits-batch durable key s a sep (t, err e) applied = refl
  Commits-batch durable key s a sep (t, ok u) applied =
      let e = applied ∙ after-hashed store_key key s.pending _ a sep in
      (refl, e, durable.reads_committed t (store_key key) ∙ e)

  commit_cases :
      (durable : Durable merkle IsStore) (key : List ℕ) (s : StagedStore S)
      → IsAscending s.pending
      → Separates store_key key s.pending
      → (pending : Pending) → pending ≡ s.pending
      → Applied s.store
          (hashed store_key s.pending)
          (store_key key)
          (merkle.commit_batch s.store (hashed store_key s.pending))
      → Commits store_key key s (commit store_key s)
  unfolding commit is_empty get get_committed btree.get
  commit_cases durable key s a sep [] e applied =
      let r : commit store_key s ≡ (s, ok tt) =
        ap
          (λ z.
            if (elim z [ [] ↦ true | ◌∷◌ w ws ↦ false ])
            then (s, ok tt)
            else committed s.pending (merkle.commit_batch s.store (hashed store_key s.pending)))
          (sym e) in
      let g : get store_key key s ≡ merkle.get s.store (store_key key) =
        ap
          (λ z. elim (btree.get key z) [
            | some staged ↦ ok staged
            | none ↦ merkle.get s.store (store_key key)
          ])
          (sym e) in
      subst (Commits store_key key s) (sym r)
        (sym e, refl, durable.reads_committed s.store (store_key key) ∙ sym g)
  commit_cases durable key s a sep (w ∷ ws) e applied =
      let r : commit store_key s
          ≡ committed s.pending (merkle.commit_batch s.store (hashed store_key s.pending)) =
        ap
          (λ z.
            if (elim z [ [] ↦ true | ◌∷◌ w ws ↦ false ])
            then (s, ok tt)
            else committed s.pending (merkle.commit_batch s.store (hashed store_key s.pending)))
          (sym e) in
      subst (Commits store_key key s) (sym r) (Commits-batch durable key s a sep _ applied)

  -- On a durable store, a commit that succeeds empties the overlay and leaves every read through it, of
  -- a key that the hash tells apart from the staged ones, as it was, now in the committed view too; a
  -- commit that fails keeps the overlay.
  pub commit-get :
      (durable : Durable merkle IsStore) (key : List ℕ) (s : StagedStore S)
      → IsStore s.store
      → IsAscending s.pending
      → Separates store_key key s.pending
      → Commits store_key key s (commit store_key s)
  commit-get durable key s valid a sep =
      commit_cases durable key s a sep s.pending refl
        (durable.applies s.store (hashed store_key s.pending) (store_key key) valid)
