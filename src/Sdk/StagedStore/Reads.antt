-- ===== src/Sdk/StagedStore/Reads.antt =====
-- What a read through the overlay answers after any run of overlay operations, and what undoes one.
use ducktape_sdk.Prelude.{
  ℕ, ◌≡◌, refl, sym, ap, subst, ◌∙◌, true, false, Option, none, some, List, [], ◌∷◌, if◌then◌else◌,
  inl, inr, Bool-cases,
}
use ducktape_sdk.Bytes.Order.{
  bytes_order, bytes_eq, bytes_eq_self, bytes_eq→eq, bytes_lt, bytes_lt_total,
}
use ducktape_sdk.Sdk.Codec.{Error}
use ducktape_sdk.Parser.{Result, ok}
use ducktape_sdk.BTree as btree
use ducktape_sdk.BTree.{BTreeMap, IsAscending}
use ducktape_sdk.BTree.Lookup.{
  get-insert_same, get-insert_below, get-insert_above, insert-IsAscending,
}
use ducktape_sdk.Sdk.MerkleStore.{MerkleStore}
use ducktape_sdk.Sdk.StagedStore.{
  Pending, StagedStore, new, stage, delete, checkpoint, restore, abort, get, get_committed, root,
}

pub true_ne_false : ¬ (true ≡ false)
true_ne_false h = cc

pub get-insert {ℓ} :
    {V : Type ℓ} (key k : List ℕ) (v : V) (m : BTreeMap (List ℕ) V)
    → btree.get key (btree.insert k v m) ≡ (if bytes_eq k key then some v else btree.get key m)
get-insert key k v m = elim (Bool-cases (bytes_eq k key)) [
  | inl same ↦ rw (same) (
      subst (λ z. btree.get z (btree.insert k v m) ≡ some v) (bytes_eq→eq k key same)
        (get-insert_same k v m))
  | inr other ↦ rw (other) (elim (Bool-cases (bytes_lt k key)) [
    | inl below ↦ get-insert_above key k v m below
    | inr b ↦ elim (Bool-cases (bytes_lt key k)) [
      | inl above ↦ get-insert_below key k v m above
      | inr a ↦
          let e : bytes_eq key key ≡ false =
            subst (λ z. bytes_eq z key ≡ false) (bytes_lt_total k key b a) other in
          absurd (true_ne_false (sym (bytes_eq_self key) ∙ e))
    ]
  ])
]

-- An operation on the overlay within a block.
pub data Step : Type 0 where
  stage_step : List ℕ → List ℕ → Step
  delete_step : List ℕ → Step

module _ {S : Type 0} where
  abbrev pub run : List Step → StagedStore S → StagedStore S
  run [] s = s
  run (stage_step key value ∷ steps) s = run steps (stage key value s)
  run (delete_step key ∷ steps) s = run steps (delete key s)

  with_pending : Pending → S → StagedStore S
  with_pending pending store = record { store = store; pending = pending }

  run_store : (steps : List Step) (s : StagedStore S) → (run steps s).store ≡ s.store
  unfolding stage delete
  run_store [] s = refl
  run_store (stage_step key value ∷ steps) s = run_store steps (stage key value s)
  run_store (delete_step key ∷ steps) s = run_store steps (delete key s)

  pub run-IsAscending :
      (steps : List Step) (s : StagedStore S)
      → IsAscending s.pending
      → IsAscending (run steps s).pending
  unfolding stage delete
  run-IsAscending [] s a = a
  run-IsAscending (stage_step key value ∷ steps) s a =
      run-IsAscending steps (stage key value s) (insert-IsAscending key (some value) s.pending a)
  run-IsAscending (delete_step key ∷ steps) s a =
      run-IsAscending steps (delete key s) (insert-IsAscending key none s.pending a)

-- What the steps leave under `key`: the last write of it, else what was there before.
abbrev pub latest :
    List Step → List ℕ → Result Error (Option (List ℕ)) → Result Error (Option (List ℕ))
latest [] key before = before
latest (stage_step k v ∷ steps) key before =
    latest steps key (if bytes_eq k key then ok (some v) else before)
latest (delete_step k ∷ steps) key before =
    latest steps key (if bytes_eq k key then ok none else before)

module _ {S : Type 0} ⦃merkle : MerkleStore S⦄ (store_key : List ℕ → List ℕ) where
  answer : StagedStore S → List ℕ → Option (Option (List ℕ)) → Result Error (Option (List ℕ))
  answer s key (some staged) = ok staged
  answer s key none = merkle.get s.store (store_key key)

  get-write :
      (key k : List ℕ) (v : Option (List ℕ)) (s : StagedStore S)
      → get store_key key (record { store = s.store; pending = btree.insert k v s.pending })
        ≡ (if bytes_eq k key then ok v else get store_key key s)
  unfolding get answer
  get-write key k v s =
      ap (answer s key) (get-insert key k v s.pending)
      ∙ (elim (Bool-cases (bytes_eq k key)) [ inl h ↦ rw (h) | inr h ↦ rw (h) ])

  -- After any stages and deletes, a read answers the last write of the key among them, a delete as
  -- absence, and what it answered before them when they do not write the key.
  pub get-run :
      (steps : List Step) (key : List ℕ) (s : StagedStore S)
      → get store_key key (run steps s) ≡ latest steps key (get store_key key s)
  unfolding stage delete
  get-run [] key s = refl
  get-run (stage_step k v ∷ steps) key s =
      get-run steps key (stage k v s) ∙ ap (latest steps key) (get-write key k (some v) s)
  get-run (delete_step k ∷ steps) key s =
      get-run steps key (delete k s) ∙ ap (latest steps key) (get-write key k none s)

  -- Stages and deletes move neither the root nor a committed read; restoring the checkpoint taken
  -- ahead of them gives back the overlay as it was, and aborting gives back the fresh one.
  pub undo-run :
      (steps : List Step) (key : List ℕ) (s : StagedStore S)
      → (root (run steps s) ≡ root s)
        × (get_committed store_key key (run steps s) ≡ get_committed store_key key s)
        × (restore (checkpoint s) (run steps s) ≡ s)
        × (abort (run steps s) ≡ new s.store)
  unfolding root get_committed restore checkpoint abort new with_pending
  undo-run steps key s =
      let e = run_store steps s in
      (
        ap (λ z. merkle.root z) e,
        ap (λ z. merkle.get_committed z (store_key key)) e,
        ap (with_pending s.pending) e,
        ap new e,
      )
