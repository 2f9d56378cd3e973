-- ===== src/Sdk/StagedStore.antt =====
-- crates/kernel/sdk/src/staged_store.rs: the overlay of one block's writes over a `MerkleStore`.
-- `store_key`, SHA-256 of the logical key, is a parameter.
pub mod Reads
pub mod Commit
use ducktape_sdk.Prelude.{
  ℕ, ◌≡◌, Bool, true, false, not, Option, none, some, List, [], ◌∷◌, map, if◌then◌else◌,
}
use ducktape_sdk.Bytes.Order.{bytes_order}
use ducktape_sdk.Sdk.Codec.{Error}
use ducktape_sdk.Parser.{Result, ok, err}
use ducktape_sdk.BTree as btree
use ducktape_sdk.BTree.{BTreeMap, contains_key}
use ducktape_sdk.Sdk.MerkleStore.{MerkleStore, Writes}

abbrev pub Pending : Type 0
Pending = BTreeMap (List ℕ) (Option (List ℕ))

pub record StagedStore (S : Type 0) : Type 0 where
  pub store : S
  pub pending : Pending

module _ {S : Type 0} where
  unfoldable pub new : S → StagedStore S
  new store = record { store = store; pending = [] }

  unfoldable pub stage : List ℕ → List ℕ → StagedStore S → StagedStore S
  stage key value s = record { store = s.store; pending = btree.insert key (some value) s.pending }

  unfoldable pub delete : List ℕ → StagedStore S → StagedStore S
  delete key s = record { store = s.store; pending = btree.insert key none s.pending }

  unfoldable pub checkpoint : StagedStore S → Pending
  checkpoint s = s.pending

  unfoldable pub restore : Pending → StagedStore S → StagedStore S
  restore saved s = record { store = s.store; pending = saved }

  unfoldable pub staged_writes : StagedStore S → Pending
  staged_writes s = s.pending

  unfoldable pub is_empty : StagedStore S → Bool
  is_empty s = elim (s.pending) [ [] ↦ true | ◌∷◌ e pending ↦ false ]

  unfoldable pub abort : StagedStore S → StagedStore S
  abort s = record { store = s.store; pending = [] }

module _ (store_key : List ℕ → List ℕ) where
  -- The keys of a prefetch that the overlay does not answer.
  unfoldable pub not_staged : Pending → List (List ℕ) → List (List ℕ)
  not_staged pending [] = []
  not_staged pending (key ∷ keys) =
      let rest = not_staged pending keys in
      if contains_key key pending then rest else store_key key ∷ rest

  unfoldable pub hashed : Pending → Writes
  hashed [] = []
  hashed ((key, value) ∷ pending) = (store_key key, value) ∷ hashed pending

-- After the batch: the overlay is emptied when it succeeded.
unfoldable pub committed :
    {S : Type 0} → Pending → S × Result Error (Unit {0}) → StagedStore S × Result Error (Unit {0})
committed pending (t, err e) = (record { store = t; pending = pending }, err e)
committed pending (t, ok u) = (record { store = t; pending = [] }, ok tt)

module _ {S : Type 0} ⦃merkle : MerkleStore S⦄ (store_key : List ℕ → List ℕ) where
  unfoldable pub get : List ℕ → StagedStore S → Result Error (Option (List ℕ))
  get key s = elim (btree.get key s.pending) [
    | some staged ↦ ok staged
    | none ↦ merkle.get s.store (store_key key)
  ]

  unfoldable pub prefetch : List (List ℕ) → StagedStore S → Result Error (Unit {0})
  prefetch keys s = merkle.prefetch s.store (not_staged store_key s.pending keys)

  unfoldable pub get_committed : List ℕ → StagedStore S → Result Error (Option (List ℕ))
  get_committed key s = merkle.get_committed s.store (store_key key)

  unfoldable pub commit : StagedStore S → StagedStore S × Result Error (Unit {0})
  commit s =
      if is_empty s
      then (s, ok tt)
      else committed s.pending (merkle.commit_batch s.store (hashed store_key s.pending))

unfoldable pub root : {S : Type 0} ⦃merkle : MerkleStore S⦄ → StagedStore S → List ℕ
root ⦃merkle⦄ s = merkle.root s.store
