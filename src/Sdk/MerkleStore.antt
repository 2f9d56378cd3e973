-- ===== src/Sdk/MerkleStore.antt =====
-- `MerkleStore` of crates/kernel/sdk/src/lib.rs: the key-value store that the host injects. Keys are
-- digests, a write of `none` is a delete. `S` is the state of the store.
use ducktape_sdk.Prelude.{ℕ, ◌≡◌, Option, List, [], ◌∷◌, if◌then◌else◌}
use ducktape_sdk.Bytes.Order.{bytes_eq}
use ducktape_sdk.Sdk.Codec.{Error}
use ducktape_sdk.Parser.{Result, ok, err}

abbrev pub Writes : Type 0
Writes = List (List ℕ × Option (List ℕ))

pub record MerkleStore (S : Type 0) : Type 0 where
  pub get : S → List ℕ → Result Error (Option (List ℕ))
  pub prefetch : S → List (List ℕ) → Result Error (Unit {0})
  pub get_committed : S → List ℕ → Result Error (Option (List ℕ))
  pub commit_batch : S → Writes → S × Result Error (Unit {0})
  pub root : S → List ℕ

-- What a read of `key` answers after the writes, when it answered `before` ahead of them.
unfoldable pub after :
    Writes → List ℕ → Result Error (Option (List ℕ)) → Result Error (Option (List ℕ))
after [] key before = before
after ((k, v) ∷ writes) key before = after writes key (if bytes_eq k key then ok v else before)

module _ {S : Type 0} ⦃merkle : MerkleStore S⦄ where
  -- What the batch promises of a later read of `key`: all writes are applied when it succeeds.
  abbrev pub Applied : S → Writes → List ℕ → S × Result Error (Unit {0}) → Type 0
  Applied s writes key (t, err e) = Unit
  Applied s writes key (t, ok u) = merkle.get t key ≡ after writes key (merkle.get s key)

-- The documented behaviour of a durable store: `get` and `get_committed` agree, and a batch that
-- succeeds on a well-formed store is applied.
pub record Durable {S : Type 0} (merkle : MerkleStore S) (IsStore : S → Type 0) : Type 0 where
  pub reads_committed : (s : S) (key : List ℕ) → merkle.get_committed s key ≡ merkle.get s key
  pub applies :
      (s : S) (writes : Writes) (key : List ℕ)
      → IsStore s
      → Applied ⦃merkle = merkle⦄ s writes key (merkle.commit_batch s writes)
