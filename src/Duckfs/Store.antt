-- ===== src/Duckfs/Store.antt =====
-- crates/duckfs/core/src/store.rs: the object store in memory and the refs store in memory. SHA-256 is a
-- parameter, and `object_id` of objects.rs hashes the kind's tag ahead of the body. No method of these
-- stores fails, and the `Ok` around what they return is left out.
pub mod Addressed
use ducktape_sdk.Prelude.{
  ℕ, Bool, true, false, Option, none, some, List, [], ◌∷◌, ◌++◌, map, length, ◌%◌, ◌^◌,
}
use ducktape_sdk.Bytes.Order.{bytes_order, bytes_eq}
use ducktape_sdk.BTree as btree
use ducktape_sdk.BTree.{BTreeMap}
use ducktape_sdk.Duckfs.Kind
use ducktape_sdk.Duckfs.Kind.{Kind}
use ducktape_sdk.Duckfs.Objects.{ObjectId}
use ducktape_sdk.Duckfs.Refs.{Refs}

abbrev pub Objects : Type 0
Objects = BTreeMap ObjectId (Kind × List ℕ)

unfoldable pub get : Objects → ObjectId → Option (Kind × List ℕ)
get objects id = btree.get id objects

unfoldable pub has : Objects → ObjectId → Bool
has objects id = btree.contains_key id objects

-- The trait's default `verify`.
unfoldable pub verify : Objects → ObjectId → Bool
verify objects id = has objects id

-- `body.len() as u64`
unfoldable pub stat : Objects → ObjectId → Option (Kind × ℕ)
stat objects id = elim (btree.get id objects) [
  | none ↦ none
  | some (kind, body) ↦ some (kind, length body % 2 ^ 64)
]

unfoldable pub remove : Objects → ObjectId → Objects
remove objects id = btree.remove id objects

unfoldable pub list : Objects → List ObjectId
list objects = map (λ e. e.0) objects

module _ (sha256 : List ℕ → List ℕ) where
  unfoldable pub object_id : Kind → List ℕ → ObjectId
  object_id kind body = sha256 ((Kind.tag kind ∷ []) ++ body)

  unfoldable pub put : Objects → Kind → List ℕ → ObjectId × Objects
  put objects kind body = let id = object_id kind body in (id, btree.insert id (kind, body) objects)

abbrev pub MemRefs : Type 0
MemRefs = Option (Refs × (ℕ × ℕ))

unfoldable pub load : MemRefs → Option (Refs × (ℕ × ℕ))
load saved = saved

unfoldable pub save : MemRefs → Refs → ℕ → ℕ → MemRefs
save saved refs height gc_watermark = some (refs, (height, gc_watermark))
