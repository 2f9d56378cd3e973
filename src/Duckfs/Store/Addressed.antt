-- ===== src/Duckfs/Store/Addressed.antt =====
-- What `put` and `remove` of the object store in memory do to its objects.
use ducktape_sdk.Prelude.{
  ℕ, ◌≡◌, refl, some, List, [], ◌∷◌, All, if◌then◌else◌, inl, inr, Bool-cases,
}
use ducktape_sdk.Bytes.Order.{bytes_order, bytes_eq}
use ducktape_sdk.BTree as btree
use ducktape_sdk.BTree.{IsAscending}
use ducktape_sdk.BTree.Lookup.{insert-IsAscending, remove-IsAscending}
use ducktape_sdk.Sdk.StagedStore.Reads.{get-insert}
use ducktape_sdk.Duckfs.Kind.{Kind}
use ducktape_sdk.Duckfs.Objects.{ObjectId}
use ducktape_sdk.Duckfs.Store.{Objects, get, remove, object_id, put}

module _ (sha256 : List ℕ → List ℕ) where
  -- The map ascends, and every object lies under the id that its content hashes to.
  abbrev pub IsAddressed : Objects → Type 0
  IsAddressed objects = IsAscending objects × All (λ e. object_id sha256 e.1.0 e.1.1 ≡ e.0) objects

  All-insert :
      (P : ObjectId × (Kind × List ℕ) → Type 0) (id : ObjectId) (o : Kind × List ℕ)
      (objects : Objects)
      → P (id, o)
      → All P objects
      → All P (btree.insert id o objects)
  unfolding btree.insert
  All-insert P id o [] p h = (p, tt)
  All-insert P id o ((j, w) ∷ objects) p (q, h) = elim (Bool-cases (bytes_order.less id j)) [
    | inl l ↦ rw (l) (p, (q, h))
    | inr l ↦ elim (Bool-cases (bytes_order.less j id)) [
      | inl g ↦ rw (l, g) (q, All-insert P id o objects p h)
      | inr g ↦ rw (l, g) (p, h)
    ]
  ]

  All-remove :
      (P : ObjectId × (Kind × List ℕ) → Type 0) (id : ObjectId) (objects : Objects)
      → All P objects
      → All P (btree.remove id objects)
  unfolding btree.remove
  All-remove P id [] h = tt
  All-remove P id ((j, w) ∷ objects) (q, h) = elim (Bool-cases (bytes_order.less id j)) [
    | inl l ↦ rw (l) (q, h)
    | inr l ↦ elim (Bool-cases (bytes_order.less j id)) [
      | inl g ↦ rw (l, g) (q, All-remove P id objects h)
      | inr g ↦ rw (l, g) h
    ]
  ]

  -- `put` and `remove` keep every object under the hash of its content, and after a `put` the id that it
  -- returns reads back the object, while a read of any other id answers what it answered before.
  pub put-remove-IsAddressed :
      (objects : Objects) (kind : Kind) (body : List ℕ) (id : ObjectId)
      → IsAddressed objects
      → IsAddressed (put sha256 objects kind body).1
        × IsAddressed (remove objects id)
        × (get (put sha256 objects kind body).1 id ≡ (
            if bytes_eq (put sha256 objects kind body).0 id
            then some (kind, body)
            else get objects id))
  unfolding put remove get
  put-remove-IsAddressed objects kind body id (asc, content) = (
    (
      insert-IsAscending (object_id sha256 kind body) (kind, body) objects asc,
      All-insert (λ e. object_id sha256 e.1.0 e.1.1 ≡ e.0) (object_id sha256 kind body) (kind, body)
          objects refl content,
    ),
    (
      remove-IsAscending id objects asc,
      All-remove (λ e. object_id sha256 e.1.0 e.1.1 ≡ e.0) id objects content,
    ),
    get-insert id (object_id sha256 kind body) (kind, body) objects,
  )
