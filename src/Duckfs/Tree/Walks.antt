-- ===== src/Duckfs/Tree/Walks.antt =====
-- `entry_at` of crates/duckfs/core/src/tree.rs against the read of an edit that nothing has changed.
use ducktape_sdk.Prelude.{
  ℕ, ◌≡◌, refl, sym, ap, ◌∙◌, Bool, true, false, Option, none, some, List, [], ◌∷◌, inl, inr,
  Bool-cases, if◌then◌else◌,
}
use ducktape_sdk.Bytes.Order.{bytes_order, bytes_lt}
use ducktape_sdk.BTree as btree
use ducktape_sdk.Parser.{Result, ok, err}
use ducktape_sdk.Duckfs.Errors.{FilesError}
use ducktape_sdk.Duckfs.Results.{◌>>=◌}
use ducktape_sdk.Duckfs.EntryKind
use ducktape_sdk.Duckfs.Objects.{ObjectId, TreeEntry, Entries}
use ducktape_sdk.Duckfs.Paths.{Segments}
use ducktape_sdk.Duckfs.Tree.{
  Node, ref_node, Children, get_child, refs_of, is_dir, load, fetch_tree, load_children,
}
use ducktape_sdk.Duckfs.Tree.Build.{step_get, walk_get, get}
use ducktape_sdk.Duckfs.Tree.Resolve.{Store, step_entry, entry_below, entry_at}

abbrev child_of : Option TreeEntry → Option Node
child_of none = none
child_of (some entry) = some (ref_node entry)

get_child-refs_of :
    (name : List ℕ) (entries : Entries)
    → get_child name (refs_of entries) ≡ child_of (btree.get name entries)
unfolding get_child refs_of btree.get
get_child-refs_of name [] = refl
get_child-refs_of name ((n, entry) ∷ entries) = elim (Bool-cases (bytes_lt name n)) [
  | inl below ↦ rw (below)
  | inr l ↦ elim (Bool-cases (bytes_lt n name)) [
    | inl above ↦ rw (l, above) (get_child-refs_of name entries)
    | inr g ↦ rw (l, g)
  ]
]

if-true {ℓ} : {A : Type ℓ} (b : Bool) (x y : A) → b ≡ true → (if b then x else y) ≡ x
if-true true x y h = refl
if-true false x y h = absurd (cc)

if-false {ℓ} : {A : Type ℓ} (b : Bool) (x y : A) → b ≡ false → (if b then x else y) ≡ y
if-false true x y h = absurd (cc)
if-false false x y h = refl

module _ (sha256 : List ℕ → List ℕ) (store : Store) where
  -- The two walks after a directory was read.
  after_get : Segments → Option Node → Result FilesError (Option TreeEntry)
  after_get rest o = elim o [
    | none ↦ ok none
    | some next ↦ step_get sha256 next rest (walk_get sha256 store.get next rest)
  ]

  after_read : List ℕ → Segments → Result FilesError Children → Result FilesError (Option TreeEntry)
  unfolding after_get
  after_read name rest r = elim r [
    | err e ↦ err e
    | ok children ↦ after_get rest (get_child name children)
  ]

  -- What the two walks make of the entry found for a segment, given that they agree below directories.
  found :
      (rest : Segments)
      → ((entry : TreeEntry)
          → is_dir entry.kind ≡ true
          → walk_get sha256 store.get (ref_node entry) rest ≡ entry_below store rest entry.id)
      → (o : Option TreeEntry)
      → after_get rest (child_of o) ≡ step_entry rest (entry_below store rest) o
  unfolding after_get walk_get
  found rest below none = refl
  found [] below (some entry) = refl
  found (name ∷ rest) below (some entry) = elim (Bool-cases (is_dir entry.kind)) [
    | inl d ↦ below entry d ∙ sym (if-true _ _ _ d)
    | inr d ↦ if-false _ _ _ d ∙ sym (if-false _ _ _ d)
  ]

  walk-entry_below :
      (segments : Segments) (entry : TreeEntry)
      → is_dir entry.kind ≡ true
      → walk_get sha256 store.get (ref_node entry) segments ≡ entry_below store segments entry.id
  unfolding walk_get entry_below after_read after_get load_children ◌>>=◌
  walk-entry_below [] entry d = refl
  walk-entry_below (name ∷ rest) entry d =
      rw (d) (from_tree (walk-entry_below rest) (fetch_tree store.get entry.id))
    where
      from_tree :
          ((e : TreeEntry)
            → is_dir e.kind ≡ true
            → walk_get sha256 store.get (ref_node e) rest ≡ entry_below store rest e.id)
          → (r : Result FilesError Entries)
          → after_read name rest (elim r as (λ _. Result FilesError Children) [
            | err e ↦ err e
            | ok entries ↦ ok (refs_of entries)
          ])
            ≡ (r >>= λ entries. step_entry rest (entry_below store rest) (btree.get name entries))
      from_tree below (err e) = refl
      from_tree below (ok entries) =
          ap (after_get rest) (get_child-refs_of name entries)
          ∙ found rest below (btree.get name entries)

  -- On a tree that no edit has touched, the edit's read and `entry_at` agree in every case: on the entry,
  -- on its absence and on the refusal, for every path and for an absent root too.
  pub get-entry_at :
      (root : Option ObjectId) (segments : Segments)
      → get sha256 store.get (load root) segments ≡ entry_at store root segments
  unfolding get walk_get get_child load entry_at entry_below is_dir
  get-entry_at none [] = refl
  get-entry_at none (name ∷ rest) = refl
  get-entry_at (some id) [] = refl
  get-entry_at (some id) (name ∷ rest) =
      walk-entry_below (name ∷ rest)
        (record { kind = EntryKind.dir; id = id; exec = false; size = 0 }) refl
