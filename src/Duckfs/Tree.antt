-- ===== src/Duckfs/Tree.antt =====
-- The copy-on-write tree edit of crates/duckfs/core/src/tree.rs. `&mut` on a node is the node passed in
-- and out, also when the operation fails halfway. The read of an object, `Store::get`, is the parameter
-- `fetch`, as a store without a budget answers it; SHA-256 is a parameter.
pub mod Build
pub mod Put
pub mod Move
pub mod Resolve
pub mod Walks
use ducktape_sdk.Prelude.{
  ℕ, ◌%◌, ◌^◌, Bool, true, false, Option, none, some, List, [], ◌∷◌, ◌++◌, length, ltb,
  if◌then◌else◌,
}
use ducktape_sdk.Bytes.Order.{bytes_order, bytes_lt}
use ducktape_sdk.BTree as btree
use ducktape_sdk.Parser.{Result, ok, err}
use ducktape_sdk.Duckfs.Limits.{max_dir_entries}
use ducktape_sdk.Duckfs.Errors.{
  FilesError, tree_missing, not_a_tree, file_in_the_way, directory_missing, put_root, mkdir_root,
  rm_root, mkdir_exists, rm_missing, directory_over_cap,
}
use ducktape_sdk.Duckfs.Kind
use ducktape_sdk.Duckfs.Kind.{Kind}
use ducktape_sdk.Duckfs.EntryKind
use ducktape_sdk.Duckfs.EntryKind.{EntryKind}
use ducktape_sdk.Duckfs.Objects.{
  ObjectId, TreeEntry, Entries, SnapshotObj, encode_tree, decode_tree, decode_snapshot,
}
use ducktape_sdk.Duckfs.Paths.{Segments}
use ducktape_sdk.Duckfs.Store.{object_id}

mutual
  pub data Node : Type 0 where
    ref_node : TreeEntry → Node
    dir : Children → Node

  -- `BTreeMap<String, Node>`, in ascending order of the names.
  pub data Children : Type 0 where
    empty : Children
    child : List ℕ → Node → Children → Children

-- `map.get`
unfoldable pub get_child : List ℕ → Children → Option Node
get_child name empty = none
get_child name (child n node children) =
    let rest = get_child name children in
    if bytes_lt name n then none else if bytes_lt n name then rest else some node

-- `map.insert`
unfoldable pub put_child : List ℕ → Node → Children → Children
put_child name node empty = child name node empty
put_child name node (child n old children) =
    let rest = put_child name node children in
    if bytes_lt name n
    then child name node (child n old children)
    else if bytes_lt n name
    then child n old rest
    else child name node children

-- `map.remove`
unfoldable pub remove_child : List ℕ → Children → Children
remove_child name empty = empty
remove_child name (child n old children) =
    let rest = remove_child name children in
    if bytes_lt name n
    then child n old children
    else if bytes_lt n name
    then child n old rest
    else children

-- Every entry of a fetched directory, as a reference.
unfoldable pub refs_of : Entries → Children
refs_of [] = empty
refs_of ((name, entry) ∷ entries) = child name (ref_node entry) (refs_of entries)

-- `split_last`
unfoldable pub split_last : Segments → Option (Segments × List ℕ)
split_last [] = none
split_last (segment ∷ segments) = elim (split_last segments) [
  | none ↦ some ([], segment)
  | some (dirs, name) ↦ some (segment ∷ dirs, name)
]

abbrev pub Fetch : Type 0
Fetch = ObjectId → Result FilesError (Option (Kind × List ℕ))

unfoldable pub is_tree : Kind → Bool
is_tree Kind.tree = true
is_tree kind = false

unfoldable pub is_dir : EntryKind → Bool
is_dir EntryKind.dir = true
is_dir kind = false

-- The root starts as a reference that nothing decodes; its size is a placeholder.
unfoldable pub load : Option ObjectId → Node
load none = dir empty
load (some id) = ref_node (record { kind = EntryKind.dir; id = id; exec = false; size = 0 })

module _ (fetch : Fetch) where
  unfoldable pub fetch_tree : ObjectId → Result FilesError Entries
  fetch_tree id = elim (fetch id) [
    | err e ↦ err e
    | ok none ↦ err tree_missing
    | ok (some (kind, body)) ↦ if is_tree kind then decode_tree body else err not_a_tree
  ]

  unfoldable pub load_children : ObjectId → Result FilesError Children
  load_children id = elim (fetch_tree id) [ err e ↦ err e | ok entries ↦ ok (refs_of entries) ]

  -- The children that the node has once it is a directory in memory.
  unfoldable pub materialize : Node → Result FilesError Children
  materialize (dir children) = ok children
  materialize (ref_node entry) =
      if is_dir entry.kind then load_children entry.id else err file_in_the_way

  -- `navigate`, and then what the caller does with the parent's children.
  unfoldable pub navigate {ℓ} :
      {A : Type ℓ}
      → Bool
      → (Children → Children × Result FilesError A)
      → Node
      → Segments
      → Node × Result FilesError A
  navigate create f node [] = elim (materialize node) [
    | err e ↦ (node, err e)
    | ok children ↦ let (children', r) = f children in (dir children', r)
  ]
  navigate create f node (segment ∷ dirs) = elim (materialize node) [
    | err e ↦ (node, err e)
    | ok children ↦ elim (get_child segment children) [
      | some next ↦
          let (next', r) = navigate create f next dirs in
          (dir (put_child segment next' children), r)
      | none ↦ elim create [
        | true ↦
            let (next', r) = navigate create f (dir empty) dirs in
            (dir (put_child segment next' children), r)
        | false ↦ (dir children, err directory_missing)
      ]
    ]
  ]

  abbrev pub insert_entry : List ℕ → TreeEntry → Children → Children × Result FilesError (Unit {0})
  insert_entry name entry children = (put_child name (ref_node entry) children, ok tt)

  unfoldable pub put : Node → Segments → TreeEntry → Node × Result FilesError (Unit {0})
  put root segments entry = elim (split_last segments) [
    | none ↦ (root, err put_root)
    | some (dirs, name) ↦ navigate true (insert_entry name entry) root dirs
  ]

  unfoldable pub make_dir : List ℕ → Children → Children × Result FilesError (Unit {0})
  make_dir name children = elim (get_child name children) [
    | some node ↦ (children, err mkdir_exists)
    | none ↦ (put_child name (dir empty) children, ok tt)
  ]

  unfoldable pub mkdir : Node → Segments → Node × Result FilesError (Unit {0})
  mkdir root segments = elim (split_last segments) [
    | none ↦ (root, err mkdir_root)
    | some (dirs, name) ↦ navigate true (make_dir name) root dirs
  ]

  unfoldable pub remove_entry : List ℕ → Children → Children × Result FilesError (Unit {0})
  remove_entry name children = elim (get_child name children) [
    | some node ↦ (remove_child name children, ok tt)
    | none ↦ (children, err rm_missing)
  ]

  unfoldable pub rm : Node → Segments → Node × Result FilesError (Unit {0})
  rm root segments = elim (split_last segments) [
    | none ↦ (root, err rm_root)
    | some (dirs, name) ↦ navigate false (remove_entry name) root dirs
  ]
