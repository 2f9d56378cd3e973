-- ===== src/Duckfs/Tree/Build.antt =====
-- `build` and `get` of the tree edit, and the read-only twin of `build_dir`.
use ducktape_sdk.Prelude.{
  inl, inr, Bool-cases, ℕ, ◌%◌, ◌^◌, ◌≡◌, refl, ap, ◌∙◌, false, Option, none, some, List, [], ◌∷◌,
  ◌++◌, length, ltb, if◌then◌else◌,
}
use ducktape_sdk.Bytes.Order.{bytes_order}
use ducktape_sdk.BTree as btree
use ducktape_sdk.Parser.{Result, ok, err}
use ducktape_sdk.Duckfs.Limits.{max_dir_entries}
use ducktape_sdk.Duckfs.Errors.{FilesError, directory_over_cap}
use ducktape_sdk.Duckfs.Kind.{Kind}
use ducktape_sdk.Duckfs.EntryKind
use ducktape_sdk.Duckfs.Objects.{ObjectId, TreeEntry, Entries, encode_tree}
use ducktape_sdk.Duckfs.Paths.{Segments}
use ducktape_sdk.Duckfs.Store.{object_id}
use ducktape_sdk.Duckfs.Tree.{
  Node, ref_node, dir, Children, empty, child, get_child, Fetch, is_dir, load_children,
}

-- The objects that a build pushes.
abbrev pub Out : Type 0
Out = List (Kind × List ℕ)

module _ (sha256 : List ℕ → List ℕ) where
  -- The entry of a directory with these entries.
  abbrev pub entry_of : Entries → TreeEntry
  entry_of entries = record {
    kind = EntryKind.dir;
    id = object_id sha256 Kind.tree (encode_tree entries);
    exec = false;
    size = length entries % 2 ^ 64;
  }

  unfoldable pub stage_dir : Out → Result FilesError Entries → Out × Result FilesError TreeEntry
  stage_dir out (err e) = (out, err e)
  stage_dir out (ok entries) =
      if ltb max_dir_entries (length entries)
      then (out, err directory_over_cap)
      else (out ++ ((Kind.tree, encode_tree entries) ∷ []), ok (entry_of entries))

  -- A child's entry, and `build_dir` on the children of a directory.
  unfoldable mutual
    pub build_node : Node → Out → Out × Result FilesError TreeEntry
    build_node (ref_node entry) out = (out, ok entry)
    build_node (dir children) out =
        let (out', entries) = build_children children [] out in stage_dir out' entries

    pub build_children : Children → Entries → Out → Out × Result FilesError Entries
    build_children empty entries out = (out, ok entries)
    build_children (child name node children) entries out =
        let (out', r) = build_node node out in
        elim r [
          | err e ↦ (out', err e)
          | ok entry ↦ build_children children (btree.insert name entry entries) out'
        ]

  unfoldable pub build : Node → Out → Out × Result FilesError (Option ObjectId)
  build (ref_node entry) out = (out, ok (some entry.id))
  build (dir empty) out = (out, ok none)
  build (dir (child name node children)) out =
      let (out', r) = build_node (dir (child name node children)) out in
      elim r [ err e ↦ (out', err e) | ok entry ↦ (out', ok (some entry.id)) ]

  unfoldable pub readonly_dir : Result FilesError Entries → Result FilesError TreeEntry
  readonly_dir (err e) = err e
  readonly_dir (ok entries) =
      if ltb max_dir_entries (length entries) then err directory_over_cap else ok (entry_of entries)

  unfoldable mutual
    pub dir_entry_readonly : Node → Result FilesError TreeEntry
    dir_entry_readonly (ref_node entry) = ok entry
    dir_entry_readonly (dir children) = readonly_dir (readonly_children children [])

    pub readonly_children : Children → Entries → Result FilesError Entries
    readonly_children empty entries = ok entries
    readonly_children (child name node children) entries = elim (dir_entry_readonly node) [
      | err e ↦ err e
      | ok entry ↦ readonly_children children (btree.insert name entry entries)
    ]

  -- `step_get`, handed what `walk_get` answers below.
  abbrev pub step_get :
      Node → Segments → Result FilesError (Option TreeEntry) → Result FilesError (Option TreeEntry)
  step_get (ref_node entry) [] below = ok (some entry)
  step_get (dir children) [] below = elim (dir_entry_readonly (dir children)) [
    | err e ↦ err e
    | ok entry ↦ ok (some entry)
  ]
  step_get node (segment ∷ rest) below = below

  unfoldable pub walk_get : Fetch → Node → Segments → Result FilesError (Option TreeEntry)
  walk_get fetch node [] = ok none
  walk_get fetch (dir children) (head ∷ rest) = elim (get_child head children) [
    | none ↦ ok none
    | some next ↦ step_get next rest (walk_get fetch next rest)
  ]
  walk_get fetch (ref_node entry) (head ∷ rest) =
      if is_dir entry.kind
      then elim (load_children fetch entry.id) [
        | err e ↦ err e
        | ok children ↦ elim (get_child head children) [
          | none ↦ ok none
          | some next ↦ step_get next rest (walk_get fetch next rest)
        ]
      ]
      else ok none

  unfoldable pub get : Fetch → Node → Segments → Result FilesError (Option TreeEntry)
  get fetch root segments = walk_get fetch root segments

  stage_dir-readonly :
      (out : Out) (r : Result FilesError Entries) → (stage_dir out r).1 ≡ readonly_dir r
  unfolding stage_dir readonly_dir
  stage_dir-readonly out (err e) = refl
  stage_dir-readonly out (ok entries) = elim (Bool-cases (ltb max_dir_entries (length entries))) [
    | inl h ↦ rw (h)
    | inr h ↦ rw (h)
  ]

  -- The two ways that a loop over the children goes on after a child.
  abbrev next_build :
      (Entries → Out → Out × Result FilesError Entries)
      → List ℕ
      → Entries
      → Out
      → Result FilesError TreeEntry
      → Out × Result FilesError Entries
  next_build go_on name entries out (err e) = (out, err e)
  next_build go_on name entries out (ok entry) = go_on (btree.insert name entry entries) out

  abbrev next_readonly :
      (Entries → Result FilesError Entries)
      → List ℕ
      → Entries
      → Result FilesError TreeEntry
      → Result FilesError Entries
  next_readonly go_on name entries (err e) = err e
  next_readonly go_on name entries (ok entry) = go_on (btree.insert name entry entries)

  next_twin :
      (f : Entries → Out → Out × Result FilesError Entries)
      (g : Entries → Result FilesError Entries)
      → ((entries : Entries) (out : Out) → (f entries out).1 ≡ g entries)
      → (name : List ℕ) (entries : Entries) (out : Out) (r : Result FilesError TreeEntry)
      → (next_build f name entries out r).1 ≡ next_readonly g name entries r
  next_twin f g h name entries out (err e) = refl
  next_twin f g h name entries out (ok entry) = h (btree.insert name entry entries) out

  mutual
    unfolding build_node dir_entry_readonly build_children readonly_children

    twin_node : (node : Node) (out : Out) → (build_node node out).1 ≡ dir_entry_readonly node
    twin_node (ref_node entry) out = refl
    twin_node (dir children) out =
        stage_dir-readonly (build_children children [] out).0 (build_children children [] out).1
        ∙ ap readonly_dir (twin_children children [] out)

    twin_children :
        (children : Children) (entries : Entries) (out : Out)
        → (build_children children entries out).1 ≡ readonly_children children entries
    twin_children empty entries out = refl
    twin_children (child name node children) entries out =
        next_twin (build_children children) (readonly_children children) (twin_children children)
          name entries (build_node node out).0 (build_node node out).1
        ∙ ap (next_readonly (readonly_children children) name entries) (twin_node node out)

  -- What `build` makes of a node is what `get` reports of it ahead of the build, in every case: the
  -- same entry with the same id, or the same refusal.
  pub build_node-dir_entry_readonly :
      (node : Node) (out : Out) → (build_node node out).1 ≡ dir_entry_readonly node
  build_node-dir_entry_readonly node out = twin_node node out
