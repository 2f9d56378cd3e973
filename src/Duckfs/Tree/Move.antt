-- ===== src/Duckfs/Tree/Move.antt =====
-- `TreeEdit::mv` of crates/duckfs/core/src/tree.rs. The two checks materialize the directories on their
-- way, also when they refuse.
use ducktape_sdk.Prelude.{
  ℕ, Bool, true, false, ◌&&◌, none, some, List, [], ◌∷◌, length, take, leb, if◌then◌else◌,
}
use ducktape_sdk.Bytes.Order.{bytes_eq}
use ducktape_sdk.Parser.{Result, ok, err}
use ducktape_sdk.Duckfs.Errors.{
  FilesError, mv_root, mv_onto_root, mv_into_itself, mv_missing, mv_exists,
}
use ducktape_sdk.Duckfs.Results.{ok_or}
use ducktape_sdk.Duckfs.Paths.{Segments}
use ducktape_sdk.Duckfs.Tree.{
  Fetch, Node, Children, get_child, put_child, remove_child, split_last, navigate,
}

-- `==` on slices of segments.
unfoldable pub segments_eq : Segments → Segments → Bool
segments_eq [] [] = true
segments_eq (s ∷ ss) (t ∷ ts) = bytes_eq s t && segments_eq ss ts
segments_eq ss ts = false

-- `to.len() >= from.len() && to[..from.len()] == *from`
unfoldable pub is_under : Segments → Segments → Bool
is_under from to = leb (length from) (length to) && segments_eq (take (length from) to) from

unfoldable pub check_source : List ℕ → Children → Children × Result FilesError (Unit {0})
check_source name children = elim (get_child name children) [
  | none ↦ (children, err mv_missing)
  | some node ↦ (children, ok tt)
]

unfoldable pub check_target : List ℕ → Children → Children × Result FilesError (Unit {0})
check_target name children = elim (get_child name children) [
  | none ↦ (children, ok tt)
  | some node ↦ (children, err mv_exists)
]

-- `remove(name).expect(..)`: the first check has found the child.
unfoldable pub take_child : List ℕ → Children → Children × Result FilesError Node
take_child name children = (remove_child name children, ok_or (get_child name children) mv_missing)

abbrev pub insert_node : List ℕ → Node → Children → Children × Result FilesError (Unit {0})
insert_node name node children = (put_child name node children, ok tt)

module _ (fetch : Fetch) where
  -- The steps of `mv` once both paths are split, each on the root that the one before left.
  unfoldable pub place :
      Segments → List ℕ → Node × Result FilesError Node → Node × Result FilesError (Unit {0})
  place dirs name (root, err e) = (root, err e)
  place dirs name (root, ok node) = navigate fetch false (insert_node name node) root dirs

  unfoldable pub lift :
      Segments
      → List ℕ
      → Segments
      → List ℕ
      → Node × Result FilesError (Unit {0})
      → Node × Result FilesError (Unit {0})
  lift from_dirs from_name to_dirs to_name (root, err e) = (root, err e)
  lift from_dirs from_name to_dirs to_name (root, ok u) =
      place to_dirs to_name (navigate fetch false (take_child from_name) root from_dirs)

  unfoldable pub check_free :
      Segments → List ℕ → Node × Result FilesError (Unit {0}) → Node × Result FilesError (Unit {0})
  check_free dirs name (root, err e) = (root, err e)
  check_free dirs name (root, ok u) = navigate fetch false (check_target name) root dirs

  unfoldable pub mv : Node → Segments → Segments → Node × Result FilesError (Unit {0})
  mv root from to = elim (split_last from) [
    | none ↦ (root, err mv_root)
    | some (from_dirs, from_name) ↦ elim (split_last to) [
      | none ↦ (root, err mv_onto_root)
      | some (to_dirs, to_name) ↦
          if is_under from to
          then (root, err mv_into_itself)
          else lift from_dirs from_name to_dirs to_name (
              check_free to_dirs to_name
                (navigate fetch false (check_source from_name) root from_dirs))
    ]
  ]
