-- ===== src/Tests/Edit.antt =====
-- The tree edit on concrete values. The stand-in for SHA-256 is the identity, and the store is empty.
use ducktape_sdk.Prelude.{ℕ, ◌≡◌, none, some, List, [], ◌∷◌, false}
use ducktape_sdk.Bytes.{ascii}
use ducktape_sdk.Bytes.Order.{bytes_lt}
use ducktape_sdk.Parser.{ok}
use ducktape_sdk.Duckfs.EntryKind
use ducktape_sdk.Duckfs.Objects.{TreeEntry}
use ducktape_sdk.Duckfs.Paths.{Segments}
use ducktape_sdk.Duckfs.Tree.{
  Node, ref_node, dir, empty, child, put, split_last, navigate, materialize, get_child, put_child,
  Fetch,
}
use ducktape_sdk.Duckfs.Tree.Build.{
  get, build_node, dir_entry_readonly, build_node-dir_entry_readonly,
}
use ducktape_sdk.Duckfs.Tree.Put.{put-get}
use ducktape_sdk.Tests.{some_id}

abbrev hash : List ℕ → List ℕ
hash bytes = bytes

abbrev nothing : Fetch
nothing id = ok none

abbrev entry : TreeEntry
entry = record { kind = EntryKind.file; id = some_id; exec = false; size = 5 }

-- A directory that holds one file.
abbrev root : Node
root = dir (child (ascii "shared") (dir (child (ascii "b") (ref_node entry) empty)) empty)

abbrev path : Segments
path = ascii "shared" ∷ ascii "new" ∷ ascii "a.txt" ∷ []

put-get_example : get hash nothing (put nothing root path entry).0 path ≡ ok (some entry)
unfolding put split_last navigate materialize get_child put_child bytes_lt
put-get_example = put-get hash nothing root path entry

build_node-dir_entry_readonly_example : (build_node hash root []).1 ≡ dir_entry_readonly hash root
build_node-dir_entry_readonly_example = build_node-dir_entry_readonly hash root []
