-- ===== src/Duckfs/Fs/Keeps/Roots.antt =====
-- The ids that the tree edits of crates/duckfs/core hand out: the root of a build is a hash, or the id
-- that the edit was opened on.
use ducktape_sdk.Prelude.{
  ℕ, ◌≡◌, refl, subst, Bool, true, false, Option, none, some, List, [], ◌∷◌, length, ltb, inl, inr,
  Bool-cases,
}
use ducktape_sdk.Parser.{Result, ok, err}
use ducktape_sdk.Parser.Ints.{IsArray}
use ducktape_sdk.Duckfs.Limits.{max_dir_entries}
use ducktape_sdk.Duckfs.Errors.{
  FilesError, directory_over_cap, directory_missing, put_root, rm_root,
}
use ducktape_sdk.Duckfs.Results.{ok-eq, err-ok, edited}
use ducktape_sdk.Duckfs.Kind.{Kind}
use ducktape_sdk.Duckfs.Objects.{ObjectId, TreeEntry, Entries}
use ducktape_sdk.Duckfs.Objects.Snapshot.{IsOptId}
use ducktape_sdk.Duckfs.Paths.{Segments}
use ducktape_sdk.Duckfs.Store.{object_id}
use ducktape_sdk.Duckfs.Tree.{
  Node, ref_node, dir, Children, empty, child, Fetch, load, materialize, navigate, get_child,
  put_child, put, rm, split_last, insert_entry, remove_entry,
}
use ducktape_sdk.Duckfs.Tree.Build.{Out, entry_of, stage_dir, build_node, build_children, build}
use ducktape_sdk.Duckfs.Fs.Keeps.{IsDigest}

-- A node whose id, where it has one, is an array of 32 bytes.
abbrev pub IsIdNode : Node → Type 0
IsIdNode (ref_node entry) = IsArray 32 entry.id
IsIdNode (dir children) = Unit

pub load-IsIdNode : (root : Option ObjectId) → IsOptId root → IsIdNode (load root)
unfolding load
load-IsIdNode none h = tt
load-IsIdNode (some id) h = h

module _ {ℓ} {A : Type ℓ} (fetch : Fetch) (create : Bool)
    (f : Children → Children × Result FilesError A) where
  arrive : Node → Result FilesError Children → Node × Result FilesError A
  arrive node r = elim r [
    | err e ↦ (node, err e)
    | ok children ↦ let (children', r) = f children in (dir children', r)
  ]

  arrive-IsIdNode :
      (node : Node) (r : Result FilesError Children) → IsIdNode node → IsIdNode (arrive node r).0
  unfolding arrive
  arrive-IsIdNode node (err e) h = h
  arrive-IsIdNode node (ok children) h = tt

  enter :
      (Node → Node × Result FilesError A)
      → List ℕ
      → Children
      → Option Node
      → Bool
      → Node × Result FilesError A
  enter go segment children o c = elim o [
    | some next ↦ let (next', r) = go next in (dir (put_child segment next' children), r)
    | none ↦ elim c [
      | true ↦ let (next', r) = go (dir empty) in (dir (put_child segment next' children), r)
      | false ↦ (dir children, err directory_missing)
    ]
  ]

  enter-IsIdNode :
      (go : Node → Node × Result FilesError A) (segment : List ℕ) (children : Children)
      (o : Option Node) (c : Bool)
      → IsIdNode (enter go segment children o c).0
  unfolding enter
  enter-IsIdNode go segment children (some next) c = tt
  enter-IsIdNode go segment children none true = tt
  enter-IsIdNode go segment children none false = tt

  descend :
      (Node → Node × Result FilesError A)
      → List ℕ
      → Node
      → Result FilesError Children
      → Node × Result FilesError A
  unfolding enter
  descend go segment node r = elim r [
    | err e ↦ (node, err e)
    | ok children ↦ enter go segment children (get_child segment children) create
  ]

  descend-IsIdNode :
      (go : Node → Node × Result FilesError A) (segment : List ℕ) (node : Node)
      (r : Result FilesError Children)
      → IsIdNode node
      → IsIdNode (descend go segment node r).0
  unfolding descend
  descend-IsIdNode go segment node (err e) h = h
  descend-IsIdNode go segment node (ok children) h =
      enter-IsIdNode go segment children (get_child segment children) create

  pub navigate-IsIdNode :
      (node : Node) (segments : Segments)
      → IsIdNode node
      → IsIdNode (navigate fetch create f node segments).0
  unfolding navigate arrive descend enter
  navigate-IsIdNode node [] h = arrive-IsIdNode node (materialize fetch node) h
  navigate-IsIdNode node (segment ∷ dirs) h =
      descend-IsIdNode (λ next. navigate fetch create f next dirs) segment node
        (materialize fetch node) h

module _ (fetch : Fetch) where
  pub put-IsIdNode :
      (root : Node) (path : Segments) (entry : TreeEntry)
      → IsIdNode root
      → IsIdNode (put fetch root path entry).0
  unfolding put
  put-IsIdNode root path entry h = go (split_last path)
    where
      go :
          (o : Option (Segments × List ℕ))
          → IsIdNode
              (elim o as (λ _. Node × Result FilesError (Unit {0})) [
                | none ↦ (root, err put_root)
                | some (dirs, name) ↦ navigate fetch true (insert_entry fetch name entry) root dirs
              ]).0
      go none = h
      go (some (dirs, name)) =
          navigate-IsIdNode fetch true (insert_entry fetch name entry) root dirs h

  pub rm-IsIdNode :
      (root : Node) (path : Segments) → IsIdNode root → IsIdNode (rm fetch root path).0
  unfolding rm
  rm-IsIdNode root path h = go (split_last path)
    where
      go :
          (o : Option (Segments × List ℕ))
          → IsIdNode
              (elim o as (λ _. Node × Result FilesError (Unit {0})) [
                | none ↦ (root, err rm_root)
                | some (dirs, name) ↦ navigate fetch false (remove_entry fetch name) root dirs
              ]).0
      go none = h
      go (some (dirs, name)) = navigate-IsIdNode fetch false (remove_entry fetch name) root dirs h

-- The state of a step that succeeded is what the step left.
pub edited-ok {ℓ κ τ} :
    {S : Type ℓ} {E : Type κ} {A : Type τ} (x : S × Result E A) (s : S) → edited x ≡ ok s → x.0 ≡ s
edited-ok (s', ok a) s h = ok-eq _ _ h
edited-ok (s', err e) s h = absurd (err-ok _ _ h)

module _ (sha256 : List ℕ → List ℕ) (digest_ok : IsDigest sha256) where
  hashed : (entries : Entries) → IsArray 32 (entry_of sha256 entries).id
  unfolding object_id
  hashed entries = digest_ok _

  stage_dir-id :
      (out : List (Kind × List ℕ)) (r : Result FilesError Entries) (entry : TreeEntry)
      → (stage_dir sha256 out r).1 ≡ ok entry
      → IsArray 32 entry.id
  unfolding stage_dir
  stage_dir-id out (err e) entry h = absurd (err-ok _ _ h)
  stage_dir-id out (ok entries) entry h = elim (Bool-cases (ltb max_dir_entries (length entries))) [
    | inl over ↦ absurd (err-ok directory_over_cap entry (rw over at h))
    | inr within ↦
        let e : ok (entry_of sha256 entries) ≡ ok entry = rw within at h in
        subst (λ z. IsArray 32 z.id) (ok-eq _ _ e) (hashed entries)
  ]

  pub build-IsOptId :
      (node : Node) (out : List (Kind × List ℕ)) (root : Option ObjectId)
      → IsIdNode node
      → (build sha256 node out).1 ≡ ok root
      → IsOptId root
  unfolding build build_node
  build-IsOptId (ref_node entry) out root h e = subst IsOptId (ok-eq _ _ e) h
  build-IsOptId (dir empty) out root h e = subst IsOptId (ok-eq _ _ e) tt
  build-IsOptId (dir (child name node children)) out root h e =
      let (out', staged) = build_children sha256 (child name node children) [] out in
      go (stage_dir sha256 out' staged).0 (stage_dir sha256 out' staged).1
        (stage_dir-id out' staged) e
    where
      go :
          (out' : Out) (r : Result FilesError TreeEntry)
          → ((entry : TreeEntry) → r ≡ ok entry → IsArray 32 entry.id)
          → (elim r as (λ _. Out × Result FilesError (Option ObjectId)) [
            | err x ↦ (out', err x)
            | ok entry ↦ (out', ok (some entry.id))
          ]).1
            ≡ ok root
          → IsOptId root
      go out' (err x) ids p = absurd (err-ok _ _ p)
      go out' (ok entry) ids p = subst IsOptId (ok-eq _ _ p) (ids entry refl)
