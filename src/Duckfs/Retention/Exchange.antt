-- ===== src/Duckfs/Retention/Exchange.antt =====
-- `compare_exchange` of crates/duckfs/core/src/retention.rs, with `put` and `remove` on the catalog.
use ducktape_sdk.Prelude.{
  ℕ, zero, suc, ◌+◌, ◌-◌, ◌^◌, Bool, true, false, not, ◌&&◌, Option, none, some, List, [], ◌∷◌,
  ◌++◌, length, take, leb, ◌==◌, if◌then◌else◌,
}
use ducktape_sdk.Bytes.Order.{bytes_eq}
use ducktape_sdk.Parser.{Result, ok, err}
use ducktape_sdk.Duckfs.Errors.{
  FilesError, ancestor_missing, retention_revision_zero, retention_mismatch,
  retention_not_advancing, membership_underflow, membership_overflow,
}
use ducktape_sdk.Duckfs.Results.{◌>>=◌, ◌>>◌, ok_or, deny_if, edited}
use ducktape_sdk.Duckfs.Kind.{Kind}
use ducktape_sdk.Duckfs.EntryKind
use ducktape_sdk.Duckfs.Objects.{ObjectId, TreeEntry, encode_file}
use ducktape_sdk.Duckfs.Paths.{Segments}
use ducktape_sdk.Duckfs.Store.{object_id}
use ducktape_sdk.Duckfs.Tree.{Node, is_dir, load, put, rm}
use ducktape_sdk.Duckfs.Tree.Build as edit
use ducktape_sdk.Duckfs.Tree.Resolve.{Store}
use ducktape_sdk.Duckfs.Retention.{
  RetentionReference, Record, reference, membership, file, snapshot_id, validate_name, count,
  reference_path, membership_path, get_reference,
}

-- The edit and the objects that it staged so far.
abbrev pub Staging : Type 0
Staging = Node × List (Kind × List ℕ)

pub record Built : Type 0 where
  pub root : Option ObjectId
  pub objects : List (Kind × List ℕ)

-- The derived `==` on optional references.
unfoldable pub reference_eq : Option RetentionReference → Option RetentionReference → Bool
reference_eq none none = true
reference_eq (some r) (some s) = bytes_eq r.snapshot s.snapshot && (r.revision == s.revision)
reference_eq r s = false

abbrev pub id_eq : Option ObjectId → Option ObjectId → Bool
id_eq none none = true
id_eq (some i) (some j) = bytes_eq i j
id_eq i j = false

unfoldable pub check_reference : Option RetentionReference → Result FilesError (Unit {0})
check_reference none = ok tt
check_reference (some r) = do
  snapshot_id r.snapshot
  deny_if (r.revision == 0) retention_revision_zero

unfoldable pub revision_regressed : Option RetentionReference → Option RetentionReference → Bool
revision_regressed (some old) (some new) = leb new.revision old.revision
revision_regressed old new = false

-- `map(..).transpose()`
unfoldable pub id_of : Option RetentionReference → Result FilesError (Option ObjectId)
id_of none = ok none
id_of (some r) = snapshot_id r.snapshot >>= λ id. ok (some id)

module _ (sha256 : List ℕ → List ℕ) (store : Store) where
  unfoldable pub put_record : Segments → Record → Staging → Result FilesError Staging
  put_record path r (node, objects) =
      let body = encode_file (file r) in
      let entry : TreeEntry = record {
        kind = EntryKind.file;
        id = object_id sha256 Kind.file body;
        exec = false;
        size = 0;
      } in
      edited (put store.get node path entry) >>= λ next.
      ok (next, objects ++ ((Kind.file, body) ∷ []))

  -- The loop over the ancestors, from the one of `depth` segments up.
  unfoldable pub prune : ℕ → Segments → Node → Result FilesError Node
  prune zero path node = ok node
  prune (suc depth) path node = do
    found ← edit.get sha256 store.get node (take (suc depth) path)
    entry ← ok_or found ancestor_missing
    elim (is_dir entry.kind && (entry.size == 0)) [
      | false ↦ ok node
      | true ↦ edited (rm store.get node (take (suc depth) path)) >>= prune depth path
    ]

  unfoldable pub remove : Segments → Node → Result FilesError Node
  remove path node = edited (rm store.get node path) >>= prune (length path - 1) path

  unfoldable pub remove_record : Segments → Staging → Result FilesError Staging
  remove_record path (node, objects) = remove path node >>= λ next. ok (next, objects)

  unfoldable pub exchange_reference :
      Segments → Option RetentionReference → Staging → Result FilesError Staging
  exchange_reference path none s = remove_record path s
  exchange_reference path (some r) s = put_record path (reference r) s

  module _ (root : Option ObjectId) where
    unfoldable pub release : Option ObjectId → Staging → Result FilesError Staging
    release none s = ok s
    release (some id) s = do
      held ← count sha256 store root id
      deny_if (held == 0) membership_underflow
      if held - 1 == 0
          then remove_record (membership_path id) s
          else put_record (membership_path id) (membership id (held - 1)) s

    unfoldable pub acquire : Option ObjectId → Staging → Result FilesError Staging
    acquire none s = ok s
    acquire (some id) s = do
      held ← count sha256 store root id
      deny_if (leb (2 ^ 64) (held + 1)) membership_overflow
      put_record (membership_path id) (membership id (held + 1)) s

    unfoldable pub move_membership :
        Option ObjectId → Option ObjectId → Staging → Result FilesError Staging
    move_membership previous next s =
        if id_eq previous next then ok s else release previous s >>= acquire next

    unfoldable pub built : Staging → Result FilesError Built
    built (node, objects) =
        let (out, r) = edit.build sha256 node objects in
        elim r [ err e ↦ err e | ok root' ↦ ok (record { root = root'; objects = out }) ]

    unfoldable pub compare_exchange :
        List ℕ
        → List ℕ
        → Option RetentionReference
        → Option RetentionReference
        → Result FilesError Built
    compare_exchange module_id key expected replacement = do
      validate_name module_id key
      check_reference expected
      check_reference replacement
      current ← get_reference sha256 store root module_id key
      deny_if (not (reference_eq current expected)) retention_mismatch
      elim (reference_eq expected replacement) [
        | true ↦ ok (record { root = root; objects = [] })
        | false ↦ do
          deny_if (revision_regressed expected replacement) retention_not_advancing
          staged ←
              exchange_reference (reference_path sha256 module_id key) replacement (load root, [])
          previous ← id_of expected
          next ← id_of replacement
          moved ← move_membership previous next staged
          built moved
      ]
