-- ===== src/Duckfs/Fs/Commit/Plan.antt =====
-- The pass of `commit_apply` over the changes, in crates/duckfs/core/src/fs.rs: every change is checked,
-- its objects are staged, and its edit is planned. The engine's locals are a record that is passed along;
-- strict base64 decoding, of the `base64` crate, is a parameter.
use ducktape_sdk.Prelude.{
  ℕ, ◌+◌, ◌%◌, ◌^◌, Bool, true, false, ◌||◌, Option, List, [], ◌∷◌, ◌++◌, length, leb, ltb,
  if◌then◌else◌,
}
use ducktape_sdk.Bytes.Order.{bytes_order}
use ducktape_sdk.BTree.{BTreeMap, insert, contains_key}
use ducktape_sdk.Parser.{Result, ok, err, Read, pure, refuse_if, ◌>>=◌, ◌>>◌}
use ducktape_sdk.Duckfs.Limits.{max_inline_commit_bytes, max_symlink_target_bytes}
use ducktape_sdk.Duckfs.Errors.{
  FilesError, duplicate_path, bad_base64, inline_overflow, inline_exceeded, symlink_over_cap,
}
use ducktape_sdk.Duckfs.Results.{ok_or}
use ducktape_sdk.Duckfs.Kind.{Kind}
use ducktape_sdk.Duckfs.EntryKind.{EntryKind}
use ducktape_sdk.Duckfs.Actor.{Authority}
use ducktape_sdk.Duckfs.Objects.{ObjectId, FileObj, TreeEntry, encode_file}
use ducktape_sdk.Duckfs.Paths.{Segments}
use ducktape_sdk.Duckfs.Store.{object_id}
use ducktape_sdk.Duckfs.BlockObjects.{Index}
use ducktape_sdk.Duckfs.Tree.Resolve.{Store}
use ducktape_sdk.Duckfs.Fs.{StagedObjects}
use ducktape_sdk.Duckfs.Fs.Tables.{join_segs}
use ducktape_sdk.Duckfs.Fs.Commit.Change.{
  Content, inline, chunks, Change, put, mkdir, rm, mv, symlink, EditOp, put_op, mkdir_op, rm_op,
  mv_op, canon_authorized, validate_meta, validate_chunks, chunks_of,
}

pub record Plan : Type 0 where
  pub objects : StagedObjects
  pub staged_ids : Index
  pub ops : List EditOp
  pub touched : List (List ℕ × Segments)
  pub seen : BTreeMap (List ℕ) (Unit {0})
  pub chunk_refs : List ObjectId
  pub chunks_to_check : List (ℕ × List ObjectId)
  pub inline_bytes : ℕ

abbrev pub empty_plan : Plan
empty_plan = record {
  objects = [];
  staged_ids = [];
  ops = [];
  touched = [];
  seen = [];
  chunk_refs = [];
  chunks_to_check = [];
  inline_bytes = 0;
}

abbrev pub Planning {ℓ} : Type ℓ → Type ℓ
Planning A = Read Plan FilesError A

-- `?` on a check that does not touch the locals.
abbrev pub lift {ℓ} : {A : Type ℓ} → Result FilesError A → Planning A
lift (ok a) plan = ok (a, plan)
lift (err e) plan = err e

abbrev pub modify : (Plan → Plan) → Planning (Unit {0})
modify f plan = ok (tt, f plan)

unfoldable pub dedup : List ℕ → Planning (Unit {0})
dedup joined plan =
    if contains_key joined plan.seen
    then err duplicate_path
    else ok (tt, record plan { seen = insert joined tt plan.seen })

abbrev pub add_op : EditOp → Plan → Plan
add_op op plan = record plan { ops = plan.ops ++ (op ∷ []) }

abbrev pub touch : Segments → Plan → Plan
touch segments plan = record plan {
  touched = plan.touched ++ ((join_segs segments, segments) ∷ []);
}

abbrev pub refer : List ObjectId → Plan → Plan
refer ids plan = record plan { chunk_refs = plan.chunk_refs ++ ids }

abbrev pub check_later : ℕ → List ObjectId → Plan → Plan
check_later size ids plan = record plan {
  chunks_to_check = plan.chunks_to_check ++ ((size, ids) ∷ []);
}

abbrev pub entry_of : EntryKind → ObjectId → Bool → ℕ → TreeEntry
entry_of kind id exec size = record { kind = kind; id = id; exec = exec; size = size }

module _ (sha256 nfc : List ℕ → List ℕ) (base64 : List ℕ → Option (List ℕ)) where
  module _ (store : Store) (pending_ids : Index) where
    abbrev pub add_object : Kind → List ℕ → Plan → Plan
    add_object kind body plan = record plan {
      objects = plan.objects ++ ((kind, body) ∷ []);
      staged_ids = insert (object_id sha256 kind body) (kind, length body % 2 ^ 64) plan.staged_ids;
    }

    -- The probe of the committed store, for an id that is new to the block.
    abbrev pub stage_if_new : Kind → List ℕ → Plan → Result FilesError Bool → Result FilesError Plan
    stage_if_new kind body plan (err e) = err e
    stage_if_new kind body plan (ok true) = ok plan
    stage_if_new kind body plan (ok false) = ok (add_object kind body plan)

    unfoldable pub stage_object : Kind → List ℕ → Planning ObjectId
    stage_object kind body plan =
        let id = object_id sha256 kind body in
        let already = contains_key id plan.staged_ids || contains_key id pending_ids in
        elim (if already then ok plan else stage_if_new kind body plan (store.has_committed id)) [
          | err e ↦ err e
          | ok plan' ↦ ok (id, plan')
        ]

    unfoldable pub stage_chunks : List (List ℕ) → Planning (List ObjectId)
    stage_chunks [] = pure []
    stage_chunks (c ∷ cs) = do
      id ← stage_object Kind.chunk c
      ids ← stage_chunks cs
      pure (id ∷ ids)

    -- No bytes have no chunks.
    unfoldable pub chunk_bytes : List ℕ → Planning (List ObjectId)
    chunk_bytes bytes = stage_chunks (chunks_of bytes)

    unfoldable pub stage_fileobj :
        ℕ → List ObjectId → BTreeMap (List ℕ) (List ℕ) → Planning ObjectId
    stage_fileobj size ids meta =
        let file : FileObj = record { size = size; chunks = ids; meta = meta } in
        stage_object Kind.file (encode_file file)

    unfoldable pub charge_inline : ℕ → Planning (Unit {0})
    charge_inline len plan =
        if leb (2 ^ 64) (plan.inline_bytes + len)
        then err inline_overflow
        else if ltb max_inline_commit_bytes (plan.inline_bytes + len)
        then err inline_exceeded
        else ok (tt, record plan { inline_bytes = plan.inline_bytes + len })

    -- The file object's id, its chunks and its size.
    unfoldable pub stage_content :
        BTreeMap (List ℕ) (List ℕ) → Content → Planning (ObjectId × List ObjectId × ℕ)
    stage_content meta (inline b64) = do
      bytes ← lift (ok_or (base64 b64) bad_base64)
      charge_inline (length bytes)
      ids ← chunk_bytes bytes
      id ← stage_fileobj (length bytes) ids meta
      pure (id, ids, length bytes)
    stage_content meta (chunks size digests) = do
      ids ← lift (validate_chunks size digests)
      modify (check_later size ids)
      id ← stage_fileobj size ids meta
      pure (id, ids, size)

    unfoldable pub plan_change : Authority → Change → Planning (Unit {0})
    plan_change authority (put path exec meta content) = do
      segments ← lift (canon_authorized nfc authority path)
      dedup (join_segs segments)
      lift (validate_meta meta)
      (id, ids, size) ← stage_content meta content
      modify (refer ids)
      modify (touch segments)
      modify (add_op (put_op segments (entry_of EntryKind.file id exec size)))
    plan_change authority (mkdir path) = do
      segments ← lift (canon_authorized nfc authority path)
      dedup (join_segs segments)
      modify (touch segments)
      modify (add_op (mkdir_op segments))
    plan_change authority (rm path) = do
      segments ← lift (canon_authorized nfc authority path)
      dedup (join_segs segments)
      modify (touch segments)
      modify (add_op (rm_op segments))
    plan_change authority (mv from to) = do
      from_segments ← lift (canon_authorized nfc authority from)
      to_segments ← lift (canon_authorized nfc authority to)
      dedup (join_segs from_segments)
      dedup (join_segs to_segments)
      modify (touch from_segments)
      modify (touch to_segments)
      modify (add_op (mv_op from_segments to_segments))
    plan_change authority (symlink path target) = do
      segments ← lift (canon_authorized nfc authority path)
      dedup (join_segs segments)
      refuse_if (ltb max_symlink_target_bytes (length target)) symlink_over_cap
      chunk_id ← stage_object Kind.chunk target
      id ← stage_fileobj (length target) (chunk_id ∷ []) []
      modify (refer (chunk_id ∷ []))
      modify (touch segments)
      modify (add_op (put_op segments (entry_of EntryKind.symlink id false (length target))))

    unfoldable pub plan_changes : Authority → List Change → Planning (Unit {0})
    plan_changes authority [] = pure tt
    plan_changes authority (change ∷ changes) =
        plan_change authority change >> plan_changes authority changes
