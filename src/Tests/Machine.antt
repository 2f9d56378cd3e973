-- ===== src/Tests/Machine.antt =====
-- The filesystem's state machine on concrete values. The stand-ins: a hash with one value, paths that are
-- in NFC as they are, base64 that is plain text, and a store that holds nothing.
use ducktape_sdk.Prelude.{
  ℕ, ◌<◌, ◌≡◌, ◌⊎◌, refl, none, some, Option, List, [], ◌∷◌, false, arith, All,
}
use ducktape_sdk.Bytes.Order.{bytes_order}
use ducktape_sdk.BTree.{get, contains_key}
use ducktape_sdk.Parser.{ok}
use ducktape_sdk.Duckfs.Errors.{chunk_empty}
use ducktape_sdk.Duckfs.Results.{◌>>=◌}
use ducktape_sdk.Duckfs.Actor.{system_authority, encoded_len, actor, validate, validate_actor}
use ducktape_sdk.Duckfs.Refs.{Refs, encode_refs, decode_refs, encoded_refs_len, staged_entry_len}
use ducktape_sdk.Duckfs.Tree.Resolve.{Store}
use ducktape_sdk.Duckfs.Fs.{
  Pending, Fs, new, require_pending, with_pending, pending_refs, sweep_expired, retain,
  snapshot_refs, push_object, refuse_refs_growth, refs_commit_headroom,
}
use ducktape_sdk.Parser.{Result, err}
use ducktape_sdk.BTree.{insert}
use ducktape_sdk.Bytes.{ascii}
use ducktape_sdk.Bytes.Order.{bytes_eq}
use ducktape_sdk.Duckfs.Errors.{FilesError}
use ducktape_sdk.Duckfs.Objects.{ObjectId}
use ducktape_sdk.Duckfs.Paths.{
  canonical, starts_with_slash, contains_nul, split, check_segments, checked_segments,
  is_dot_segment, check_authority,
}
use ducktape_sdk.Duckfs.Tree
use ducktape_sdk.Duckfs.Tree.{
  load, split_last, navigate, materialize, make_dir, get_child, put_child,
}
use ducktape_sdk.Duckfs.Tree.Build.{build, build_node, build_children, stage_dir}
use ducktape_sdk.Duckfs.Tree.Resolve.{entry_at}
use ducktape_sdk.Duckfs.Tree.Build as edit
use ducktape_sdk.Duckfs.Tree.Walks.{get-entry_at}
use ducktape_sdk.Duckfs.Retention.Records.{decode_record-file}
use ducktape_sdk.Duckfs.Retention.{Record, membership, file, decode_record}
use ducktape_sdk.Duckfs.Objects.{encode_file}
use ducktape_sdk.Tests.{some_id, all_bytes→IsBytes}
use ducktape_sdk.Duckfs.Retention.Decimals.{positive_number_iff}
use ducktape_sdk.Duckfs.Retention.{positive_number, decimal}
use ducktape_sdk.Prelude.{◌^◌}
use ducktape_sdk.Duckfs.Fs.Commit.Chunking.{join, chunks_of-join}
use ducktape_sdk.Duckfs.Fs.Commit.Change.{chunks_of}
use ducktape_sdk.Duckfs.Chunks.{verify_file_shape}
use ducktape_sdk.Duckfs.Chunks.Sizes.{AllVerify}
use ducktape_sdk.Prelude.{length, map}
use ducktape_sdk.Duckfs.Fs.Tables.{join_segs, join_slash}
use ducktape_sdk.Duckfs.Fs.Commit.Change.{Change, mkdir, canon_authorized}
use ducktape_sdk.Duckfs.Fs.Commit.Plan.{dedup, plan_change, plan_changes}
use ducktape_sdk.Duckfs.Fs.Commit.Engine.{
  CommitBuilt, check_bounds, resolve_base, effective_root, check_chunks, check_unchanged, entry_eq,
  build_root, replay, apply_op, stage_root, finish, run_commit,
}
use ducktape_sdk.Duckfs.Fs.Commit.Change.{watch_matches}
use ducktape_sdk.Duckfs.Fs.Commit.Matching.{watch_matches_iff}
use ducktape_sdk.Duckfs.Paths.{Segments}
use ducktape_sdk.Prelude.{◌↔◌, ◌++◌, true}
use ducktape_sdk.Duckfs.Fs.Commit.Safety.{IsWritten, IsDistinct, run_commit-writes}
use ducktape_sdk.Duckfs.Fs.Staging.{
  putblob_apply, put_chunk, stage_chunk, check_quotas, owner_usage,
}
use ducktape_sdk.Duckfs.Fs.Verbs.{putblob, transact, apply_pending, settle}
use ducktape_sdk.Duckfs.Fs.Ops.{Op, putblob_op, run_op}
use ducktape_sdk.Duckfs.Fs.Ops.Refused.{run_op-refused}
use ducktape_sdk.Duckfs.Fs.Ops.Accepted.{run_op-sweeps}
use ducktape_sdk.Duckfs.Fs.Ops.Uploads.{Uploaded, run_op-Uploaded}
use ducktape_sdk.Duckfs.Fs.Ops.Revision.{Advances, run_op-revision}
use ducktape_sdk.Duckfs.Fs.Sync.{root_bytes, install_refs}
use ducktape_sdk.Duckfs.Fs.Keeps.{IsDigest}
use ducktape_sdk.Duckfs.Fs.Keeps.Transact.{IsSound}
use ducktape_sdk.Duckfs.Fs.Keeps.Run.{Reachable, here, next, op_step}
use ducktape_sdk.Duckfs.Fs.Keeps.Install.{reachable-decodes, reachable-installs}
use ducktape_sdk.Tests.{some_id, all_bytes→IsBytes}

abbrev hash : List ℕ → List ℕ
hash bytes = some_id

abbrev same : List ℕ → List ℕ
same text = text

abbrev plain : List ℕ → Option (List ℕ)
plain text = some text

abbrev nothing : Store
nothing = record { get = λ id. ok none; has_committed = λ id. ok false }

hash-IsDigest : IsDigest hash
hash-IsDigest bytes = (refl, all_bytes→IsBytes some_id refl)

-- `Refs::default()`
abbrev no_refs : Refs
no_refs = record {
  source_revision = 0;
  head = none;
  window = [];
  pins = [];
  staging = [];
  watches = [];
  retention_root = none;
}

abbrev start : Fs
unfolding new
start = new no_refs

start-IsSound : IsSound start
unfolding start new encoded_refs_len refs_commit_headroom
start-IsSound = record {
  committed = record {
    valid = record {
      revision_fits = omega arith;
      head_id = tt;
      window_ids = tt;
      window_cap = omega arith;
      pins_ascend = tt;
      pins_valid = tt;
      pins_cap = omega arith;
      staging_ascends = tt;
      staging_valid = tt;
      staging_cap = omega arith;
      watches_ascend = tt;
      watches_valid = tt;
      watches_cap = omega arith;
      retention_id = tt;
    };
    room = omega arith;
  };
  overlay = tt;
  window_small = omega arith;
  staging_small = omega arith;
}

abbrev upload : Op
upload = putblob_op (1 ∷ 2 ∷ 3 ∷ [])

-- A chunk staged by the system at height 5.
abbrev staged_fs : Fs
unfolding run_op start
staged_fs = (run_op hash same plain nothing system_authority 5 upload start).0

staged-Reachable : Reachable hash same plain start staged_fs
unfolding staged_fs start
staged-Reachable = next here (op_step nothing system_authority 5 upload start tt tt)

abbrev staged_pending : Pending
unfolding require_pending staged_fs
staged_pending = require_pending 5 staged_fs

staged_open : staged_fs.pending ≡ some staged_pending
unfolding staged_pending staged_fs start run_op putblob transact validate validate_actor actor
    require_pending
staged_open = refl

reachable-decodes_example :
    (decode_refs (encode_refs staged_fs.refs) ≡ ok staged_fs.refs)
    × (decode_refs (encode_refs staged_pending.refs) ≡ ok staged_pending.refs)
reachable-decodes_example =
    reachable-decodes hash same plain hash-IsDigest start staged_fs staged_pending start-IsSound
      staged-Reachable staged_open

reachable-installs_example :
    install_refs hash (snapshot_refs staged_fs) (root_bytes hash staged_fs.refs) start
    ≡ (record start { refs = staged_fs.refs; pending = none }, ok tt)
reachable-installs_example =
    reachable-installs hash same plain hash-IsDigest start staged_fs start start-IsSound
      staged-Reachable

run_op-sweeps_example : All (λ e. 5 < e.1.expires_at) (pending_refs staged_fs).staging
unfolding staged_fs start run_op putblob transact validate validate_actor actor require_pending
    apply_pending settle putblob_apply put_chunk stage_chunk check_quotas owner_usage sweep_expired
    retain refuse_refs_growth encoded_refs_len refs_commit_headroom staged_entry_len encoded_len
    contains_key get push_object ◌>>=◌
run_op-sweeps_example =
    run_op-sweeps hash same plain nothing system_authority 5 upload start staged_fs (omega arith)
      refl

abbrev refused_fs : Fs
unfolding run_op start
refused_fs = (run_op hash same plain nothing system_authority 5 (putblob_op []) start).0

run_op-refused_example :
    (refused_fs ≡ start) ⊎ (refused_fs ≡ with_pending start (require_pending 5 start))
unfolding refused_fs start run_op putblob transact validate validate_actor actor require_pending
    apply_pending settle putblob_apply put_chunk
run_op-refused_example =
    run_op-refused hash same plain nothing system_authority 5 (putblob_op []) start refused_fs
      chunk_empty refl

run_op-revision_example :
    (staged_fs.refs ≡ start.refs) × Advances (pending_refs start) (pending_refs staged_fs)
unfolding staged_fs
run_op-revision_example = run_op-revision hash same plain nothing system_authority 5 upload start

abbrev nothing_built : CommitBuilt
nothing_built = record { refs = no_refs; objects = []; notifications = [] }

abbrev value_of : Result FilesError CommitBuilt → CommitBuilt
value_of (ok b) = b
value_of (err e) = nothing_built

-- A commit that makes the directory `/a`.
abbrev changes : List Change
changes = mkdir (ascii "/a") ∷ []

abbrev committed : Result FilesError CommitBuilt
unfolding run_commit
committed =
    run_commit hash same plain nothing [] system_authority 5 7 (ascii "first") 1024 none changes
      no_refs

committed-ok : committed ≡ ok (value_of committed)
unfolding committed run_commit check_bounds resolve_base effective_root plan_changes plan_change
    canon_authorized canonical starts_with_slash contains_nul split check_segments checked_segments
    is_dot_segment bytes_eq check_authority dedup contains_key get insert join_segs join_slash
    check_chunks check_unchanged entry_at entry_eq build_root replay apply_op Tree.mkdir split_last
    navigate materialize make_dir get_child put_child build build_node build_children stage_dir
    stage_root finish ◌>>=◌ load
committed-ok = refl

run_commit-writes_example :
    (base_root : Option ObjectId) × (head_root : Option ObjectId) × (resolve_base hash same plain
        nothing no_refs none
      ≡ ok base_root)
    × (effective_root nothing none ≡ ok head_root)
    × All (IsWritten same system_authority nothing base_root head_root) (ascii "/a" ∷ [])
    × IsDistinct (ascii "/a" ∷ [])
unfolding committed
run_commit-writes_example =
    run_commit-writes hash same plain nothing [] system_authority 5 7 (ascii "first") 1024 none
      changes no_refs (value_of committed) committed-ok

watch_matches_iff_example :
    (watch_matches (ascii "/a") (ascii "/a/b") ≡ true)
    ↔ ((rest : Segments) × (ascii "a" ∷ ascii "b" ∷ [] ≡ (ascii "a" ∷ []) ++ rest))
unfolding canonical starts_with_slash contains_nul split check_segments checked_segments
    is_dot_segment bytes_eq
watch_matches_iff_example =
    watch_matches_iff same (ascii "/a") (ascii "/a/b") (ascii "a" ∷ []) (ascii "a" ∷ ascii "b" ∷ [])
      refl refl

get-entry_at_example :
    edit.get hash nothing.get (load (some (ascii "root"))) (ascii "a" ∷ [])
    ≡ entry_at nothing (some (ascii "root")) (ascii "a" ∷ [])
get-entry_at_example = get-entry_at hash nothing (some (ascii "root")) (ascii "a" ∷ [])

chunks_of-join_example :
    (join (chunks_of (ascii "hello")) ≡ ascii "hello")
    × (verify_file_shape 5 (length (chunks_of (ascii "hello"))) ≡ ok tt)
    × AllVerify 5 (length (chunks_of (ascii "hello"))) 0 (map length (chunks_of (ascii "hello")))
chunks_of-join_example = chunks_of-join (ascii "hello") (omega arith)

positive_number_iff_example :
    (positive_number (ascii "42") ≡ ok 42) ↔ ((0 < 42) × (42 < 2 ^ 64) × (ascii "42" ≡ decimal 42))
positive_number_iff_example = positive_number_iff (ascii "42") 42

-- Two protected references hold one snapshot.
abbrev counted : Record
counted = membership some_id 2

decode_record-file_example : decode_record (encode_file (file counted)) ≡ ok counted
decode_record-file_example =
    decode_record-file counted ((refl, all_bytes→IsBytes some_id refl), omega arith, omega arith)

run_op-Uploaded_example :
    (pending : Pending) × (staged_fs.pending ≡ some pending)
    × Uploaded hash system_authority 5 (1 ∷ 2 ∷ 3 ∷ []) (require_pending 5 start) pending
unfolding staged_fs start run_op putblob transact validate validate_actor actor require_pending
    apply_pending settle putblob_apply put_chunk stage_chunk check_quotas owner_usage sweep_expired
    retain refuse_refs_growth encoded_refs_len refs_commit_headroom staged_entry_len encoded_len
    contains_key get push_object ◌>>=◌
run_op-Uploaded_example =
    run_op-Uploaded hash same plain nothing system_authority 5 (1 ∷ 2 ∷ 3 ∷ []) start staged_fs refl
