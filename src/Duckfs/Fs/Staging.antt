-- ===== src/Duckfs/Fs/Staging.antt =====
-- `putblob_apply` of crates/duckfs/core/src/fs.rs.
use ducktape_sdk.Prelude.{
  ℕ, ◌+◌, ◌-◌, ◌^◌, Bool, true, false, ◌||◌, List, [], ◌∷◌, length, min, leb, ltb, ◌==◌,
  if◌then◌else◌,
}
use ducktape_sdk.Bytes.Order.{bytes_order}
use ducktape_sdk.BTree.{BTreeMap, insert, contains_key}
use ducktape_sdk.Parser.{Result, ok, err}
use ducktape_sdk.Duckfs.Limits.{chunk_size, staging_ttl_blocks}
use ducktape_sdk.Duckfs.Errors.{
  FilesError, chunk_empty, chunk_over_size, staging_full, staging_entries_exceeded,
  staging_quota_exceeded,
}
use ducktape_sdk.Duckfs.Results.{◌>>◌, deny_if}
use ducktape_sdk.Duckfs.Kind
use ducktape_sdk.Duckfs.Actor.{Authority, actor, controls}
use ducktape_sdk.Duckfs.Objects.{ObjectId}
use ducktape_sdk.Duckfs.Refs.{Staged, Refs, staged_entry_len}
use ducktape_sdk.Duckfs.Store.{object_id}
use ducktape_sdk.Duckfs.Fs.{Caps, Pending, Verb, sweep_expired, refuse_refs_growth, push_object}

-- `saturating_add` on `u64`
abbrev pub saturating_add : ℕ → ℕ → ℕ
saturating_add a b = min (a + b) (2 ^ 64 - 1)

abbrev pub add_owned : Bool → Staged → ℕ × ℕ → ℕ × ℕ
add_owned true s (used, n) = (saturating_add used s.len, n + 1)
add_owned false s (used, n) = (used, n)

-- `filter` and `fold` over the staging table: bytes used and entries held.
unfoldable pub owner_usage : Authority → BTreeMap ObjectId Staged → ℕ × ℕ → ℕ × ℕ
owner_usage authority [] acc = acc
owner_usage authority ((digest, s) ∷ staging) acc =
    owner_usage authority staging (add_owned (controls authority s.owner) s acc)

abbrev pub staged_by : Authority → ℕ → ℕ → Staged
staged_by authority height len = record {
  owner = actor authority;
  len = len;
  expires_at = saturating_add height staging_ttl_blocks;
}

abbrev pub with_staged : ObjectId → Staged → Refs → Refs
with_staged digest staged refs = record refs { staging = insert digest staged refs.staging }

-- The tests between the dedup and the insertion, in their order.
unfoldable pub check_quotas : Caps → Authority → ℕ → Refs → Result FilesError (Unit {0})
check_quotas caps authority len refs =
    let (used, owner_entries) = owner_usage authority refs.staging (0, 0) in
    do
      deny_if (leb caps.staging_entry_cap (length refs.staging)) staging_full
      deny_if (leb caps.staging_entry_cap_per_owner owner_entries) staging_entries_exceeded
      deny_if (ltb caps.quota (saturating_add used len)) staging_quota_exceeded
      refuse_refs_growth refs (staged_entry_len (actor authority)) caps.window_cap

module _ (sha256 : List ℕ → List ℕ) where
  -- The chunk added to the overlay once the tests passed.
  unfoldable pub stage_chunk :
      Authority
      → ℕ
      → List ℕ
      → Pending
      → Result FilesError (Unit {0})
      → Pending × Result FilesError (Unit {0})
  stage_chunk authority height bytes pending (err e) = (pending, err e)
  stage_chunk authority height bytes pending (ok u) =
      let digest = object_id sha256 Kind.chunk bytes in
      let staged = staged_by authority height (length bytes) in
      (
        push_object sha256 (Kind.chunk, bytes)
            (record pending { refs = with_staged digest staged pending.refs }),
        ok tt,
      )

  -- The verb on the swept overlay.
  unfoldable pub put_chunk : Caps → Authority → ℕ → List ℕ → Verb (Unit {0})
  put_chunk caps authority height bytes pending =
      let digest = object_id sha256 Kind.chunk bytes in
      if length bytes == 0
      then (pending, err chunk_empty)
      else if ltb chunk_size (length bytes)
      then (pending, err chunk_over_size)
      else if contains_key digest pending.object_ids || contains_key digest pending.refs.staging
      then (pending, ok tt)
      else stage_chunk authority height bytes pending
          (check_quotas caps authority (length bytes) pending.refs)

  unfoldable pub putblob_apply : Caps → Authority → ℕ → List ℕ → Verb (Unit {0})
  putblob_apply caps authority height bytes pending =
      put_chunk caps authority height bytes
        (record pending { refs = sweep_expired height pending.refs })
