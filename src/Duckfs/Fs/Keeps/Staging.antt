-- ===== src/Duckfs/Fs/Keeps/Staging.antt =====
-- `putblob_apply` of crates/duckfs/core/src/fs.rs and the bounds of the refs.
use ducktape_sdk.Prelude.{
  ℕ, ◌+◌, ◌≤◌, ◌<◌, ◌≡◌, refl, Bool, true, false, ◌||◌, List, length, ltb, ◌==◌, arith, inl, inr,
  Bool-cases, ltb_false→le,
}
use ducktape_sdk.Bytes.Order.{bytes_order}
use ducktape_sdk.BTree.{insert, contains_key}
use ducktape_sdk.BTree.Lookup.{insert-IsAscending}
use ducktape_sdk.Parser.{Result, ok, err}
use ducktape_sdk.Duckfs.Limits.{chunk_size, max_staging_entries, max_refs_image_bytes}
use ducktape_sdk.Duckfs.Errors.{FilesError}
use ducktape_sdk.Duckfs.Results.{bind-ok, deny_if-ok}
use ducktape_sdk.Duckfs.Kind
use ducktape_sdk.Duckfs.Actor.{Authority, actor}
use ducktape_sdk.Duckfs.Actor.RoundTrip.{IsActor}
use ducktape_sdk.Duckfs.Refs.{Refs, staged_entry_len}
use ducktape_sdk.Duckfs.Refs.Sections.{IsStaged}
use ducktape_sdk.Duckfs.Store.{object_id}
use ducktape_sdk.Duckfs.Fs.{Caps, Pending, refuse_refs_growth, push_object, sweep_expired}
use ducktape_sdk.Duckfs.Fs.Staging.{staged_by, check_quotas, stage_chunk, put_chunk, putblob_apply}
use ducktape_sdk.Duckfs.Fs.Reserved.{reserved, IsBounded, staging-IsBounded, staging_of}
use ducktape_sdk.Duckfs.Fs.Reserved.Maps.{All-insert, length-insert_new, sum_by-insert_new}
use ducktape_sdk.Duckfs.Fs.Keeps.{IsDigest, sweep-IsBounded, Keeps}

-- An entry that the gate lets through fits.
pub growth-fits :
    (refs : Refs) (len cap : ℕ) (u : Unit {0})
    → refuse_refs_growth refs len cap ≡ ok u
    → reserved cap refs + len ≤ max_refs_image_bytes
unfolding refuse_refs_growth
growth-fits refs len cap u h = ground arith

quotas-fit :
    (caps : Caps) (authority : Authority) (len : ℕ) (refs : Refs) (u : Unit {0})
    → check_quotas caps authority len refs ≡ ok u
    → (length refs.staging < caps.staging_entry_cap)
      × (reserved caps.window_cap refs + staged_entry_len (actor authority) ≤ max_refs_image_bytes)
unfolding check_quotas
quotas-fit caps authority len refs u h =
    let (_, full, h1) = bind-ok _ _ _ h in
    let (_, owned, h2) = bind-ok _ _ _ h1 in
    let (_, used, h3) = bind-ok _ _ _ h2 in
    let room = deny_if-ok _ _ _ full in (ground arith, growth-fits refs _ _ u h3)

or-false : (a b : Bool) → (a || b) ≡ false → (a ≡ false) × (b ≡ false)
or-false true b h = absurd (cc)
or-false false b h = (refl, h)

module _ (sha256 : List ℕ → List ℕ) (caps : Caps) (authority : Authority)
    (digest_ok : IsDigest sha256) (owner_ok : IsActor (actor authority))
    (small : caps.staging_entry_cap ≤ max_staging_entries) where
  stage_chunk-IsBounded :
      (height : ℕ) (bytes : List ℕ) (pending : Pending) (r : Result FilesError (Unit {0}))
      → check_quotas caps authority (length bytes) pending.refs ≡ r
      → length bytes ≤ chunk_size
      → contains_key (object_id sha256 Kind.chunk bytes) pending.refs.staging ≡ false
      → IsBounded caps.window_cap pending.refs
      → IsBounded caps.window_cap (stage_chunk sha256 authority height bytes pending r).0.refs
  unfolding stage_chunk push_object object_id
  stage_chunk-IsBounded height bytes pending (err e) quotas size new h = h
  stage_chunk-IsBounded height bytes pending (ok u) quotas size new h =
      let (count, fits) = quotas-fit caps authority (length bytes) pending.refs u quotas in
      let digest = object_id sha256 Kind.chunk bytes in
      let staged = staged_by authority height (length bytes) in
      let staging = pending.refs.staging in
      let (asc, valid, _) = staging_of h.valid in
      staging-IsBounded caps.window_cap (staged_entry_len (actor authority)) pending.refs h fits
        (insert digest staged staging)
        (
          insert-IsAscending digest staged staging asc,
          All-insert IsStaged digest staged staging
              (digest_ok _, owner_ok, omega (arith, size), ground arith) valid,
          omega (arith, length-insert_new digest staged staging new, count, small),
        )
        (omega
          (arith, sum_by-insert_new (λ e. staged_entry_len e.1.owner) digest staged staging new))

  put_chunk-Keeps :
      (height : ℕ) (bytes : List ℕ)
      → Keeps caps.window_cap (put_chunk sha256 caps authority height bytes)
  unfolding put_chunk
  put_chunk-Keeps height bytes pending h = elim (Bool-cases (length bytes == 0)) [
    | inl empty ↦ rw (empty) h
    | inr filled ↦ elim (Bool-cases (ltb chunk_size (length bytes))) [
      | inl long ↦ rw (filled, long) h
      | inr size ↦
          elim (Bool-cases (
            contains_key (object_id sha256 Kind.chunk bytes) pending.object_ids
            || contains_key (object_id sha256 Kind.chunk bytes) pending.refs.staging)) [
              | inl known ↦ rw (filled, size, known) h
              | inr fresh ↦
                  let (_, new) = or-false _ _ fresh in
                  rw (filled, size, fresh)
                    (stage_chunk-IsBounded height bytes pending _ refl
                      (ltb_false→le (length bytes) chunk_size size) new h)
            ]
    ]
  ]

  pub putblob_apply-Keeps :
      (height : ℕ) (bytes : List ℕ)
      → Keeps caps.window_cap (putblob_apply sha256 caps authority height bytes)
  unfolding putblob_apply
  putblob_apply-Keeps height bytes pending h =
      put_chunk-Keeps height bytes (record pending { refs = sweep_expired height pending.refs })
        (sweep-IsBounded caps.window_cap height pending.refs h)
