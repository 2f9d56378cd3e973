-- ===== src/Duckfs/Fs/Commit/Stages.antt =====
-- Staging in the planning pass of `commit_apply` in crates/duckfs/core/src/fs.rs enters and touches no path.
use ducktape_sdk.Prelude.{
  ℕ, ◌+◌, ◌^◌, ◌≡◌, refl, sym, ap, subst, ◌∙◌, Bool, true, false, ◌||◌, Option, List, [], ◌∷◌,
  length, leb, ltb, Bool-cases, inl, inr, if◌then◌else◌,
}
use ducktape_sdk.Bytes.Order.{bytes_order}
use ducktape_sdk.BTree.{BTreeMap, contains_key}
use ducktape_sdk.Parser.{Result, ok, err}
use ducktape_sdk.Duckfs.Limits.{max_inline_commit_bytes}
use ducktape_sdk.Duckfs.Errors.{FilesError, bad_base64}
use ducktape_sdk.Duckfs.Results.{err-ok, ok-eq, ok_or}
use ducktape_sdk.Duckfs.Kind.{Kind}
use ducktape_sdk.Duckfs.Objects.{ObjectId}
use ducktape_sdk.Duckfs.Store.{object_id}
use ducktape_sdk.Duckfs.BlockObjects.{Index}
use ducktape_sdk.Duckfs.Tree.Resolve.{Store}
use ducktape_sdk.Duckfs.Fs.Commit.Change.{
  Content, inline, chunks, EditOp, validate_chunks, chunks_of,
}
use ducktape_sdk.Duckfs.Fs.Commit.Plan.{
  Plan, modify, refer, add_op, check_later, stage_if_new, stage_object, stage_chunks, chunk_bytes,
  stage_fileobj, charge_inline, stage_content,
}
use ducktape_sdk.Duckfs.Fs.Commit.Log.{
  Logs, Logs-nothing, Logging, Quiet-bind, Logging-lift, Logging-modify, Logging-pure,
}

module _ (sha256 nfc : List ℕ → List ℕ) (base64 : List ℕ → Option (List ℕ)) (store : Store)
    (pending_ids : Index) where
  pub Logging-op : (op : EditOp) → Logging (modify (add_op op)) [] []
  Logging-op op = Logging-modify (add_op op) (λ s. refl) (λ s. refl)

  pub Logging-refer : (ids : List ObjectId) → Logging (modify (refer ids)) [] []
  Logging-refer ids = Logging-modify (refer ids) (λ s. refl) (λ s. refl)

  pub stage_object-Logging :
      (kind : Kind) (body : List ℕ)
      → Logging (stage_object sha256 nfc base64 store pending_ids kind body) [] []
  unfolding stage_object
  stage_object-Logging kind body s a t e = go staged refl e
    where
      id : ObjectId
      id = object_id sha256 kind body

      staged : Result FilesError Plan
      staged =
          if contains_key id s.staged_ids || contains_key id pending_ids
          then ok s
          else stage_if_new sha256 nfc base64 store pending_ids kind body s (store.has_committed id)

      Quiet : Result FilesError Plan → Type 0
      Quiet (ok plan) = (plan.seen ≡ s.seen) × (plan.touched ≡ s.touched)
      Quiet (err x) = Unit

      probed :
          (r : Result FilesError Bool)
          → Quiet (stage_if_new sha256 nfc base64 store pending_ids kind body s r)
      probed (err x) = tt
      probed (ok true) = (refl, refl)
      probed (ok false) = (refl, refl)

      branch :
          (b : Bool)
          → Quiet (
              if b
              then ok s
              else stage_if_new sha256 nfc base64 store pending_ids kind body s
                  (store.has_committed id))
      branch true = (refl, refl)
      branch false = probed (store.has_committed id)

      go :
          (r : Result FilesError Plan)
          → staged ≡ r
          → (elim r as (λ _. Result FilesError (ObjectId × Plan)) [
            | err x ↦ err x
            | ok plan ↦ ok (id, plan)
          ])
            ≡ ok (a, t)
          → Logs [] [] s t
      go (err x) q p = absurd (err-ok _ _ p)
      go (ok plan) q p =
          let same = ap (λ x. x.1) (ok-eq _ _ p) in
          let (seen, touched) =
            subst Quiet q (branch (contains_key id s.staged_ids || contains_key id pending_ids)) in
          Logs-nothing s t (ap (λ (x : Plan). x.seen) (sym same) ∙ seen)
            (ap (λ (x : Plan). x.touched) (sym same) ∙ touched)

  stage_chunks-Logging :
      (cs : List (List ℕ)) → Logging (stage_chunks sha256 nfc base64 store pending_ids cs) [] []
  unfolding stage_chunks
  stage_chunks-Logging [] = Logging-pure []
  stage_chunks-Logging (c ∷ cs) =
      Quiet-bind _ _ (stage_object-Logging Kind.chunk c)
        λ id. Quiet-bind _ _ (stage_chunks-Logging cs) λ ids. Logging-pure (id ∷ ids)

  charge_inline-Logging :
      (len : ℕ) → Logging (charge_inline sha256 nfc base64 store pending_ids len) [] []
  unfolding charge_inline
  charge_inline-Logging len s a t e = elim (Bool-cases (leb (2 ^ 64) (s.inline_bytes + len))) [
    | inl wraps ↦ absurd (err-ok _ _ (rw wraps at e))
    | inr fits ↦ elim (Bool-cases (ltb max_inline_commit_bytes (s.inline_bytes + len))) [
      | inl over ↦ absurd (err-ok _ _ (rw (fits, over) at e))
      | inr within ↦
          let same = ap (λ x. x.1) (ok-eq _ _ (rw (fits, within) at e)) in
          Logs-nothing s t (ap (λ (x : Plan). x.seen) (sym same))
            (ap (λ (x : Plan). x.touched) (sym same))
    ]
  ]

  pub stage_fileobj-Logging :
      (size : ℕ) (ids : List ObjectId) (meta : BTreeMap (List ℕ) (List ℕ))
      → Logging (stage_fileobj sha256 nfc base64 store pending_ids size ids meta) [] []
  unfolding stage_fileobj
  stage_fileobj-Logging size ids meta = stage_object-Logging Kind.file _

  pub stage_content-Logging :
      (meta : BTreeMap (List ℕ) (List ℕ)) (content : Content)
      → Logging (stage_content sha256 nfc base64 store pending_ids meta content) [] []
  unfolding stage_content chunk_bytes
  stage_content-Logging meta (inline b64) =
      Quiet-bind _ _ (Logging-lift (ok_or (base64 b64) bad_base64)) λ bytes.
        Quiet-bind _ _ (charge_inline-Logging (length bytes)) λ u.
          Quiet-bind _ _ (stage_chunks-Logging (chunks_of bytes)) λ ids.
            Quiet-bind _ _ (stage_fileobj-Logging (length bytes) ids meta)
              λ id. Logging-pure (id, ids, length bytes)
  stage_content-Logging meta (chunks size digests) =
      Quiet-bind _ _ (Logging-lift (validate_chunks size digests)) λ ids.
        Quiet-bind _ _ (Logging-modify (check_later size ids) (λ s. refl) (λ s. refl)) λ u.
          Quiet-bind _ _ (stage_fileobj-Logging size ids meta) λ id. Logging-pure (id, ids, size)
