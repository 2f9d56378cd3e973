-- ===== src/Duckfs/Fs/Keeps/Catalog.antt =====
-- The root that `compare_exchange` of crates/duckfs/core/src/retention.rs hands out is a hash, or the
-- root that it was given.
use ducktape_sdk.Prelude.{
  ℕ, zero, suc, ◌-◌, ◌≡◌, refl, subst, ◌&&◌, Option, none, some, List, [], length, take, ◌==◌, inl,
  inr, Bool-cases,
}
use ducktape_sdk.Bytes.Order.{bytes_order}
use ducktape_sdk.Parser.{Result, ok, err}
use ducktape_sdk.Duckfs.Errors.{FilesError}
use ducktape_sdk.Duckfs.Results.{bind-ok, ok-eq, err-ok, edited}
use ducktape_sdk.Duckfs.Objects.{ObjectId}
use ducktape_sdk.Duckfs.Objects.Snapshot.{IsOptId}
use ducktape_sdk.Duckfs.Paths.{Segments}
use ducktape_sdk.Duckfs.Tree.{Node, load, rm, is_dir}
use ducktape_sdk.Duckfs.Tree.Build as edit
use ducktape_sdk.Duckfs.Tree.Resolve.{Store}
use ducktape_sdk.Duckfs.Retention.{RetentionReference, Record, reference, membership_path}
use ducktape_sdk.Duckfs.Retention.Exchange
use ducktape_sdk.Duckfs.Retention.Exchange.{
  Staging, Built, put_record, prune, remove_record, exchange_reference, release, acquire,
  move_membership, built, compare_exchange, reference_eq, id_eq,
}
use ducktape_sdk.Duckfs.Fs.Keeps.{IsDigest}
use ducktape_sdk.Duckfs.Fs.Keeps.Roots.{
  IsIdNode, load-IsIdNode, put-IsIdNode, rm-IsIdNode, edited-ok, build-IsOptId,
}

module _ (sha256 : List ℕ → List ℕ) (digest_ok : IsDigest sha256) (store : Store) where
  -- A step that keeps the id of the edit's root an array.
  abbrev StepKeeps : (Staging → Result FilesError Staging) → Type 0
  StepKeeps step = (s t : Staging) → IsIdNode s.0 → step s ≡ ok t → IsIdNode t.0

  put_record-keeps : (path : Segments) (r : Record) → StepKeeps (put_record sha256 store path r)
  unfolding put_record
  put_record-keeps path r (node, objects) t h e =
      let (next, put_ok, e) = bind-ok _ _ _ e in
      let same = edited-ok _ _ put_ok in
      let kept = put-IsIdNode store.get node path _ h in
      subst (λ z. IsIdNode z.0) (ok-eq _ _ e) (subst IsIdNode same kept)

  rm-keeps :
      (path : Segments) (node next : Node)
      → IsIdNode node
      → edited (rm store.get node path) ≡ ok next
      → IsIdNode next
  rm-keeps path node next h e = subst IsIdNode (edited-ok _ _ e) (rm-IsIdNode store.get node path h)

  prune-keeps :
      (depth : ℕ) (path : Segments) (node next : Node)
      → IsIdNode node
      → prune sha256 store depth path node ≡ ok next
      → IsIdNode next
  unfolding prune
  prune-keeps zero path node next h e = subst IsIdNode (ok-eq _ _ e) h
  prune-keeps (suc depth) path node next h e =
      let (found, _, e) = bind-ok _ _ _ e in
      let (entry, _, e) = bind-ok _ _ _ e in
      elim (Bool-cases (is_dir entry.kind && (entry.size == 0))) [
        | inl full ↦
            let (lower, rm_ok, e) = bind-ok _ _ _ (rw full at e) in
            prune-keeps depth path lower next (rm-keeps (take (suc depth) path) node lower h rm_ok)
              e
        | inr stop ↦ subst IsIdNode (ok-eq _ _ (rw stop at e)) h
      ]

  remove_record-keeps : (path : Segments) → StepKeeps (remove_record sha256 store path)
  unfolding remove_record Exchange.remove
  remove_record-keeps path (node, objects) t h e =
      let (next, removed, e) = bind-ok _ _ _ e in
      let (lower, rm_ok, pruned) = bind-ok _ _ _ removed in
      let kept =
        prune-keeps (length path - 1) path lower next (rm-keeps path node lower h rm_ok) pruned in
      subst (λ z. IsIdNode z.0) (ok-eq _ _ e) kept

  exchange_reference-keeps :
      (path : Segments) (r : Option RetentionReference)
      → StepKeeps (exchange_reference sha256 store path r)
  unfolding exchange_reference
  exchange_reference-keeps path none = remove_record-keeps path
  exchange_reference-keeps path (some r) = put_record-keeps path (reference r)

  module _ (root : Option ObjectId) where
    release-keeps : (id : Option ObjectId) → StepKeeps (release sha256 store root id)
    unfolding release
    release-keeps none s t h e = subst (λ z. IsIdNode z.0) (ok-eq _ _ e) h
    release-keeps (some id) s t h e =
        let (held, _, e) = bind-ok _ _ _ e in
        let (_, _, e) = bind-ok _ _ _ e in
        elim (Bool-cases (held - 1 == 0)) [
          | inl last ↦ remove_record-keeps (membership_path id) s t h (rw last at e)
          | inr more ↦ put_record-keeps (membership_path id) _ s t h (rw more at e)
        ]

    acquire-keeps : (id : Option ObjectId) → StepKeeps (acquire sha256 store root id)
    unfolding acquire
    acquire-keeps none s t h e = subst (λ z. IsIdNode z.0) (ok-eq _ _ e) h
    acquire-keeps (some id) s t h e =
        let (held, _, e) = bind-ok _ _ _ e in
        let (_, _, e) = bind-ok _ _ _ e in put_record-keeps (membership_path id) _ s t h e

    move_membership-keeps :
        (previous next : Option ObjectId)
        → StepKeeps (move_membership sha256 store root previous next)
    unfolding move_membership
    move_membership-keeps previous next s t h e = elim (Bool-cases (id_eq previous next)) [
      | inl same ↦ subst (λ z. IsIdNode z.0) (ok-eq _ _ (rw same at e)) h
      | inr other ↦
          let (u, released, e) = bind-ok _ _ _ (rw other at e) in
          acquire-keeps next u t (release-keeps previous s u h released) e
    ]

    built-IsOptId :
        (s : Staging) (b : Built) → IsIdNode s.0 → built sha256 store root s ≡ ok b → IsOptId b.root
    unfolding built
    built-IsOptId (node, objects) b h e = go (edit.build sha256 node objects).1 refl e
      where
        go :
            (r : Result FilesError (Option ObjectId))
            → (edit.build sha256 node objects).1 ≡ r
            → (elim r as (λ _. Result FilesError Built) [
              | err x ↦ err x
              | ok root' ↦
                  ok (record { root = root'; objects = (edit.build sha256 node objects).0 })
            ])
              ≡ ok b
            → IsOptId b.root
        go (err x) q p = absurd (err-ok _ _ p)
        go (ok root') q p =
            subst (λ z. IsOptId z.root) (ok-eq _ _ p)
              (build-IsOptId sha256 digest_ok node objects root' h q)

    pub compare_exchange-IsOptId :
        (m k : List ℕ) (expected replacement : Option RetentionReference) (b : Built)
        → IsOptId root
        → compare_exchange sha256 store root m k expected replacement ≡ ok b
        → IsOptId b.root
    unfolding compare_exchange
    compare_exchange-IsOptId m k expected replacement b h e =
        let (_, _, e) = bind-ok _ _ _ e in
        let (_, _, e) = bind-ok _ _ _ e in
        let (_, _, e) = bind-ok _ _ _ e in
        let (_, _, e) = bind-ok _ _ _ e in
        let (_, _, e) = bind-ok _ _ _ e in
        elim (Bool-cases (reference_eq expected replacement)) [
          | inl same ↦ subst (λ z. IsOptId z.root) (ok-eq _ _ (rw same at e)) h
          | inr other ↦
              let (_, _, e) = bind-ok _ _ _ (rw other at e) in
              let (staged, exchanged, e) = bind-ok _ _ _ e in
              let (previous, _, e) = bind-ok _ _ _ e in
              let (next, _, e) = bind-ok _ _ _ e in
              let (moved, move_ok, e) = bind-ok _ _ _ e in
              let kept =
                exchange_reference-keeps _ replacement (load root, []) staged (load-IsIdNode root h)
                  exchanged in
              built-IsOptId moved b (move_membership-keeps previous next staged moved kept move_ok)
                e
        ]
