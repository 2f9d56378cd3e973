-- ===== src/Duckfs/Fs/Commit/Writes.antt =====
-- The paths that the planning pass of `commit_apply` in crates/duckfs/core/src/fs.rs lets a commit write.
use ducktape_sdk.Prelude.{
  ℕ, ◌≡◌, refl, sym, ap, ap₂, subst, ◌∙◌, false, Option, List, [], ◌∷◌, ◌++◌, map, concat_map, All,
  All-append, length, ltb,
}
use ducktape_sdk.Bytes.Order.{bytes_order}
use ducktape_sdk.Parser.{Result, ok, err, ◌>>=◌}
use ducktape_sdk.Duckfs.Limits.{max_symlink_target_bytes}
use ducktape_sdk.Duckfs.Errors.{FilesError, symlink_over_cap}
use ducktape_sdk.Duckfs.Results.{err-ok, ok-eq, bind-ok}
use ducktape_sdk.Duckfs.Kind.{Kind}
use ducktape_sdk.Duckfs.EntryKind
use ducktape_sdk.Duckfs.Actor.{Authority}
use ducktape_sdk.Duckfs.Paths.{Segments, canonical, check_authority}
use ducktape_sdk.Duckfs.BlockObjects.{Index}
use ducktape_sdk.Duckfs.Tree.Resolve.{Store}
use ducktape_sdk.Duckfs.Fs.Tables.{join_segs}
use ducktape_sdk.Duckfs.Fs.Keeps.Tables.{join_segs-canonical}
use ducktape_sdk.Duckfs.Fs.Commit.Change.{
  Change, put, mkdir, rm, mv, symlink, put_op, mkdir_op, rm_op, mv_op, canon_authorized,
  validate_meta,
}
use ducktape_sdk.Duckfs.Fs.Commit.Plan.{Plan, Planning, lift, entry_of, plan_change, plan_changes}
use ducktape_sdk.Duckfs.Fs.Commit.Stages.{
  Logging-op, Logging-refer, stage_object-Logging, stage_fileobj-Logging, stage_content-Logging,
}
use ducktape_sdk.Duckfs.Fs.Commit.Log.{
  Logs, Logs-trans, Part, Part-bind, Logging, Quiet-bind, Logging-lift, Logging-pure,
  Logging-refuse, dedup-bind, touch-bind,
}

-- The paths that a change names.
abbrev pub paths_of : Change → List (List ℕ)
paths_of (put path exec meta content) = path ∷ []
paths_of (mkdir path) = path ∷ []
paths_of (rm path) = path ∷ []
paths_of (mv from to) = from ∷ to ∷ []
paths_of (symlink path target) = path ∷ []

-- A path, and its segments, that the authority may write.
abbrev pub IsAuthorized : (List ℕ → List ℕ) → Authority → List ℕ × Segments → Type 0
IsAuthorized nfc authority (path, segments) =
    (canonical nfc path ≡ ok segments) × (check_authority authority segments ≡ ok tt)

-- The paths entered and touched are those named, with their segments.
pub record IsLogged (nfc : List ℕ → List ℕ) (authority : Authority) (paths : List (List ℕ))
    (s t : Plan) : Type 0 where
  pub touched : List (List ℕ × Segments)
  pub logs : Logs paths touched s t
  pub names : map (λ x. x.0) touched ≡ paths
  pub authorized : All (IsAuthorized nfc authority) touched

map-append {ℓ κ} :
    {A : Type ℓ} {B : Type κ} (f : A → B) (xs ys : List A) → map f (xs ++ ys) ≡ map f xs ++ map f ys
map-append f [] ys = refl
map-append f (x ∷ xs) ys = ap (λ z. f x ∷ z) (map-append f xs ys)

module _ (nfc : List ℕ → List ℕ) (authority : Authority) where
  canon_authorized-IsAuthorized :
      (path : List ℕ) (segments : Segments)
      → canon_authorized nfc authority path ≡ ok segments
      → (join_segs segments ≡ path) × IsAuthorized nfc authority (path, segments)
  unfolding canon_authorized
  canon_authorized-IsAuthorized path segments h =
      let (parsed, canon, h) = bind-ok _ _ _ h in
      let (u, checked, h) = bind-ok _ _ _ h in
      let same = ok-eq _ _ h in
      let canon_eq = subst (λ z. canonical nfc path ≡ ok z) same canon in
      (
        join_segs-canonical nfc path segments canon_eq,
        (canon_eq, subst (λ z. check_authority authority z ≡ ok tt) same checked),
      )

  lifted : (m : Result FilesError Segments) → Part (lift m) (λ s a t. (m ≡ ok a) × (s ≡ t))
  lifted (ok a) s b t e = (ap (λ x. ok x.0) (ok-eq _ _ e), ap (λ x. x.1) (ok-eq _ _ e))
  lifted (err x) s b t e = absurd (err-ok _ _ e)

  -- A change of one path, whose rest enters and touches the canonical path.
  one_path :
      (path : List ℕ) (f : Segments → Planning (Unit {0}))
      → ((segments : Segments)
          → Logging (f segments) (join_segs segments ∷ []) ((join_segs segments, segments) ∷ []))
      → Part
          (lift (canon_authorized nfc authority path) >>= f)
          (λ s u t. IsLogged nfc authority (path ∷ []) s t)
  one_path path f k =
      Part-bind _ f _ _ _ (lifted (canon_authorized nfc authority path)) k
        λ s segments t u v (parsed, same) logs.
          let (joined, ok_path) = canon_authorized-IsAuthorized path segments parsed in
          record {
            touched = (path, segments) ∷ [];
            logs =
                subst (λ z. Logs (path ∷ []) ((path, segments) ∷ []) z v) (sym same)
                  (subst (λ z. Logs (z ∷ []) ((z, segments) ∷ []) t v) joined logs);
            names = refl;
            authorized = (ok_path, tt);
          }

  two_paths :
      (from to : List ℕ) (f : Segments → Segments → Planning (Unit {0}))
      → ((a b : Segments)
          → Logging
              (f a b)
              (join_segs a ∷ join_segs b ∷ [])
              ((join_segs a, a) ∷ (join_segs b, b) ∷ []))
      → Part
          (lift (canon_authorized nfc authority from) >>= λ a.
            lift (canon_authorized nfc authority to) >>= f a)
          (λ s u t. IsLogged nfc authority (from ∷ to ∷ []) s t)
  two_paths from to f k =
      Part-bind _ (λ a. lift (canon_authorized nfc authority to) >>= f a) _
        (λ a s u t.
          (b : Segments) × (canon_authorized nfc authority to ≡ ok b)
          × Logs (join_segs a ∷ join_segs b ∷ []) ((join_segs a, a) ∷ (join_segs b, b) ∷ []) s t)
        _ (lifted (canon_authorized nfc authority from))
        (λ a.
          Part-bind _ (f a) _ _ _ (lifted (canon_authorized nfc authority to)) (k a)
            λ s b t u v (parsed, same) logs. (
              b,
              parsed,
              subst
                  (λ z.
                    Logs (join_segs a ∷ join_segs b ∷ []) ((join_segs a, a) ∷ (join_segs b, b) ∷ [])
                      z v)
                  (sym same) logs,
            ))
        λ s a t u v (parsed, same) (b, to_parsed, logs).
          let (joined, from_ok) = canon_authorized-IsAuthorized from a parsed in
          let (to_joined, to_ok) = canon_authorized-IsAuthorized to b to_parsed in
          record {
            touched = (from, a) ∷ (to, b) ∷ [];
            logs =
                subst (λ z. Logs (from ∷ to ∷ []) ((from, a) ∷ (to, b) ∷ []) z v) (sym same)
                  (subst (λ z. Logs (from ∷ z ∷ []) ((from, a) ∷ (z, b) ∷ []) t v) to_joined
                    (subst (λ z. Logs (z ∷ join_segs b ∷ []) ((z, a) ∷ (join_segs b, b) ∷ []) t v)
                      joined logs));
            names = refl;
            authorized = (from_ok, (to_ok, tt));
          }

module _ (sha256 nfc : List ℕ → List ℕ) (base64 : List ℕ → Option (List ℕ)) (store : Store)
    (pending_ids : Index) (authority : Authority) where
  plan_change-IsLogged :
      (change : Change)
      → Part
          (plan_change sha256 nfc base64 store pending_ids authority change)
          (λ s u t. IsLogged nfc authority (paths_of change) s t)
  unfolding plan_change
  plan_change-IsLogged (put path exec meta content) = one_path nfc authority path _ λ segments.
      dedup-bind (join_segs segments) _ λ u. Quiet-bind _ _ (Logging-lift (validate_meta meta)) λ u.
        Quiet-bind _ _ (stage_content-Logging sha256 nfc base64 store pending_ids meta content)
          λ (id, ids, size).
            Quiet-bind _ _ (Logging-refer sha256 nfc base64 store pending_ids ids) λ u.
              touch-bind segments _ λ u.
                Logging-op sha256 nfc base64 store pending_ids
                  (put_op segments (entry_of EntryKind.file id exec size))
  plan_change-IsLogged (mkdir path) = one_path nfc authority path _ λ segments.
      dedup-bind (join_segs segments) _ λ u.
        touch-bind segments _
          λ u. Logging-op sha256 nfc base64 store pending_ids (mkdir_op segments)
  plan_change-IsLogged (rm path) = one_path nfc authority path _ λ segments.
      dedup-bind (join_segs segments) _ λ u.
        touch-bind segments _ λ u. Logging-op sha256 nfc base64 store pending_ids (rm_op segments)
  plan_change-IsLogged (mv from to) = two_paths nfc authority from to _ λ a b.
      dedup-bind (join_segs a) _ λ u. dedup-bind (join_segs b) _ λ u.
        touch-bind a _
          λ u. touch-bind b _ λ u. Logging-op sha256 nfc base64 store pending_ids (mv_op a b)
  plan_change-IsLogged (symlink path target) = one_path nfc authority path _ λ segments.
      dedup-bind (join_segs segments) _ λ u.
        Quiet-bind _ _
          (Logging-refuse (ltb max_symlink_target_bytes (length target)) symlink_over_cap)
          λ u.
            Quiet-bind _ _
              (stage_object-Logging sha256 nfc base64 store pending_ids Kind.chunk target)
              λ chunk_id.
                Quiet-bind _ _
                  (stage_fileobj-Logging sha256 nfc base64 store pending_ids (length target)
                    (chunk_id ∷ []) [])
                  λ id.
                    Quiet-bind _ _
                      (Logging-refer sha256 nfc base64 store pending_ids (chunk_id ∷ []))
                      λ u. touch-bind segments _ λ u.
                        Logging-op sha256 nfc base64 store pending_ids
                          (put_op segments (entry_of EntryKind.symlink id false (length target)))

  pub plan_changes-IsLogged :
      (changes : List Change)
      → Part
          (plan_changes sha256 nfc base64 store pending_ids authority changes)
          (λ s u t. IsLogged nfc authority (concat_map paths_of changes) s t)
  unfolding plan_changes
  plan_changes-IsLogged [] = λ s u t e. record {
    touched = [];
    logs = Logging-pure tt s u t e;
    names = refl;
    authorized = tt;
  }
  plan_changes-IsLogged (change ∷ changes) =
      Part-bind _ _ _ _ _ (plan_change-IsLogged change) (λ u. plan_changes-IsLogged changes)
        λ s u t v w first rest. record {
          touched = first.touched ++ rest.touched;
          logs = Logs-trans s t w first.logs rest.logs;
          names = map-append _ first.touched rest.touched ∙ ap₂ ◌++◌ first.names rest.names;
          authorized =
              All-append (IsAuthorized nfc authority) first.touched rest.touched first.authorized
                rest.authorized;
        }
