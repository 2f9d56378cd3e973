-- ===== src/Duckfs/Fs/Commit/Safety.antt =====
-- What an accepted commit of crates/duckfs/core/src/fs.rs says of the paths that it writes.
use ducktape_sdk.Prelude.{
  and-true, ℕ, ◌≡◌, ◌≢◌, refl, sym, ap, subst, ◌∙◌, Bool, true, false, not, Option, none, some,
  List, [], ◌∷◌, map, concat_map, All, not-false, ==_iff, Bool-cases, inl, inr, if◌then◌else◌,
}
use ducktape_sdk.Bytes.Order.{bytes_order, bytes_eq, bytes_eq_self, bytes_eq→eq}
use ducktape_sdk.BTree.{get, insert, contains_key}
use ducktape_sdk.Sdk.StagedStore.Reads.{get-insert}
use ducktape_sdk.Parser.{ok}
use ducktape_sdk.Duckfs.Results.{bind-ok, deny_if-ok}
use ducktape_sdk.Duckfs.EntryKind
use ducktape_sdk.Duckfs.EntryKind.{EntryKind, from_u8-tag_iff}
use ducktape_sdk.Duckfs.Actor.{Authority}
use ducktape_sdk.Duckfs.Objects.{ObjectId, TreeEntry}
use ducktape_sdk.Duckfs.Refs.{Refs}
use ducktape_sdk.Duckfs.Paths.{Segments, canonical, check_authority}
use ducktape_sdk.Duckfs.BlockObjects.{Index}
use ducktape_sdk.Duckfs.Tree.Resolve.{Store, entry_at}
use ducktape_sdk.Duckfs.Fs.Commit.Change.{Change}
use ducktape_sdk.Duckfs.Fs.Commit.Plan.{empty_plan}
use ducktape_sdk.Duckfs.Fs.Commit.Engine.{
  CommitBuilt, entry_eq, check_unchanged, effective_root, resolve_base, run_commit,
}
use ducktape_sdk.Duckfs.Fs.Commit.Log.{Seen, IsFresh}
use ducktape_sdk.Duckfs.Fs.Commit.Writes.{paths_of, IsAuthorized, plan_changes-IsLogged}

-- No path stands twice.
abbrev pub IsDistinct : List (List ℕ) → Type 0
IsDistinct [] = Unit
IsDistinct (p ∷ ps) = All (λ q. p ≢ q) ps × IsDistinct ps

abbrev is_present : Option (Unit {0}) → Bool
is_present none = false
is_present (some u) = true

seen_self : (p : List ℕ) (seen : Seen) → contains_key p (insert p tt seen) ≡ true
unfolding contains_key
seen_self p seen = ap is_present {y = some tt} (get-insert p p tt seen ∙ rw (bytes_eq_self p) refl)

seen-more :
    (p q : List ℕ) (seen : Seen)
    → contains_key p seen ≡ true
    → contains_key p (insert q tt seen) ≡ true
unfolding contains_key
seen-more p q seen h = elim (Bool-cases (bytes_eq q p)) [
  | inl same ↦ ap is_present {y = some tt} (get-insert p q tt seen ∙ rw (same) refl)
  | inr other ↦ ap is_present {y = get p seen} (get-insert p q tt seen ∙ rw (other) refl) ∙ h
]

true_not_false : ¬ (true ≡ false)
true_not_false h = cc

avoids :
    (p : List ℕ) (ps : List (List ℕ)) (seen : Seen)
    → contains_key p seen ≡ true
    → IsFresh ps seen
    → All (λ q. p ≢ q) ps
avoids p [] seen there h = tt
avoids p (q ∷ ps) seen there (new, h) = (
  λ e. true_not_false (sym there ∙ ap (λ z. contains_key z seen) e ∙ new),
  avoids p ps (insert q tt seen) (seen-more p q seen there) h,
)

fresh-IsDistinct : (ps : List (List ℕ)) (seen : Seen) → IsFresh ps seen → IsDistinct ps
fresh-IsDistinct [] seen h = tt
fresh-IsDistinct (p ∷ ps) seen (new, h) =
    (avoids p ps (insert p tt seen) (seen_self p seen) h, fresh-IsDistinct ps (insert p tt seen) h)

tag-eq : (k l : EntryKind) → EntryKind.tag k ≡ EntryKind.tag l → k ≡ l
tag-eq k l e =
    let named = (from_u8-tag_iff (EntryKind.tag k) k).1 refl in
    let other = (from_u8-tag_iff (EntryKind.tag k) l).1 e in cc

exec-eq : (a b : Bool) → (if a then b else not b) ≡ true → a ≡ b
exec-eq true true h = refl
exec-eq false false h = refl
exec-eq true false h = absurd (cc)
exec-eq false true h = absurd (cc)

entry_eq→eq : (a b : Option TreeEntry) → entry_eq a b ≡ true → a ≡ b
unfolding entry_eq
entry_eq→eq none none h = refl
entry_eq→eq none (some f) h = absurd (cc)
entry_eq→eq (some e) none h = absurd (cc)
entry_eq→eq (some e) (some f) h =
    let (kinds, h) = and-true _ _ h in
    let (ids, h) = and-true _ _ h in
    let (execs, sizes) = and-true _ _ h in
    let kind_eq = tag-eq e.kind f.kind ((==_iff _ _).0 kinds) in
    let id_eq = bytes_eq→eq e.id f.id ids in
    let exec_eq = exec-eq e.exec f.exec execs in let size_eq = (==_iff e.size f.size).0 sizes in cc

-- The entry at the path is the same in both trees.
abbrev pub IsUnchanged : Store → Option ObjectId → Option ObjectId → Segments → Type 0
IsUnchanged store base_root head_root segments =
    (entry : Option TreeEntry) × (entry_at store base_root segments ≡ ok entry)
    × (entry_at store head_root segments ≡ ok entry)

check_unchanged-All :
    (store : Store) (base_root head_root : Option ObjectId) (touched : List (List ℕ × Segments))
    (u : Unit {0})
    → check_unchanged store base_root head_root touched ≡ ok u
    → All (λ x. IsUnchanged store base_root head_root x.1) touched
unfolding check_unchanged
check_unchanged-All store base_root head_root [] u h = tt
check_unchanged-All store base_root head_root ((joined, segments) ∷ touched) u h =
    let (before, b, h) = bind-ok _ _ _ h in
    let (now, n, h) = bind-ok _ _ _ h in
    let (_, equal, h) = bind-ok _ _ _ h in
    let same = entry_eq→eq before now (not-false _ (deny_if-ok _ _ _ equal)) in
    (
      (before, b, subst (λ z. entry_at store head_root segments ≡ ok z) (sym same) n),
      check_unchanged-All store base_root head_root touched u h,
    )

-- A path that a commit wrote: canonical, within what the authority may write, and with the same entry
-- under the base as under the head that the commit was applied to.
abbrev pub IsWritten :
    (List ℕ → List ℕ) → Authority → Store → Option ObjectId → Option ObjectId → List ℕ → Type 0
IsWritten nfc authority store base_root head_root path =
    (segments : Segments) × (canonical nfc path ≡ ok segments)
    × (check_authority authority segments ≡ ok tt)
    × IsUnchanged store base_root head_root segments

written :
    (nfc : List ℕ → List ℕ) (authority : Authority) (store : Store)
    (base_root head_root : Option ObjectId) (touched : List (List ℕ × Segments))
    → All (IsAuthorized nfc authority) touched
    → All (λ x. IsUnchanged store base_root head_root x.1) touched
    → All (IsWritten nfc authority store base_root head_root) (map (λ x. x.0) touched)
written nfc authority store base_root head_root [] h k = tt
written nfc authority store base_root head_root ((path, segments) ∷ touched) ((canon, may), h)
      (same, k) =
    ((segments, canon, may, same), written nfc authority store base_root head_root touched h k)

-- A commit is accepted only if its base and the head resolve to trees, and every path that its changes
-- name, both paths of a move included, is canonical, may be written by the authority, and has the same
-- entry in the base's tree as in the head's; no path is named twice.
pub run_commit-writes :
    (sha256 nfc : List ℕ → List ℕ) (base64 : List ℕ → Option (List ℕ)) (store : Store)
    (pending_ids : Index) (authority : Authority) (height time : ℕ) (message : List ℕ) (cap : ℕ)
    (base : Option (List ℕ)) (changes : List Change) (refs : Refs) (b : CommitBuilt)
    → run_commit sha256 nfc base64 store pending_ids authority height time message cap base changes
        refs
      ≡ ok b
    → (base_root : Option ObjectId) × (head_root : Option ObjectId) × (resolve_base sha256 nfc
          base64 store refs base
        ≡ ok base_root)
      × (effective_root store refs.head ≡ ok head_root)
      × All (IsWritten nfc authority store base_root head_root) (concat_map paths_of changes)
      × IsDistinct (concat_map paths_of changes)
unfolding run_commit
run_commit-writes sha256 nfc base64 store pending_ids authority height time message cap base changes
      refs b e =
    let (_, _, e) = bind-ok _ _ _ e in
    let (base_root, resolved, e) = bind-ok _ _ _ e in
    let (head_root, headed, e) = bind-ok _ _ _ e in
    let (planned, plan_ok, e) = bind-ok _ _ _ e in
    let (_, _, e) = bind-ok _ _ _ e in
    let (u, unchanged, e) = bind-ok _ _ _ e in
    let logged =
      plan_changes-IsLogged sha256 nfc base64 store pending_ids authority changes empty_plan
        planned.0 planned.1 plan_ok in
    let same = check_unchanged-All store base_root head_root planned.1.touched u unchanged in
    (
      base_root,
      head_root,
      resolved,
      headed,
      subst (All (IsWritten nfc authority store base_root head_root)) logged.names (
          written nfc authority store base_root head_root logged.touched logged.authorized (
            subst (All (λ x. IsUnchanged store base_root head_root x.1)) logged.logs.touched_eq
              same)),
      fresh-IsDistinct (concat_map paths_of changes) [] logged.logs.fresh,
    )
