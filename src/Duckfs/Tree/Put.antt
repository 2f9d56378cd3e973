-- ===== src/Duckfs/Tree/Put.antt =====
-- What is read at a path after an entry was put there.
use ducktape_sdk.Prelude.{
  ℕ, ◌≡◌, refl, sym, ap, ap₂, subst, ◌∙◌, true, Option, none, some, List, [], ◌∷◌, ◌++◌, inl, inr,
  Bool-cases,
}
use ducktape_sdk.Bytes.Order.{bytes_order, bytes_lt, bytes_lt_irrefl}
use ducktape_sdk.Parser.{Result, ok, err}
use ducktape_sdk.Duckfs.Errors.{FilesError, put_root}
use ducktape_sdk.Duckfs.Objects.{TreeEntry}
use ducktape_sdk.Duckfs.Paths.{Segments}
use ducktape_sdk.Duckfs.Tree.{
  Node, ref_node, dir, Children, empty, child, get_child, put_child, split_last, Fetch, materialize,
  navigate, insert_entry, put,
}
use ducktape_sdk.Duckfs.Tree.Build.{step_get, walk_get, get}

get_child-put_child :
    (name : List ℕ) (node : Node) (children : Children)
    → get_child name (put_child name node children) ≡ some node
unfolding get_child put_child
get_child-put_child name node empty = rw (bytes_lt_irrefl name)
get_child-put_child name node (child n old children) = elim (Bool-cases (bytes_lt name n)) [
  | inl l ↦ rw (l, bytes_lt_irrefl name)
  | inr l ↦ elim (Bool-cases (bytes_lt n name)) [
    | inl g ↦ rw (l, g, l, g) (get_child-put_child name node children)
    | inr g ↦ rw (l, g, bytes_lt_irrefl name)
  ]
]

-- What `split_last` makes of a segment ahead of the rest.
abbrev with_head : List ℕ → Option (Segments × List ℕ) → Option (Segments × List ℕ)
with_head segment none = some ([], segment)
with_head segment (some (ds, n)) = some (segment ∷ ds, n)

split_last-none : (segments : Segments) → split_last segments ≡ none → segments ≡ []
unfolding split_last
split_last-none [] h = refl
split_last-none (segment ∷ segments) h = go (split_last segments) h
  where
    go : (o : Option (Segments × List ℕ)) → with_head segment o ≡ none → segment ∷ segments ≡ []
    go none q = absurd (cc)
    go (some (ds, n)) q = absurd (cc)

split_last-join :
    (segments dirs : Segments) (name : List ℕ)
    → split_last segments ≡ some (dirs, name)
    → segments ≡ dirs ++ (name ∷ [])
unfolding split_last
split_last-join [] dirs name h = absurd (cc)
split_last-join (segment ∷ segments) dirs name h =
    go (split_last segments) (λ ds n e. split_last-join segments ds n e) refl h
  where
    go :
        (o : Option (Segments × List ℕ))
        → ((ds : Segments) (n : List ℕ)
            → split_last segments ≡ some (ds, n)
            → segments ≡ ds ++ (n ∷ []))
        → split_last segments ≡ o
        → with_head segment o ≡ some (dirs, name)
        → segment ∷ segments ≡ dirs ++ (name ∷ [])
    go none ih e q =
        let dirs_eq : [] ≡ dirs = cc in
        let name_eq : segment ≡ name = cc in
        ap (λ z. segment ∷ z) (split_last-none segments e)
        ∙ ap₂ (λ a b. a ++ (b ∷ [])) dirs_eq name_eq
    go (some (ds, n)) ih e q =
        let dirs_eq : segment ∷ ds ≡ dirs = cc in
        let name_eq : n ≡ name = cc in
        ap (λ z. segment ∷ z) (ih ds n e) ∙ ap₂ (λ a b. a ++ (b ∷ [])) dirs_eq name_eq

-- What a put promises of a later read of its path: the entry, when it succeeded.
abbrev pub Puts :
    (List ℕ → List ℕ) → Fetch → TreeEntry → Segments → Node × Result FilesError (Unit {0}) → Type 0
Puts sha256 fetch entry path (node, err e) = Unit
Puts sha256 fetch entry path (node, ok u) = get sha256 fetch node path ≡ ok (some entry)

module _ (sha256 : List ℕ → List ℕ) (fetch : Fetch) (name : List ℕ) (entry : TreeEntry) where
  -- The read below a child that was put back under its name.
  walk-put_child :
      (segment : List ℕ) (next : Node) (children : Children) (rest : Segments)
      → walk_get sha256 fetch (dir (put_child segment next children)) (segment ∷ rest)
        ≡ step_get sha256 next rest (walk_get sha256 fetch next rest)
  unfolding walk_get
  walk-put_child segment next children rest =
      ap
        (λ o. elim o [
          | none ↦ ok none
          | some c ↦ step_get sha256 c rest (walk_get sha256 fetch c rest)
        ])
        (get_child-put_child segment next children)

  step_below :
      (node : Node) (dirs : Segments) (below : Result FilesError (Option TreeEntry))
      → step_get sha256 node (dirs ++ (name ∷ [])) below ≡ below
  step_below (ref_node e) [] below = refl
  step_below (ref_node e) (d ∷ dirs) below = refl
  step_below (dir c) [] below = refl
  step_below (dir c) (d ∷ dirs) below = refl

  walk-navigate :
      (dirs : Segments) (node : Node)
      → Puts sha256 fetch entry
          (dirs ++ (name ∷ []))
          (navigate fetch true (insert_entry fetch name entry) node dirs)
  unfolding navigate get
  walk-navigate [] node = go (materialize fetch node)
    where
      go :
          (r : Result FilesError Children)
          → Puts sha256 fetch entry (name ∷ []) (elim r [
            | err e ↦ (node, err e)
            | ok children ↦ (dir (put_child name (ref_node entry) children), ok tt)
          ])
      go (err e) = tt
      go (ok children) = walk-put_child name (ref_node entry) children []
  walk-navigate (segment ∷ dirs) node = down_from (materialize fetch node) (walk-navigate dirs)
    where
      step : Node → Node × Result FilesError (Unit {0})
      step next = navigate fetch true (insert_entry fetch name entry) next dirs

      under :
          (children : Children) (r : Node × Result FilesError (Unit {0}))
          → Puts sha256 fetch entry (dirs ++ (name ∷ [])) r
          → Puts sha256 fetch entry
              (segment ∷ (dirs ++ (name ∷ [])))
              (dir (put_child segment r.0 children), r.1)
      under children (next, err e) p = tt
      under children (next, ok u) p =
          walk-put_child segment next children (dirs ++ (name ∷ []))
          ∙ step_below next dirs (walk_get sha256 fetch next (dirs ++ (name ∷ [])))
          ∙ p

      choose :
          (children : Children) (o : Option Node)
          → ((next : Node) → Puts sha256 fetch entry (dirs ++ (name ∷ [])) (step next))
          → Puts sha256 fetch entry (segment ∷ (dirs ++ (name ∷ []))) (elim o [
            | some next ↦ (dir (put_child segment (step next).0 children), (step next).1)
            | none ↦ (dir (put_child segment (step (dir empty)).0 children), (step (dir empty)).1)
          ])
      choose children none ih = under children (step (dir empty)) (ih (dir empty))
      choose children (some next) ih = under children (step next) (ih next)

      down_from :
          (r : Result FilesError Children)
          → ((next : Node) → Puts sha256 fetch entry (dirs ++ (name ∷ [])) (step next))
          → Puts sha256 fetch entry (segment ∷ (dirs ++ (name ∷ []))) (elim r [
            | err e ↦ (node, err e)
            | ok children ↦ elim (get_child segment children) [
              | some next ↦ (dir (put_child segment (step next).0 children), (step next).1)
              | none ↦ (dir (put_child segment (step (dir empty)).0 children), (step (dir empty)).1)
            ]
          ])
      down_from (err e) ih = tt
      down_from (ok children) ih = choose children (get_child segment children) ih

-- A put that succeeds makes the entry what is read at its path, whatever directories on the way it
-- created or loaded, and whatever stood at the path before.
pub put-get :
    (sha256 : List ℕ → List ℕ) (fetch : Fetch) (root : Node) (segments : Segments)
    (entry : TreeEntry)
    → Puts sha256 fetch entry segments (put fetch root segments entry)
unfolding put
put-get sha256 fetch root segments entry = go (split_last segments) refl
  where
    go :
        (o : Option (Segments × List ℕ))
        → split_last segments ≡ o
        → Puts sha256 fetch entry segments (elim o [
          | none ↦ (root, err put_root)
          | some (dirs, name) ↦ navigate fetch true (insert_entry fetch name entry) root dirs
        ])
    go none e = tt
    go (some (dirs, name)) e =
        subst
          (λ path.
            Puts sha256 fetch entry path
              (navigate fetch true (insert_entry fetch name entry) root dirs))
          (sym (split_last-join segments dirs name e))
          (walk-navigate sha256 fetch name entry dirs root)
