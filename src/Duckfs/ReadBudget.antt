-- ===== src/Duckfs/ReadBudget.antt =====
-- `ReadBudget` and `Store` of crates/duckfs/core/src/tree.rs: the reads of one operation through the
-- block's pending objects, and the cap on the distinct committed objects that they touch. The state
-- behind `RefCell` is passed along; the backing object store is the parameter `backing`.
pub mod Charges
use ducktape_sdk.Prelude.{
  ℕ, ◌+◌, Bool, true, false, Option, none, some, List, [], ◌∷◌, length, ltb, if◌then◌else◌,
}
use ducktape_sdk.Bytes.Order.{bytes_order, bytes_eq}
use ducktape_sdk.BTree.{BTreeMap, contains_key, insert}
use ducktape_sdk.Parser.{Result, ok, err}
use ducktape_sdk.Duckfs.Errors.{FilesError, object_read_budget_exceeded}
use ducktape_sdk.Duckfs.Kind.{Kind}
use ducktape_sdk.Duckfs.Objects.{ObjectId}
use ducktape_sdk.Duckfs.Store.{object_id}
use ducktape_sdk.Duckfs.BlockObjects.{Index}

abbrev pub Ids : Type 0
Ids = BTreeMap ObjectId (Unit {0})

pub record ReadBudget : Type 0 where
  pub block_index : Index
  pub cap : ℕ
  pub gets : Ids
  pub stats : Ids

unfoldable pub new : Index → ℕ → ReadBudget
new block_index cap = record { block_index = block_index; cap = cap; gets = []; stats = [] }

unfoldable pub check : ReadBudget → Result FilesError (Unit {0})
check b =
    if ltb b.cap (length b.gets + length b.stats) then err object_read_budget_exceeded else ok tt

abbrev pub with_get : ObjectId → ReadBudget → ReadBudget
with_get id b = record {
  block_index = b.block_index;
  cap = b.cap;
  gets = insert id tt b.gets;
  stats = b.stats;
}

abbrev pub with_stat : ObjectId → ReadBudget → ReadBudget
with_stat id b = record {
  block_index = b.block_index;
  cap = b.cap;
  gets = b.gets;
  stats = insert id tt b.stats;
}

unfoldable pub charge_get : ObjectId → ReadBudget → ReadBudget × Result FilesError (Unit {0})
charge_get id b =
    if contains_key id b.block_index then (b, ok tt) else (with_get id b, check (with_get id b))

unfoldable pub charge_stat : ObjectId → ReadBudget → ReadBudget × Result FilesError (Unit {0})
charge_stat id b =
    if contains_key id b.block_index then (b, ok tt) else (with_stat id b, check (with_stat id b))

-- `charge` on the budget of a `Store`, which only the execute path carries.
abbrev pub charge_if :
    (ReadBudget → ReadBudget × Result FilesError (Unit {0}))
    → Option ReadBudget
    → Option ReadBudget × Result FilesError (Unit {0})
charge_if charge none = (none, ok tt)
charge_if charge (some b) = let (b', r) = charge b in (some b', r)

module _ (sha256 : List ℕ → List ℕ) where
  unfoldable pub find_pending : List (Kind × List ℕ) → ObjectId → Option (Kind × List ℕ)
  find_pending [] id = none
  find_pending ((kind, body) ∷ pending) id =
      let rest = find_pending pending id in
      if bytes_eq (object_id sha256 kind body) id then some (kind, body) else rest

  -- What `backing.get` answers.
  abbrev pub Fetch : Type 0
  Fetch = ObjectId → Result FilesError (Option (Kind × List ℕ))

  unfoldable pub get :
      Fetch
      → List (Kind × List ℕ)
      → Option ReadBudget
      → ObjectId
      → Option ReadBudget × Result FilesError (Option (Kind × List ℕ))
  get backing pending budget id = elim (find_pending pending id) [
    | some object ↦ (budget, ok (some object))
    | none ↦
        let (budget', charged) = charge_if (charge_get id) budget in
        elim charged [ err e ↦ (budget', err e) | ok u ↦ (budget', backing id) ]
  ]

unfoldable pub has_committed :
    (ObjectId → Bool) → Option ReadBudget → ObjectId → Option ReadBudget × Result FilesError Bool
has_committed has budget id =
    let (budget', charged) = charge_if (charge_stat id) budget in
    elim charged [ err e ↦ (budget', err e) | ok u ↦ (budget', ok (has id)) ]
