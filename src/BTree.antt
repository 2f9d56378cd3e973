-- ===== src/BTree.antt =====
-- `BTreeMap` of Rust's standard library: an association list in strictly ascending key order. A
-- `BTreeSet` is a map to `Unit`.
pub mod Append
pub mod Lookup
use ducktape_sdk.Prelude.{
  ◌≡◌, Bool, true, false, not, Option, none, some, List, [], ◌∷◌, All, if◌then◌else◌,
}
use ducktape_sdk.Bytes.Order.{Order}

abbrev pub BTreeMap {ℓ κ} : Type ℓ → Type κ → Type (ℓ ⊔ κ)
BTreeMap K V = List (K × V)

module _ {ℓ κ} {K : Type ℓ} {V : Type κ} ⦃o : Order K⦄ where
  unfoldable pub get : K → BTreeMap K V → Option V
  get k [] = none
  get k ((j, v) ∷ m) = if o.less k j then none else if o.less j k then get k m else some v

  unfoldable pub contains_key : K → BTreeMap K V → Bool
  unfolding get
  contains_key k m = elim (get k m) [ none ↦ false | some v ↦ true ]

  unfoldable pub insert : K → V → BTreeMap K V → BTreeMap K V
  insert k v [] = (k, v) ∷ []
  insert k v ((j, w) ∷ m) =
      if o.less k j
      then (k, v) ∷ (j, w) ∷ m
      else if o.less j k
      then (j, w) ∷ insert k v m
      else (k, v) ∷ m

  unfoldable pub remove : K → BTreeMap K V → BTreeMap K V
  remove k [] = []
  remove k ((j, w) ∷ m) =
      if o.less k j then (j, w) ∷ m else if o.less j k then (j, w) ∷ remove k m else m

  unfoldable pub last_key : BTreeMap K V → Option K
  last_key [] = none
  last_key ((k, v) ∷ []) = some k
  last_key ((k, v) ∷ e ∷ m) = last_key (e ∷ m)

  -- `last_key_value().is_some_and(|(last, _)| last >= key)`
  unfoldable pub last_not_below : K → BTreeMap K V → Bool
  unfolding last_key
  last_not_below k m = elim (last_key m) [ none ↦ false | some l ↦ not (o.less l k) ]

  -- Every key of the map is above `k`.
  abbrev pub Above : K → BTreeMap K V → Type 0
  Above k = All (λ e. o.less k e.0 ≡ true)

  -- The keys ascend strictly: what every `BTreeMap` satisfies.
  abbrev pub IsAscending : BTreeMap K V → Type 0
  IsAscending [] = Unit
  IsAscending ((k, v) ∷ m) = Above k m × IsAscending m
