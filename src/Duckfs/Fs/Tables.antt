-- ===== src/Duckfs/Fs/Tables.antt =====
-- `pin_apply`, `unpin_apply`, `watch_apply` and `unwatch_apply` of crates/duckfs/core/src/fs.rs. Each
-- sweeps, checks, and changes the refs once.
use ducktape_sdk.Prelude.{ℕ, suc, not, List, [], ◌∷◌, ◌++◌, length, leb, ltb, ◌==◌, if◌then◌else◌}
use ducktape_sdk.Bytes.Order.{bytes_order, pair_order, bytes_eq}
use ducktape_sdk.BTree.{BTreeMap, insert, remove, contains_key}
use ducktape_sdk.Parser.{Result, ok, err}
use ducktape_sdk.Duckfs.Limits.{
  max_pin_name_bytes, max_pins, max_pins_per_owner, max_watches, max_watch_module_id_bytes,
}
use ducktape_sdk.Duckfs.Errors.{
  FilesError, pin_name_empty, pin_name_over_cap, pin_table_full, pin_exists, pin_quota_exceeded,
  snapshot_not_resolvable, pin_not_found, watch_module_only, watch_itself_only, watch_id_empty,
  watch_id_over_cap, watch_table_full, watch_exists, watch_not_found,
}
use ducktape_sdk.Duckfs.Results.{◌>>=◌, ◌>>◌, ok_or, deny_if}
use ducktape_sdk.Duckfs.Actor.{
  Authority, external, program, mod_authority, system_authority, actor, controls,
}
use ducktape_sdk.Duckfs.Refs.{PinEntry, Refs, Watch, pin_entry_len, watch_entry_len}
use ducktape_sdk.Duckfs.Paths.{Segments, slash, canonical}
use ducktape_sdk.Duckfs.Hex.{from_hex_32}
use ducktape_sdk.Duckfs.Tree.Resolve.{Store}
use ducktape_sdk.Duckfs.Fs.{
  Caps, Pending, Verb, sweep_expired, refuse_refs_growth, refs_contains_snapshot,
}

-- The overlay once the checks are done.
abbrev pub land : Pending → Result FilesError Refs → Pending × Result FilesError (Unit {0})
land swept (err e) = (swept, err e)
land swept (ok refs) = (record swept { refs = refs }, ok tt)

-- A verb that only changes the refs: `plan` is its checks, and the refs that it leaves when they pass.
unfoldable pub refs_verb : ℕ → (Refs → Result FilesError Refs) → Verb (Unit {0})
refs_verb height plan pending =
    let swept = record pending { refs = sweep_expired height pending.refs } in
    land swept (plan swept.refs)

unfoldable pub owner_pins : Authority → BTreeMap (List ℕ) PinEntry → ℕ
owner_pins authority [] = 0
owner_pins authority ((name, pin) ∷ pins) =
    let rest = owner_pins authority pins in if controls authority pin.owner then suc rest else rest

abbrev pub with_pin : List ℕ → PinEntry → Refs → Refs
with_pin name pin refs = record refs { pins = insert name pin refs.pins }

module _ (sha256 : List ℕ → List ℕ) where
  unfoldable pub plan_pin :
      Caps → Store → Authority → List ℕ → List ℕ → Refs → Result FilesError Refs
  plan_pin caps store authority snapshot name refs = do
    deny_if (length name == 0) pin_name_empty
    deny_if (ltb max_pin_name_bytes (length name)) pin_name_over_cap
    deny_if (leb max_pins (length refs.pins)) pin_table_full
    deny_if (contains_key name refs.pins) pin_exists
    deny_if (leb max_pins_per_owner (owner_pins authority refs.pins)) pin_quota_exceeded
    id ← ok_or (from_hex_32 snapshot) snapshot_not_resolvable
    resolves ← refs_contains_snapshot sha256 refs store id
    deny_if (not resolves) snapshot_not_resolvable
    refuse_refs_growth refs (pin_entry_len name (actor authority)) caps.window_cap
    ok (with_pin name (record { snapshot = id; owner = actor authority }) refs)

  unfoldable pub pin_apply : Caps → Store → Authority → ℕ → List ℕ → List ℕ → Verb (Unit {0})
  pin_apply caps store authority height snapshot name =
      refs_verb height (plan_pin caps store authority snapshot name)

unfoldable pub plan_unpin : List ℕ → Refs → Result FilesError Refs
plan_unpin name refs =
    if contains_key name refs.pins
    then ok (record refs { pins = remove name refs.pins })
    else err pin_not_found

unfoldable pub unpin_apply : ℕ → List ℕ → Verb (Unit {0})
unpin_apply height name = refs_verb height (plan_unpin name)

unfoldable pub watch_origin_gate : Authority → List ℕ → Result FilesError (Unit {0})
watch_origin_gate system_authority module_id = ok tt
watch_origin_gate (mod_authority m) module_id =
    if not (bytes_eq m module_id) then err watch_itself_only else ok tt
watch_origin_gate (external k account_of) module_id = err watch_module_only
watch_origin_gate (program number) module_id = err watch_module_only

-- `segs.join("/")`
unfoldable pub join_slash : Segments → List ℕ
join_slash [] = []
join_slash (segment ∷ []) = segment
join_slash (segment ∷ next ∷ segments) = segment ++ (slash ∷ join_slash (next ∷ segments))

unfoldable pub join_segs : Segments → List ℕ
join_segs segments = slash ∷ join_slash segments

abbrev pub with_watch : Watch → Refs → Refs
with_watch watch refs = record refs { watches = insert watch tt refs.watches }

module _ (nfc : List ℕ → List ℕ) where
  unfoldable pub canonical_watch_prefix : List ℕ → Result FilesError (List ℕ)
  canonical_watch_prefix prefix = canonical nfc prefix >>= λ segments. ok (join_segs segments)

  unfoldable pub plan_watch : Caps → Authority → List ℕ → List ℕ → Refs → Result FilesError Refs
  plan_watch caps authority prefix module_id refs = do
    watch_origin_gate authority module_id
    deny_if (length module_id == 0) watch_id_empty
    deny_if (ltb max_watch_module_id_bytes (length module_id)) watch_id_over_cap
    prefix' ← canonical_watch_prefix prefix
    deny_if (leb max_watches (length refs.watches)) watch_table_full
    deny_if (contains_key (prefix', module_id) refs.watches) watch_exists
    refuse_refs_growth refs (watch_entry_len prefix' module_id) caps.window_cap
    ok (with_watch (prefix', module_id) refs)

  unfoldable pub watch_apply : Caps → Authority → ℕ → List ℕ → List ℕ → Verb (Unit {0})
  watch_apply caps authority height prefix module_id =
      refs_verb height (plan_watch caps authority prefix module_id)

  unfoldable pub plan_unwatch : Authority → List ℕ → List ℕ → Refs → Result FilesError Refs
  plan_unwatch authority prefix module_id refs = do
    watch_origin_gate authority module_id
    prefix' ← canonical_watch_prefix prefix
    deny_if (not (contains_key (prefix', module_id) refs.watches)) watch_not_found
    ok (record refs { watches = remove (prefix', module_id) refs.watches })

  unfoldable pub unwatch_apply : Authority → ℕ → List ℕ → List ℕ → Verb (Unit {0})
  unwatch_apply authority height prefix module_id =
      refs_verb height (plan_unwatch authority prefix module_id)
