-- ===== src/Duckfs/Fs/Keeps/Tables.antt =====
-- The pins and the watches of crates/duckfs/core/src/fs.rs and the bounds of the refs.
use ducktape_sdk.Prelude.{
  ℕ, ◌≡◌, refl, sym, ap, subst, ◌∙◌, List, [], ◌∷◌, ◌++◌, arith, inl, inr, Bool-cases,
}
use ducktape_sdk.Bytes.Order.{bytes_order, pair_order}
use ducktape_sdk.BTree.{insert, remove, contains_key}
use ducktape_sdk.BTree.Lookup.{insert-IsAscending, remove-IsAscending}
use ducktape_sdk.Parser.{Result, ok, err}
use ducktape_sdk.Duckfs.Errors.{FilesError}
use ducktape_sdk.Duckfs.Results.{bind-ok, ok-eq, err-ok, ok_or-ok, deny_if-ok}
use ducktape_sdk.Duckfs.Codec.Rules.{IsText}
use ducktape_sdk.Duckfs.Actor.{Authority, actor}
use ducktape_sdk.Duckfs.Actor.RoundTrip.{IsActor}
use ducktape_sdk.Duckfs.Refs.{PinEntry, Refs, Watch, pin_entry_len, watch_entry_len}
use ducktape_sdk.Duckfs.Refs.Sections.{IsPin}
use ducktape_sdk.Duckfs.Refs.Watches.{IsWatch}
use ducktape_sdk.Duckfs.Paths.{Segments, slash, canonical}
use ducktape_sdk.Duckfs.Paths.Canonical.{render, canonical_iff}
use ducktape_sdk.Duckfs.Paths.Canonical.Split.{intercalate}
use ducktape_sdk.Duckfs.Hex.RoundTrip.{from_hex_32-to_hex_iff}
use ducktape_sdk.Duckfs.Tree.Resolve.{Store}
use ducktape_sdk.Duckfs.Fs.{Caps, Pending, sweep_expired}
use ducktape_sdk.Duckfs.Fs.Tables.{
  land, refs_verb, plan_pin, pin_apply, plan_unpin, unpin_apply, join_slash, join_segs,
  canonical_watch_prefix, plan_watch, watch_apply, plan_unwatch, unwatch_apply,
}
use ducktape_sdk.Duckfs.Fs.Reserved.{
  IsBounded, pins-IsBounded, watches-IsBounded, pins_of, watches_of,
}
use ducktape_sdk.Duckfs.Fs.Reserved.Maps.{
  All-insert, All-remove, length-insert_new, sum_by-insert_new, length-remove, sum_by-remove,
}
use ducktape_sdk.Duckfs.Fs.Keeps.{sweep-IsBounded, Keeps}
use ducktape_sdk.Duckfs.Fs.Keeps.Staging.{growth-fits}

-- A plan whose refs are bounded whenever it succeeds.
abbrev PlanKeeps : ℕ → (Refs → Result FilesError Refs) → Type 0
PlanKeeps cap plan =
    (refs next : Refs) → IsBounded cap refs → plan refs ≡ ok next → IsBounded cap next

refs_verb-Keeps :
    (cap height : ℕ) (plan : Refs → Result FilesError Refs)
    → PlanKeeps cap plan
    → Keeps cap (refs_verb height plan)
unfolding refs_verb
refs_verb-Keeps cap height plan keeps pending h = go (plan (sweep_expired height pending.refs)) refl
  where
    swept : Pending
    swept = record pending { refs = sweep_expired height pending.refs }

    kept : IsBounded cap (sweep_expired height pending.refs)
    kept = sweep-IsBounded cap height pending.refs h

    go :
        (r : Result FilesError Refs)
        → plan (sweep_expired height pending.refs) ≡ r
        → IsBounded cap (land swept r).0.refs
    go (err e) p = kept
    go (ok refs) p = keeps _ refs kept p

module _ (sha256 : List ℕ → List ℕ) (caps : Caps) (store : Store) (authority : Authority)
    (owner_ok : IsActor (actor authority)) where
  plan_pin-keeps :
      (snapshot name : List ℕ)
      → IsText name
      → PlanKeeps caps.window_cap (plan_pin sha256 caps store authority snapshot name)
  unfolding plan_pin
  plan_pin-keeps snapshot name text refs next h p =
      let (_, _, p) = bind-ok _ _ _ p in
      let (_, _, p) = bind-ok _ _ _ p in
      let (_, full, p) = bind-ok _ _ _ p in
      let (_, exists, p) = bind-ok _ _ _ p in
      let (_, _, p) = bind-ok _ _ _ p in
      let (id, hex, p) = bind-ok _ _ _ p in
      let (_, _, p) = bind-ok _ _ _ p in
      let (_, _, p) = bind-ok _ _ _ p in
      let (u, growth, p) = bind-ok _ _ _ p in
      let new = deny_if-ok _ _ _ exists in
      let room = deny_if-ok _ _ _ full in
      let id_ok = ((from_hex_32-to_hex_iff snapshot id).0 (ok_or-ok _ _ _ hex)).0 in
      let entry : PinEntry = record { snapshot = id; owner = actor authority } in
      let (asc, valid, _) = pins_of h.valid in
      let has =
        pins-IsBounded caps.window_cap (pin_entry_len name (actor authority)) refs h
          (growth-fits refs _ _ u growth) (insert name entry refs.pins)
          (
            insert-IsAscending name entry refs.pins asc,
            All-insert IsPin name entry refs.pins (text, id_ok, owner_ok) valid,
            ground (arith, length-insert_new name entry refs.pins new),
          )
          (omega (
            arith,
            sum_by-insert_new (λ e. pin_entry_len e.0 e.1.owner) name entry refs.pins new,
          )) in
      subst (IsBounded caps.window_cap) (ok-eq _ _ p) has

  pub pin_apply-Keeps :
      (height : ℕ) (snapshot name : List ℕ)
      → IsText name
      → Keeps caps.window_cap (pin_apply sha256 caps store authority height snapshot name)
  unfolding pin_apply
  pin_apply-Keeps height snapshot name text =
      refs_verb-Keeps caps.window_cap height _ (plan_pin-keeps snapshot name text)

plan_unpin-keeps : (cap : ℕ) (name : List ℕ) → PlanKeeps cap (plan_unpin name)
unfolding plan_unpin
plan_unpin-keeps cap name refs next h p = elim (Bool-cases (contains_key name refs.pins)) [
  | inl there ↦
      let (asc, valid, count) = pins_of h.valid in
      let has =
        pins-IsBounded cap 0 refs h (omega (arith, h.room)) (remove name refs.pins)
          (
            remove-IsAscending name refs.pins asc,
            All-remove IsPin name refs.pins valid,
            omega (arith, length-remove name refs.pins, count),
          )
          (omega (arith, sum_by-remove (λ e. pin_entry_len e.0 e.1.owner) name refs.pins)) in
      subst (IsBounded cap) (ok-eq _ _ (rw there at p)) has
  | inr absent ↦ absurd (err-ok _ _ (rw absent at p))
]

pub unpin_apply-Keeps : (cap height : ℕ) (name : List ℕ) → Keeps cap (unpin_apply height name)
unfolding unpin_apply
unpin_apply-Keeps cap height name = refs_verb-Keeps cap height _ (plan_unpin-keeps cap name)

join_slash-intercalate : (segments : Segments) → join_slash segments ≡ intercalate segments
unfolding join_slash
join_slash-intercalate [] = refl
join_slash-intercalate (s ∷ []) = refl
join_slash-intercalate (s ∷ t ∷ segments) =
    ap (λ z. s ++ (slash ∷ z)) (join_slash-intercalate (t ∷ segments))

pub join_segs-render : (segments : Segments) → join_segs segments ≡ render segments
unfolding join_segs
join_segs-render [] = ap (λ z. slash ∷ z) (join_slash-intercalate [])
join_segs-render (s ∷ segments) = ap (λ z. slash ∷ z) (join_slash-intercalate (s ∷ segments))

-- What `canonical` accepts joins back to itself.
pub join_segs-canonical :
    (nfc : List ℕ → List ℕ) (path : List ℕ) (segments : Segments)
    → canonical nfc path ≡ ok segments
    → join_segs segments ≡ path
join_segs-canonical nfc path segments h =
    join_segs-render segments ∙ sym ((canonical_iff nfc path segments).0 h).0

module _ (nfc : List ℕ → List ℕ) (authority : Authority) where
  prefix-same :
      (prefix stored : List ℕ) → canonical_watch_prefix nfc prefix ≡ ok stored → stored ≡ prefix
  unfolding canonical_watch_prefix
  prefix-same prefix stored h =
      let (segments, parsed, e) = bind-ok _ _ _ h in
      sym (ok-eq _ _ e) ∙ join_segs-canonical nfc prefix segments parsed

  plan_watch-keeps :
      (caps : Caps) (prefix module_id : List ℕ)
      → IsText prefix
      → IsText module_id
      → PlanKeeps caps.window_cap (plan_watch nfc caps authority prefix module_id)
  unfolding plan_watch
  plan_watch-keeps caps prefix module_id text id_text refs next h p =
      let (_, _, p) = bind-ok _ _ _ p in
      let (_, _, p) = bind-ok _ _ _ p in
      let (_, _, p) = bind-ok _ _ _ p in
      let (stored, parsed, p) = bind-ok _ _ _ p in
      let (_, full, p) = bind-ok _ _ _ p in
      let (_, exists, p) = bind-ok _ _ _ p in
      let (u, growth, p) = bind-ok _ _ _ p in
      let new = deny_if-ok _ _ _ exists in
      let room = deny_if-ok _ _ _ full in
      let same = prefix-same prefix stored parsed in
      let (asc, valid, _) = watches_of h.valid in
      let watch : Watch = (stored, module_id) in
      let has =
        watches-IsBounded caps.window_cap (watch_entry_len stored module_id) refs h
          (growth-fits refs _ _ u growth) (insert watch tt refs.watches)
          (
            insert-IsAscending watch tt refs.watches asc,
            All-insert IsWatch watch tt refs.watches (subst IsText (sym same) text, id_text) valid,
            ground (arith, length-insert_new watch tt refs.watches new),
          )
          (omega (
            arith,
            sum_by-insert_new (λ e. watch_entry_len e.0.0 e.0.1) watch tt refs.watches new,
          )) in
      subst (IsBounded caps.window_cap) (ok-eq _ _ p) has

  pub watch_apply-Keeps :
      (caps : Caps) (height : ℕ) (prefix module_id : List ℕ)
      → IsText prefix
      → IsText module_id
      → Keeps caps.window_cap (watch_apply nfc caps authority height prefix module_id)
  unfolding watch_apply
  watch_apply-Keeps caps height prefix module_id text id_text =
      refs_verb-Keeps caps.window_cap height _ (plan_watch-keeps caps prefix module_id text id_text)

  plan_unwatch-keeps :
      (cap : ℕ) (prefix module_id : List ℕ)
      → PlanKeeps cap (plan_unwatch nfc authority prefix module_id)
  unfolding plan_unwatch
  plan_unwatch-keeps cap prefix module_id refs next h p =
      let (_, _, p) = bind-ok _ _ _ p in
      let (stored, _, p) = bind-ok _ _ _ p in
      let (_, _, p) = bind-ok _ _ _ p in
      let (asc, valid, count) = watches_of h.valid in
      let watch : Watch = (stored, module_id) in
      let has =
        watches-IsBounded cap 0 refs h (omega (arith, h.room)) (remove watch refs.watches)
          (
            remove-IsAscending watch refs.watches asc,
            All-remove IsWatch watch refs.watches valid,
            omega (arith, length-remove watch refs.watches, count),
          )
          (omega (arith, sum_by-remove (λ e. watch_entry_len e.0.0 e.0.1) watch refs.watches)) in
      subst (IsBounded cap) (ok-eq _ _ p) has

  pub unwatch_apply-Keeps :
      (cap height : ℕ) (prefix module_id : List ℕ)
      → Keeps cap (unwatch_apply nfc authority height prefix module_id)
  unfolding unwatch_apply
  unwatch_apply-Keeps cap height prefix module_id =
      refs_verb-Keeps cap height _ (plan_unwatch-keeps cap prefix module_id)
