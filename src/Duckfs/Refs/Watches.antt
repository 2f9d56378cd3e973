-- ===== src/Duckfs/Refs/Watches.antt =====
-- The watches of the refs image. The decoder keeps the last watch beside the set: it is always the
-- set's last element.
use ducktape_sdk.Prelude.{
  ℕ, ◌≡◌, refl, sym, ap, ap₂, subst, ◌∙◌, false, not, Option, none, some, [], ◌∷◌, ◌++◌, length,
  concat_map, All,
}
use ducktape_sdk.Bytes.Order.{bytes_order, pair_order}
use ducktape_sdk.BTree.{BTreeMap, insert, last_key, last_not_below, IsAscending}
use ducktape_sdk.BTree.Append
use ducktape_sdk.BTree.Append.{
  Fits, Chain-ascends, ascends-Chain, last_key-insert, IsAscending-insert,
}
use ducktape_sdk.Parser.{for_each, View, push_all, Chain}
use ducktape_sdk.Parser.Reads.{Reads, Reads-bind, Reads-checked, Reads-for_each}
use ducktape_sdk.Parser.Parses.{
  Parses, Parses-bind, Parses-checked, Parses-for_each, Parses-weaken, Appends,
}
use ducktape_sdk.Duckfs.Errors.{watches_not_ascending}
use ducktape_sdk.Duckfs.Codec.{Reader, string, frame_view}
use ducktape_sdk.Duckfs.Codec.Rules.{IsText}
use ducktape_sdk.Duckfs.Codec.Fields.{string_codes}
use ducktape_sdk.Duckfs.Refs.{Watch, encode_watch, watch_not_above, read_watch}

abbrev v : View Reader
v = frame_view

abbrev Set : Type 0
Set = BTreeMap Watch (Unit {0})

abbrev Loop : Type 0
Loop = Option Watch × Set

abbrev pub IsWatch : Watch × Unit {0} → Type 0
IsWatch ((prefix, module_id), _) = IsText prefix × IsText module_id

abbrev push : Loop → Watch × Unit {0} → Loop
push (last, m) (w, u) = (some w, insert w u m)

abbrev Passes : Loop → Watch × Unit {0} → Type 0
Passes (last, m) (w, u) = (watch_not_above last w ≡ false) × IsWatch (w, u)

Reads-watch :
    (c : Loop) (x : Watch × Unit {0})
    → Passes c x
    → Reads v (read_watch c) (encode_watch x) (push c x)
unfolding read_watch
Reads-watch (last, m) ((prefix, module_id), u) (above, (p, q)) =
    Reads-bind v _ _ (string_codes.reads prefix p) (
      Reads-checked v string (λ id. watch_not_above last (prefix, id)) watches_not_ascending _
        (string_codes.reads module_id q) above)

parses_watch :
    (c : Loop) → Parses v (read_watch c) (Appends v encode_watch push Passes read_watch c)
unfolding read_watch
parses_watch (last, m) = Parses-bind v _ _ string_codes.parses λ prefix xs (e, p).
    Parses-checked v string (λ id. watch_not_above last (prefix, id)) watches_not_ascending _ _
      string_codes.parses
      λ module_id ys (e1, q) above.
        (((prefix, module_id), tt), refl, (above, (p, q)), ap₂ ◌++◌ e e1)

-- The test against the last watch is the test against the set's last element.
not_above_eq : (m : Set) (w : Watch) → watch_not_above (last_key m) w ≡ last_not_below w m
unfolding last_not_below
not_above_eq m w = go (last_key m)
  where
    go :
        (o : Option Watch)
        → watch_not_above o w ≡ elim o [ none ↦ false | some l ↦ not (pair_order.less l w) ]
    go none = refl
    go (some l) = refl

to_map :
    (last : Option Watch) (m xs : Set)
    → last ≡ last_key m
    → IsAscending m
    → Chain push Passes (last, m) xs
    → Chain (Append.snoc IsWatch) (Fits IsWatch) m xs
      × ((push_all push (last, m) xs).1 ≡ push_all (Append.snoc IsWatch) m xs)
to_map last m [] e a h = (tt, refl)
to_map last m ((w, u) ∷ xs) e a ((above, valid), h) =
    let fits : last_not_below w m ≡ false =
      sym (ap (λ o. watch_not_above o w) e ∙ not_above_eq m w) ∙ above in
    let (chain, eq) =
      to_map (some w) (insert w u m) xs (sym (last_key-insert w u m a fits))
        (IsAscending-insert w u m a fits) h in
    (((fits, valid), chain), eq)

from_map :
    (last : Option Watch) (m xs : Set)
    → last ≡ last_key m
    → IsAscending m
    → Chain (Append.snoc IsWatch) (Fits IsWatch) m xs
    → Chain push Passes (last, m) xs
from_map last m [] e a h = tt
from_map last m ((w, u) ∷ xs) e a ((fits, valid), h) = (
  ((ap (λ o. watch_not_above o w) e ∙ not_above_eq m w ∙ fits), valid),
  from_map (some w) (insert w u m) xs (sym (last_key-insert w u m a fits))
      (IsAscending-insert w u m a fits) h,
)

pub watches-Reads :
    (m : Set)
    → IsAscending m
    → All IsWatch m
    → (last : Option Watch) × Reads v
        (for_each (length m) read_watch (none, []))
        (concat_map encode_watch m)
        (last, m)
unfolding last_key
watches-Reads m a h =
    let chain = ascends-Chain IsWatch [] m a h in
    let loop = from_map none [] m refl tt chain in
    let eq = (to_map none [] m refl tt loop).1 ∙ (Chain-ascends IsWatch [] m tt chain).0 in
    (
      (push_all push (none, []) m).0,
      subst
          (λ s.
            Reads v (for_each (length m) read_watch (none, [])) (concat_map encode_watch m)
              ((push_all push (none, []) m).0, s))
          eq (Reads-for_each v encode_watch push Passes read_watch Reads-watch m (none, []) loop),
    )

pub watches_parses :
    (n : ℕ)
    → Parses v (for_each n read_watch (none, [])) (λ ys c.
      (ys ≡ concat_map encode_watch c.1) × (length c.1 ≡ n) × IsAscending c.1 × All IsWatch c.1)
unfolding last_key
watches_parses n =
    Parses-weaken v _
      (Parses-for_each v encode_watch push Passes read_watch parses_watch n (none, []))
      λ ys c (xs, len, c_eq, loop, ys_eq).
        let (chain, eq) = to_map none [] xs refl tt loop in
        let (all_eq, asc, valid) = Chain-ascends IsWatch [] xs tt chain in
        let e : xs ≡ c.1 = sym (ap (λ (d : Loop). d.1) c_eq ∙ eq ∙ all_eq) in
        (
          ys_eq ∙ ap (concat_map encode_watch) e,
          ap length (sym e) ∙ len,
          subst IsAscending e asc,
          subst (All IsWatch) e valid,
        )
