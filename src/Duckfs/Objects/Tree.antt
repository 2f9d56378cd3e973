-- ===== src/Duckfs/Objects/Tree.antt =====
-- `TreeObj`: what `decode` reads of what `encode` wrote.
use ducktape_sdk.Prelude.{
  ℕ, ◌^◌, ◌≤◌, ◌<◌, ◌≡◌, refl, ap, ap₂, subst, sym, ◌∙◌, Bool, true, false, Option, none, some,
  List, [], ◌∷◌, ◌++◌, length, ltb, All, le→ltb_false, ltb_false→le, arith, append-nil,
}
use ducktape_sdk.Bytes.{to_le_bytes}
use ducktape_sdk.Bytes.Order.{bytes_order}
use ducktape_sdk.BTree.{insert, last_not_below, IsAscending}
use ducktape_sdk.Parser.{View}
use ducktape_sdk.Parser.Reads.{Reads, Reads-pure, Reads-bind, Reads-map, Reads-last, Reads-guard}
use ducktape_sdk.Parser.Parses.{
  Codes, Parses, Parses-pure, Parses-bind, Parses-map, Parses-guard, Parses-fail,
}
use ducktape_sdk.Parser.Ints.{IsArray}
use ducktape_sdk.Parser.Seq.{map-Reads, map_parses, EntryReads, EntryParses}
use ducktape_sdk.Duckfs.Limits.{max_dir_entries, max_name_bytes}
use ducktape_sdk.Duckfs.Errors.{
  tree_count_over_cap, tree_name_over_cap, tree_unknown_kind, tree_not_ascending,
}
use ducktape_sdk.Duckfs.Codec.{Reader, push_u32, boolean, frame_view}
use ducktape_sdk.Duckfs.Codec.Rules.{IsText, u8_codes, u32_codes, u64_codes, bytes32_codes}
use ducktape_sdk.Duckfs.Codec.Fields.{string_codes, boolean_codes, bool_byte}
use ducktape_sdk.Duckfs.EntryKind
use ducktape_sdk.Duckfs.EntryKind.{EntryKind, from_u8-tag_iff, tag_byte}
use ducktape_sdk.Duckfs.Objects.{
  TreeEntry, Entries, byte_of_bool, known_kind, encode_entry, encode_tree, read_entry, read_tree,
}

abbrev v : View Reader
v = frame_view

abbrev pub IsEntry : List ℕ × TreeEntry → Type 0
IsEntry (name, entry) =
    IsText name × (length name ≤ max_name_bytes) × IsArray 32 entry.id × (entry.size < 2 ^ 64)

-- What the decoder admits.
pub record IsTree (entries : Entries) : Type 0 where
  pub ascends : IsAscending entries
  pub valid : All IsEntry entries
  pub cap : length entries ≤ max_dir_entries

bool_byte_eq : (b : Bool) → byte_of_bool b ∷ [] ≡ bool_byte b
bool_byte_eq true = refl
bool_byte_eq false = refl

Reads-exec : (b : Bool) → Reads v boolean (byte_of_bool b ∷ []) b
Reads-exec true = boolean_codes.reads true tt
Reads-exec false = boolean_codes.reads false tt

Reads-kind :
    (k : EntryKind) (tag : ℕ)
    → tag ≡ EntryKind.tag k
    → Reads v (known_kind (EntryKind.from_u8 tag)) [] k
Reads-kind k tag e =
    subst (λ o. Reads v (known_kind o) [] k) (sym ((from_u8-tag_iff tag k).1 e)) (Reads-pure v k)

parses_kind :
    (tag : ℕ)
    → Parses v (known_kind (EntryKind.from_u8 tag)) (λ xs k. (xs ≡ []) × (tag ≡ EntryKind.tag k))
parses_kind tag = go (EntryKind.from_u8 tag) refl
  where
    go :
        (o : Option EntryKind)
        → EntryKind.from_u8 tag ≡ o
        → Parses v (known_kind o) (λ xs k. (xs ≡ []) × (tag ≡ EntryKind.tag k))
    go none e = Parses-fail v _ tree_unknown_kind
    go (some k) e = Parses-pure v _ (refl, (from_u8-tag_iff tag k).0 e)

reads-IsEntry : EntryReads v encode_entry IsEntry read_entry
unfolding read_entry encode_entry
reads-IsEntry m (name, entry) (asc, (t, cap, id, size)) =
    Reads-bind v _ _ (string_codes.reads name t) (
      Reads-guard v (ltb max_name_bytes (length name)) tree_name_over_cap (le→ltb_false _ _ cap) (
        Reads-bind v _ _ (u8_codes.reads (EntryKind.tag entry.kind) (tag_byte entry.kind)) (
          Reads-bind v _ _ (Reads-kind entry.kind (EntryKind.tag entry.kind) refl) (
            Reads-bind v _ _ (bytes32_codes.reads entry.id id) (
              Reads-bind v _ _ (Reads-exec entry.exec) (
                Reads-last v _ _ (u64_codes.reads entry.size size) (
                  Reads-guard v (last_not_below name m) tree_not_ascending asc
                    (Reads-pure v (insert name entry m)))))))))

parses-IsEntry : EntryParses v encode_entry IsEntry read_entry
unfolding read_entry encode_entry
parses-IsEntry m = Parses-bind v _ _ string_codes.parses λ name xs (e, t).
    Parses-guard v (ltb max_name_bytes (length name)) tree_name_over_cap λ cap.
      Parses-bind v _ _ u8_codes.parses λ tag ts (e1, _).
        Parses-bind v _ _ (parses_kind tag) λ kind ks (k_eq, tag_eq).
          Parses-bind v _ _ bytes32_codes.parses λ id ys (e2, id_ok).
            Parses-bind v _ _ boolean_codes.parses λ exec bs (e3, _).
              Parses-bind v _ _ u64_codes.parses λ size zs (e4, fits).
                Parses-guard v (last_not_below name m) tree_not_ascending λ asc.
                  let entry : TreeEntry = record {
                    kind = kind;
                    id = id;
                    exec = exec;
                    size = size;
                  } in
                  Parses-pure v _ {a = insert name entry m} (
                    (name, entry),
                    refl,
                    (asc, (t, ltb_false→le _ _ cap, id_ok, fits)),
                    ap₂ ◌++◌ e (
                        ap₂ ◌++◌ (e1 ∙ ap (λ n. n ∷ []) tag_eq) (
                          ap₂ ◌++◌ k_eq (
                            ap₂ ◌++◌ e2
                              (ap₂ ◌++◌ (e3 ∙ sym (bool_byte_eq exec)) (append-nil zs ∙ e4))))),
                  )

pub IsTree-codes : Codes v read_tree encode_tree IsTree
unfolding read_tree encode_tree push_u32
IsTree-codes = record {
  reads = λ m h. Reads-bind v _ _ (u32_codes.reads (length m) (omega (arith, h.cap))) (
      Reads-guard v (ltb max_dir_entries (length m)) tree_count_over_cap (le→ltb_false _ _ h.cap) (
        Reads-map v _ (λ es. es)
          (map-Reads v encode_entry IsEntry read_entry reads-IsEntry m h.ascends h.valid) refl));
  parses = Parses-bind v _ _ u32_codes.parses λ n xs (e, _).
      Parses-guard v (ltb max_dir_entries n) tree_count_over_cap λ cap.
        Parses-map v _ (λ es. es) _ (map_parses v encode_entry IsEntry read_entry parses-IsEntry n)
          λ m ys (e1, len, asc, valid). (
            ap₂ ◌++◌ (e ∙ ap (to_le_bytes 4) (sym len)) e1,
            record {
              ascends = asc;
              valid = valid;
              cap = subst (λ k. k ≤ max_dir_entries) (sym len) (ltb_false→le _ _ cap);
            },
          );
}
