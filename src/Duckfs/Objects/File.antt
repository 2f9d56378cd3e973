-- ===== src/Duckfs/Objects/File.antt =====
-- `FileObj`: what `decode` reads of what `encode` wrote.
use ducktape_sdk.Prelude.{
  ℕ, ◌^◌, ◌≤◌, ◌<◌, ◌≡◌, refl, ap, ap₂, subst, sym, ◌∙◌, List, ◌++◌, length, ltb, All, le→ltb_false,
  ltb_false→le, arith, append-nil,
}
use ducktape_sdk.Bytes.{to_le_bytes}
use ducktape_sdk.Bytes.Order.{bytes_order}
use ducktape_sdk.BTree.{insert, last_not_below, IsAscending}
use ducktape_sdk.Parser.{View}
use ducktape_sdk.Parser.Reads.{Reads, Reads-pure, Reads-bind, Reads-map, Reads-last, Reads-guard}
use ducktape_sdk.Parser.Parses.{Codes, Parses, Parses-pure, Parses-bind, Parses-map, Parses-guard}
use ducktape_sdk.Parser.Ints.{IsArray}
use ducktape_sdk.Parser.Seq.{vec-Reads, vec_parses, map-Reads, map_parses, EntryReads, EntryParses}
use ducktape_sdk.Duckfs.Limits.{
  max_chunks_per_file, max_meta_entries, max_meta_key_bytes, max_meta_value_bytes,
}
use ducktape_sdk.Duckfs.Errors.{
  chunk_count_over_cap, meta_count_over_cap, meta_key_over_cap, meta_value_over_cap,
  meta_not_ascending,
}
use ducktape_sdk.Duckfs.Codec.{Reader, push_u32, frame_view, bytes32}
use ducktape_sdk.Duckfs.Codec.Rules.{IsText, u16_codes, u32_codes, u64_codes, bytes32_codes}
use ducktape_sdk.Duckfs.Codec.Fields.{string_codes}
use ducktape_sdk.Duckfs.Objects.{FileObj, encode_meta, encode_file, read_meta, read_file}

abbrev v : View Reader
v = frame_view

abbrev pub IsMeta : List ℕ × List ℕ → Type 0
IsMeta (key, value) =
    IsText key
    × IsText value
    × (length key ≤ max_meta_key_bytes)
    × (length value ≤ max_meta_value_bytes)

-- What the decoder admits.
pub record IsFile (f : FileObj) : Type 0 where
  pub size_fits : f.size < 2 ^ 64
  pub ids : All (IsArray 32) f.chunks
  pub chunk_cap : length f.chunks ≤ max_chunks_per_file
  pub meta_ascends : IsAscending f.meta
  pub meta_valid : All IsMeta f.meta
  pub meta_cap : length f.meta ≤ max_meta_entries

reads-IsMeta : EntryReads v encode_meta IsMeta read_meta
unfolding read_meta
reads-IsMeta m (key, value) (asc, (k, w, kc, wc)) = Reads-bind v _ _ (string_codes.reads key k) (
    Reads-last v _ _ (string_codes.reads value w) (
      Reads-guard v (ltb max_meta_key_bytes (length key)) meta_key_over_cap (le→ltb_false _ _ kc) (
        Reads-guard v (ltb max_meta_value_bytes (length value)) meta_value_over_cap
          (le→ltb_false _ _ wc)
          (Reads-guard v (last_not_below key m) meta_not_ascending asc
            (Reads-pure v (insert key value m))))))

parses-IsMeta : EntryParses v encode_meta IsMeta read_meta
unfolding read_meta
parses-IsMeta m = Parses-bind v _ _ string_codes.parses λ key xs (e, k).
    Parses-bind v _ _ string_codes.parses λ value ys (e1, w).
      Parses-guard v (ltb max_meta_key_bytes (length key)) meta_key_over_cap λ kc.
        Parses-guard v (ltb max_meta_value_bytes (length value)) meta_value_over_cap λ wc.
          Parses-guard v (last_not_below key m) meta_not_ascending λ asc.
            Parses-pure v _ {a = insert key value m} (
              (key, value),
              refl,
              (asc, (k, w, ltb_false→le _ _ kc, ltb_false→le _ _ wc)),
              ap₂ ◌++◌ e (append-nil ys ∙ e1),
            )

Reads-file : (f : FileObj) → IsFile f → Reads v read_file (encode_file f) f
unfolding read_file encode_file push_u32
Reads-file f h = Reads-bind v _ _ (u64_codes.reads f.size h.size_fits) (
    Reads-bind v _ _ (u32_codes.reads (length f.chunks) (omega (arith, h.chunk_cap))) (
      Reads-guard v (ltb max_chunks_per_file (length f.chunks)) chunk_count_over_cap
        (le→ltb_false _ _ h.chunk_cap)
        (Reads-bind v _ _ (vec-Reads v bytes32 (λ id. id) (IsArray 32) bytes32_codes f.chunks h.ids)
          (Reads-bind v _ _ (u16_codes.reads (length f.meta) (omega (arith, h.meta_cap))) (
            Reads-guard v (ltb max_meta_entries (length f.meta)) meta_count_over_cap
              (le→ltb_false _ _ h.meta_cap)
              (Reads-map v _ _
                (map-Reads v encode_meta IsMeta read_meta reads-IsMeta f.meta h.meta_ascends
                  h.meta_valid)
                refl))))))

parses-IsFile : Parses v read_file (λ xs f. (xs ≡ encode_file f) × IsFile f)
unfolding read_file encode_file push_u32
parses-IsFile = Parses-bind v _ _ u64_codes.parses λ size xs (e, fits).
    Parses-bind v _ _ u32_codes.parses λ n ys (e1, n_fits).
      Parses-guard v (ltb max_chunks_per_file n) chunk_count_over_cap λ cap.
        Parses-bind v _ _ (vec_parses v bytes32 (λ id. id) (IsArray 32) bytes32_codes n)
          λ chunks zs (e2, len, ids). Parses-bind v _ _ u16_codes.parses λ k us (e3, k_fits).
            Parses-guard v (ltb max_meta_entries k) meta_count_over_cap λ meta_cap.
              Parses-map v _ (λ meta. record { size = size; chunks = chunks; meta = meta }) _
                (map_parses v encode_meta IsMeta read_meta parses-IsMeta k)
                λ meta ws (e4, meta_len, asc, valid). (
                  ap₂ ◌++◌ e (
                      ap₂ ◌++◌ (e1 ∙ ap (to_le_bytes 4) (sym len))
                        (ap₂ ◌++◌ e2 (ap₂ ◌++◌ (e3 ∙ ap (to_le_bytes 2) (sym meta_len)) e4))),
                  record {
                    size_fits = fits;
                    ids = ids;
                    chunk_cap =
                        subst (λ m. m ≤ max_chunks_per_file) (sym len) (ltb_false→le _ _ cap);
                    meta_ascends = asc;
                    meta_valid = valid;
                    meta_cap =
                        subst (λ m. m ≤ max_meta_entries) (sym meta_len)
                          (ltb_false→le _ _ meta_cap);
                  },
                )

pub IsFile-codes : Codes v read_file encode_file IsFile
IsFile-codes = record { reads = Reads-file; parses = parses-IsFile }
