-- ===== src/Duckfs/BlockObjects/RoundTrip.antt =====
-- What the block's object index decodes to.
use ducktape_sdk.Prelude.{ℕ, ◌^◌, ◌<◌, ◌≡◌, refl, sym, subst, [], length, All, arith}
use ducktape_sdk.Bytes.{IsByte}
use ducktape_sdk.Bytes.Order.{bytes_order}
use ducktape_sdk.BTree.{insert, IsAscending}
use ducktape_sdk.Parser.{ok, View}
use ducktape_sdk.Parser.Reads.{Reads, Reads-pure, Reads-bind, Reads-last}
use ducktape_sdk.Parser.Ints.{IsArray}
use ducktape_sdk.Parser.Seq.{EntryReads, map-Reads}
use ducktape_sdk.Duckfs.Errors.{block_objects}
use ducktape_sdk.Duckfs.Codec.{Reader, frame_view}
use ducktape_sdk.Duckfs.Codec.Rules.{u8_codes, u32_codes, u64_codes, bytes32_codes}
use ducktape_sdk.Duckfs.Codec.Complete.{IsSlice, complete-Reads}
use ducktape_sdk.Duckfs.Kind
use ducktape_sdk.Duckfs.Kind.{Kind, from_u8-tag_iff}
use ducktape_sdk.Duckfs.Objects.{ObjectId}
use ducktape_sdk.Duckfs.BlockObjects.{
  Index, encode_object, encode_block_objects, known_block_kind, read_object, read_block_objects,
  decode_block_objects,
}

abbrev v : View Reader
v = frame_view

-- The types of an entry: an id is 32 bytes, a length is a `u64`.
abbrev pub IsObject : ObjectId × (Kind × ℕ) → Type 0
IsObject (id, (kind, len)) = IsArray 32 id × (len < 2 ^ 64)

tag-IsByte : (kind : Kind) → IsByte (Kind.tag kind)
unfolding Kind.tag
tag-IsByte kind = ground arith

Reads-kind : (kind : Kind) → Reads v (known_block_kind (Kind.from_u8 (Kind.tag kind))) [] kind
Reads-kind kind =
    subst (λ o. Reads v (known_block_kind o) [] kind)
      (sym ((from_u8-tag_iff (Kind.tag kind) kind).1 refl)) (Reads-pure v kind)

reads-IsObject : EntryReads v encode_object IsObject read_object
unfolding read_object encode_object
reads-IsObject index (id, (kind, len)) (asc, (id_ok, fits)) =
    Reads-bind v _ _ (bytes32_codes.reads id id_ok) (
      Reads-bind v _ _ (u8_codes.reads (Kind.tag kind) (tag-IsByte kind)) (
        Reads-bind v _ _ (Reads-kind kind) (
          Reads-last v _ _ (u64_codes.reads len fits)
            (Reads-pure v (insert id (kind, len) index)))))

-- An index of typed entries, its ids ascending and its count within a `u32`, is read back from its image,
-- an image within the address space.
pub decode_block_objects-encode :
    (index : Index)
    → IsAscending index
    → All IsObject index
    → length index < 2 ^ 32
    → IsSlice (encode_block_objects index)
    → decode_block_objects (encode_block_objects index) ≡ ok index
unfolding decode_block_objects encode_block_objects read_block_objects
decode_block_objects-encode index asc valid count slice =
    complete-Reads block_objects _ _ index slice (
      Reads-bind v _ _ (u32_codes.reads (length index) count)
        (map-Reads v encode_object IsObject read_object reads-IsObject index asc valid))
