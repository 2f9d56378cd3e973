-- ===== src/Duckfs/Retention/Records.antt =====
-- The records of crates/duckfs/core/src/retention.rs: `file` against `decode_record`.
use ducktape_sdk.Prelude.{
  ℕ, zero, suc, ◌+◌, ◌/◌, ◌%◌, ◌^◌, ◌≤◌, ◌<◌, ◌≡◌, refl, sym, ap, ◌∙◌, Bool, true, ◌&&◌, List, [],
  ◌∷◌, ◌++◌, length, length-append, All, All-append, append-nil, ltb, inl, inr, Bool-cases, arith,
}
use ducktape_sdk.Bytes.{ascii, IsByte, IsBytes, to_le_bytes, to_le_bytes-IsBytes}
use ducktape_sdk.Bytes.Order.{bytes_lt, bytes_order, bytes_eq_self}
use ducktape_sdk.Bytes.Utf8.{is_utf8-ascii}
use ducktape_sdk.BTree.{insert, get}
use ducktape_sdk.Parser.{ok}
use ducktape_sdk.Parser.Ints.{IsArray}
use ducktape_sdk.Duckfs.Codec.{push_string}
use ducktape_sdk.Duckfs.Codec.Complete.{IsSlice}
use ducktape_sdk.Duckfs.Codec.Fields.{push_string-IsBytes, length-push_string}
use ducktape_sdk.Duckfs.Hex.{hex_digit, to_hex}
use ducktape_sdk.Duckfs.Hex.RoundTrip.{from_hex_32-to_hex_iff, length-to_hex}
use ducktape_sdk.Duckfs.Objects.{ObjectId, FileObj, encode_file, decode_file}
use ducktape_sdk.Duckfs.Objects.File.{IsMeta}
use ducktape_sdk.Duckfs.Objects.Canonical.{decode_file_iff}
use ducktape_sdk.Duckfs.Results.{◌>>=◌}
use ducktape_sdk.Duckfs.Retention.{
  Record, reference, membership, decimal_digits, decimal, snapshot_id, file, record_of,
  decode_record,
}
use ducktape_sdk.Duckfs.Retention.Decimals.{positive_number_iff}

abbrev IsAscii : List ℕ → Type 0
IsAscii = All (λ b. b < 128)

abbrev is_ascii : List ℕ → Bool
is_ascii [] = true
is_ascii (b ∷ s) = ltb b 128 && is_ascii s

is_ascii→IsAscii : (s : List ℕ) → is_ascii s ≡ true → IsAscii s
is_ascii→IsAscii [] h = tt
is_ascii→IsAscii (b ∷ s) h = (ground arith, is_ascii→IsAscii s (ground arith))

IsAscii-IsBytes : (s : List ℕ) → IsAscii s → IsBytes s
IsAscii-IsBytes [] h = tt
IsAscii-IsBytes (b ∷ s) (small, h) = (omega arith, IsAscii-IsBytes s h)

to_hex-IsAscii : (bs : List ℕ) → IsBytes bs → IsAscii (to_hex bs)
unfolding to_hex hex_digit
to_hex-IsAscii [] h = tt
to_hex-IsAscii (b ∷ bs) (byte, h) =
    (digit (b / 16) (omega arith), (digit (b % 16) (omega arith), to_hex-IsAscii bs h))
  where
    digit : (n : ℕ) → n < 16 → hex_digit n < 128
    digit n small = ground arith

decimal_digits-IsAscii :
    (k n : ℕ) → IsAscii (decimal_digits k n) × (length (decimal_digits k n) ≤ k)
unfolding decimal_digits
decimal_digits-IsAscii zero n = (tt, omega arith)
decimal_digits-IsAscii (suc k) n =
    let (all, len) = decimal_digits-IsAscii k (n / 10) in
    elim (Bool-cases (ltb n 10)) [
      | inl one ↦ rw (one) ((ground arith, tt), omega arith)
      | inr more ↦ rw (more) (
        All-append (λ b. b < 128) (decimal_digits k (n / 10)) _ all (omega arith, tt),
        omega (arith, len, length-append (decimal_digits k (n / 10)) ((48 + n % 10) ∷ [])),
      )
    ]

-- A file of two short ASCII fields, the second one the snapshot.
abbrev fields : List ℕ → List ℕ → List ℕ → FileObj
fields key value snapshot = record {
  size = 0;
  chunks = [];
  meta = (key, value) ∷ (ascii "snapshot", snapshot) ∷ [];
}

ascii_field :
    (key value : List ℕ)
    → IsAscii key
    → length key ≤ 64
    → IsAscii value
    → length value ≤ 256
    → IsMeta (key, value)
ascii_field key value k k_len w w_len = (
  ((omega arith, IsAscii-IsBytes key k), is_utf8-ascii key k),
  ((omega arith, IsAscii-IsBytes value w), is_utf8-ascii value w),
  k_len,
  w_len,
)

fields-IsSlice :
    (key value snapshot : List ℕ)
    → IsMeta (key, value)
    → IsMeta (ascii "snapshot", snapshot)
    → IsSlice (encode_file (fields key value snapshot))
unfolding encode_file to_le_bytes
fields-IsSlice key value snapshot k w =
    let (((k_fits, k_bytes), k_utf), ((v_fits, v_bytes), v_utf), k_len, v_len) = k in
    let (((t_fits, t_bytes), t_utf), ((s_fits, s_bytes), s_utf), t_len, s_len) = w in
    let all = All-append IsByte in
    let tag = ascii "snapshot" in
    let one = push_string key ++ push_string value in
    let two = (push_string tag ++ push_string snapshot) ++ [] in
    (
      omega (
        arith,
        length-append (push_string key) (push_string value),
        length-push_string key,
        length-push_string value,
        length-append (push_string tag) (push_string snapshot),
        length-push_string tag,
        length-push_string snapshot,
        length-append (push_string key ++ push_string value)
            ((push_string tag ++ push_string snapshot) ++ []),
        ap length (append-nil (push_string tag ++ push_string snapshot)),
      ),
      all (to_le_bytes 8 0) (to_le_bytes 4 0 ++ (to_le_bytes 2 2 ++ (one ++ two)))
          (to_le_bytes-IsBytes 8 0)
          (all (to_le_bytes 4 0) (to_le_bytes 2 2 ++ (one ++ two)) (to_le_bytes-IsBytes 4 0) (
            all (to_le_bytes 2 2) (one ++ two) (to_le_bytes-IsBytes 2 2) (
              all one two
                (all (push_string key) (push_string value) (push_string-IsBytes key k_bytes)
                  (push_string-IsBytes value v_bytes))
                (all (push_string tag ++ push_string snapshot) []
                  (all (push_string tag) (push_string snapshot) (push_string-IsBytes tag t_bytes)
                    (push_string-IsBytes snapshot s_bytes))
                  tt)))),
    )

decode-fields :
    (key value snapshot : List ℕ)
    → bytes_lt key (ascii "snapshot") ≡ true
    → IsMeta (key, value)
    → IsMeta (ascii "snapshot", snapshot)
    → decode_file (encode_file (fields key value snapshot)) ≡ ok (fields key value snapshot)
decode-fields key value snapshot below k w =
    (decode_file_iff _ (fields key value snapshot) (fields-IsSlice key value snapshot k w)).1 (
      record {
        size_fits = omega arith;
        ids = tt;
        chunk_cap = omega arith;
        meta_ascends = ((below, tt), (tt, tt));
        meta_valid = (k, (w, tt));
        meta_cap = omega arith;
      },
      refl,
    )

snapshot_id-to_hex : (id : ObjectId) → IsArray 32 id → snapshot_id (to_hex id) ≡ ok id
unfolding snapshot_id ◌>>=◌
snapshot_id-to_hex id h =
    rw ((from_hex_32-to_hex_iff (to_hex id) id).1 (h, refl), bytes_eq_self (to_hex id)) refl

snapshot_field : (id : ObjectId) → IsArray 32 id → IsMeta (ascii "snapshot", to_hex id)
snapshot_field id (len, bytes) =
    ascii_field (ascii "snapshot") (to_hex id) (is_ascii→IsAscii (ascii "snapshot") refl)
      (omega arith) (to_hex-IsAscii id bytes) (omega (arith, length-to_hex id))

number_field : (key : List ℕ) (n : ℕ) → IsAscii key → length key ≤ 64 → IsMeta (key, decimal n)
unfolding decimal
number_field key n k k_len =
    let (all, len) = decimal_digits-IsAscii 20 n in
    ascii_field key (decimal n) k k_len all (omega arith)

-- The number is one that `NonZeroU64` holds, and the snapshot is an id of 32 bytes, as its text in a
-- reference.
abbrev pub IsRecord : Record → Type 0
IsRecord (reference r) =
    ((id : ObjectId) × IsArray 32 id × (r.snapshot ≡ to_hex id))
    × (0 < r.revision)
    × (r.revision < 2 ^ 64)
IsRecord (membership id n) = IsArray 32 id × (0 < n) × (n < 2 ^ 64)

decode-reference :
    (id : ObjectId) (n : ℕ)
    → IsArray 32 id
    → 0 < n
    → n < 2 ^ 64
    → decode_record (encode_file (file (reference (record { snapshot = to_hex id; revision = n }))))
      ≡ ok (reference (record { snapshot = to_hex id; revision = n }))
unfolding decode_record file insert get bytes_lt record_of ◌>>=◌
decode-reference id n h pos fits =
    rw
      (
        decode-fields (ascii "revision") (decimal n) (to_hex id) refl
            (number_field (ascii "revision") n (is_ascii→IsAscii (ascii "revision") refl)
              (omega arith))
            (snapshot_field id h),
        snapshot_id-to_hex id h,
        (positive_number_iff (decimal n) n).1 (pos, fits, refl),
      )
      refl

decode-membership :
    (id : ObjectId) (n : ℕ)
    → IsArray 32 id
    → 0 < n
    → n < 2 ^ 64
    → decode_record (encode_file (file (membership id n))) ≡ ok (membership id n)
unfolding decode_record file insert get bytes_lt record_of ◌>>=◌
decode-membership id n h pos fits =
    rw
      (
        decode-fields (ascii "count") (decimal n) (to_hex id) refl
            (number_field (ascii "count") n (is_ascii→IsAscii (ascii "count") refl) (omega arith))
            (snapshot_field id h),
        snapshot_id-to_hex id h,
        (positive_number_iff (decimal n) n).1 (pos, fits, refl),
      )
      refl

-- A record of the catalog that holds a number from 1 up within 64 bits and a snapshot id of 32 bytes, as
-- its lower-case hex in a reference, decodes from the bytes of its file to itself.
pub decode_record-file : (r : Record) → IsRecord r → decode_record (encode_file (file r)) ≡ ok r
decode_record-file (reference r) ((id, h, e), pos, fits) =
    ap
      (λ s.
        decode_record
          (encode_file (file (reference (record { snapshot = s; revision = r.revision })))))
      e
    ∙ decode-reference id r.revision h pos fits
    ∙ ap (λ s. ok (reference (record { snapshot = s; revision = r.revision }))) (sym e)
decode_record-file (membership id n) (h, pos, fits) = decode-membership id n h pos fits
