-- ===== src/Sdk/Codec.antt =====
-- crates/kernel/sdk/src/codec.rs: the push helpers, as the bytes that they append, and `Cursor`,
-- as state passing. A `String` is its UTF-8 bytes; `usize` has 64 bits.
pub mod Rules
pub mod Fields
pub mod Complete
pub mod Bound
use Prim.Native.String.{String}
use ducktape_sdk.Prelude.{
  ℕ, suc, ◌/◌, ◌^◌, ◌-◌, ◌≤◌, ◌≡◌, Bool, true, false, not, Option, none, some, List, [], ◌∷◌, ◌++◌,
  max, length, take, drop, ltb, ◌==◌, if◌then◌else◌,
}
use ducktape_sdk.Bytes.{to_le_bytes, from_le_bytes, IsBytes}
use ducktape_sdk.Bytes.Utf8.{is_utf8}
use ducktape_sdk.Parser.{Result, ok, err, Read, pure, fail, refuse_if, ◌>>=◌, ◌>>◌, View}

-- `Error::Module`, a constructor for each message, with the values that it prints.
pub data Error : Type 0 where
  truncated not_utf8 flag_set_but_empty : String → Error
  bad_flag : String → ℕ → Error
  exceeds_field_cap exceeds_remaining count_exceeds_remaining : String → ℕ → ℕ → Error
  exceeds_limit : String → ℕ → Error
  trailing_bytes : String → ℕ → Error
  keys_not_increasing : Error
  bad_time_unit : List ℕ → Error

abbrev pub usize_max : ℕ
usize_max = 2 ^ 64 - 1

unfoldable pub u64_le : ℕ → List ℕ
u64_le v = to_le_bytes 8 v

-- `bytes.len() as u64`
unfoldable pub push_bytes : List ℕ → List ℕ
push_bytes bytes = u64_le (length bytes) ++ bytes

unfoldable pub push_str : List ℕ → List ℕ
push_str s = push_bytes s

unfoldable pub push_opt_bytes : Option (List ℕ) → List ℕ
push_opt_bytes (some b) = 1 ∷ push_bytes b
push_opt_bytes none = 0 ∷ []

unfoldable pub push_opt_str : Option (List ℕ) → List ℕ
push_opt_str s = push_opt_bytes s

unfoldable pub push_opt_u64 : Option ℕ → List ℕ
push_opt_u64 (some v) = 1 ∷ u64_le v
push_opt_u64 none = 0 ∷ []

pub record Cursor : Type 0 where
  pub buf : List ℕ
  pub max_field_len : ℕ

abbrev pub ReadCursor : Type 0 → Type 0
ReadCursor A = Read Cursor Error A

unfoldable pub new : List ℕ → Cursor
new buf = record { buf = buf; max_field_len = usize_max }

unfoldable pub with_cap : List ℕ → ℕ → Cursor
with_cap buf max_field_len = record { buf = buf; max_field_len = max_field_len }

unfoldable pub remaining : Cursor → ℕ
remaining c = length c.buf

-- `split_first_chunk::<N>`, and the cursor behind the chunk
unfoldable pub array : ℕ → String → ReadCursor (List ℕ)
array n what c =
    if ltb (length c.buf) n
    then err (truncated what)
    else ok (take n c.buf, record c { buf = drop n c.buf })

unfoldable pub u64 : String → ReadCursor ℕ
u64 what = do head ← array 8 what; pure (from_le_bytes head)

unfoldable pub u32 : String → ReadCursor ℕ
u32 what = do head ← array 4 what; pure (from_le_bytes head)

split_byte : String → ℕ → List ℕ → Result Error (ℕ × Cursor)
split_byte what cap [] = err (truncated what)
split_byte what cap (b ∷ rest) = ok (b, record { buf = rest; max_field_len = cap })

unfoldable pub byte : String → ReadCursor ℕ
unfolding split_byte
byte what c = split_byte what c.max_field_len c.buf

unfoldable pub bool : String → ReadCursor Bool
bool what = do
  b ← byte what
  if b == 0 then pure false else if b == 1 then pure true else fail (bad_flag what b)

-- The tests of `bytes` on a length that it has read, and the split.
unfoldable pub take_field : String → ℕ → ReadCursor (List ℕ)
take_field what len c =
    if ltb c.max_field_len len
    then err (exceeds_field_cap what len c.max_field_len)
    else if ltb (length c.buf) len
    then err (exceeds_remaining what len (length c.buf))
    else ok (take len c.buf, record c { buf = drop len c.buf })

unfoldable pub bytes : String → ReadCursor (List ℕ)
bytes what = do len ← u64 what; take_field what len

unfoldable pub string : String → ReadCursor (List ℕ)
string what = do raw ← bytes what; refuse_if (not (is_utf8 raw)) (not_utf8 what); pure raw

unfoldable pub opt_str : ℕ → String → ReadCursor (Option (List ℕ))
opt_str max what = do
  b ← byte what
  if b == 0
      then pure none
      else if b == 1
      then (do
        raw ← bytes what
        refuse_if (length raw == 0) (flag_set_but_empty what)
        refuse_if (ltb max (length raw)) (exceeds_limit what max)
        refuse_if (not (is_utf8 raw)) (not_utf8 what)
        pure (some raw))
      else fail (bad_flag what b)

unfoldable pub opt_bytes : String → ReadCursor (Option (List ℕ))
opt_bytes what = do
  present ← bool what
  if present then (do raw ← bytes what; pure (some raw)) else pure none

unfoldable pub opt_u64 : String → ReadCursor (Option ℕ)
opt_u64 what = do
  present ← bool what
  if present then (do v ← u64 what; pure (some v)) else pure none

unfoldable pub bound : ℕ → ℕ → String → ReadCursor (Unit {0})
bound count min_each what c =
    if ltb (length c.buf / max min_each 1) count
    then err (count_exceeds_remaining what count (length c.buf))
    else ok (tt, c)

unfoldable pub finish : String → Cursor → Result Error (Unit {0})
finish what c = if length c.buf == 0 then ok tt else err (trailing_bytes what (length c.buf))

-- A decode that reads a value and then finishes.
unfoldable pub complete : {A : Type 0} → String → ReadCursor A → Cursor → Result Error A
complete what m c = elim (m c) [
  | ok (a, c') ↦ elim (finish what c') [ ok _ ↦ ok a | err e ↦ err e ]
  | err e ↦ err e
]

-- The bytes not yet consumed, under a fixed field cap.
abbrev pub cursor_view : ℕ → View Cursor
cursor_view cap = record {
  remaining = λ c. c.buf;
  IsGood = λ c. (c.max_field_len ≡ cap) × IsBytes c.buf;
}
