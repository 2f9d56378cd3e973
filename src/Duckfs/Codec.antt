-- ===== src/Duckfs/Codec.antt =====
-- crates/duckfs/core/src/codec.rs: the push helpers, as the bytes that they append, and `Reader`,
-- as state passing. A `String` is its UTF-8 bytes; `usize` has 64 bits.
pub mod Rules
pub mod Fields
pub mod Complete
use ducktape_sdk.Prelude.{
  ℕ, ◌+◌, ◌-◌, ◌≤◌, Bool, true, false, not, ◌&&◌, Option, none, some, List, [], ◌∷◌, ◌++◌, length,
  take, drop, leb, ltb, ◌==◌, if◌then◌else◌,
}
use ducktape_sdk.Bytes.{to_le_bytes, from_le_bytes, IsBytes}
use ducktape_sdk.Bytes.Utf8.{is_utf8}
use ducktape_sdk.Parser.{Result, ok, err, Read, pure, ◌>>=◌, ◌>>◌, View}
use ducktape_sdk.Duckfs.Limits.{usize_max}
use ducktape_sdk.Duckfs.Errors.{Frame, FilesError, truncated, not_boolean, not_utf8, trailing_bytes}

unfoldable pub push_string : List ℕ → List ℕ
push_string value = to_le_bytes 8 (length value) ++ value

unfoldable pub push_u32 : ℕ → List ℕ
push_u32 value = to_le_bytes 4 value

pub record Reader : Type 0 where
  pub what : Frame
  pub bytes : List ℕ
  pub off : ℕ

abbrev pub ReadFrame : Type 0 → Type 0
ReadFrame A = Read Reader FilesError A

unfoldable pub new : Frame → List ℕ → Reader
new what bytes = record { what = what; bytes = bytes; off = 0 }

-- `return Err(..)` with the frame's label where the test holds.
abbrev pub refuse_frame_if : Bool → (Frame → FilesError) → ReadFrame (Unit {0})
refuse_frame_if bad error r = if bad then err (error r.what) else ok (tt, r)

-- `self.off.checked_add(n).filter(|&end| end <= self.bytes.len())`, and the bytes up to there.
unfoldable pub advance : ℕ → ReadFrame (List ℕ)
advance n r =
    if leb (r.off + n) usize_max && leb (r.off + n) (length r.bytes)
    then ok (take n (drop r.off r.bytes), record r { off = r.off + n })
    else err (truncated r.what)

unfoldable pub array : ℕ → ReadFrame (List ℕ)
array n = advance n

-- `[0]` of an array; no array of `u8` below is empty.
first_byte : List ℕ → ℕ
first_byte [] = 0
first_byte (b ∷ bs) = b

unfoldable pub u8 : ReadFrame ℕ
unfolding first_byte
u8 = do a ← array 1; pure (first_byte a)

unfoldable pub u16 : ReadFrame ℕ
u16 = do a ← array 2; pure (from_le_bytes a)

unfoldable pub u32 : ReadFrame ℕ
u32 = do a ← array 4; pure (from_le_bytes a)

unfoldable pub u64 : ReadFrame ℕ
u64 = do a ← array 8; pure (from_le_bytes a)

unfoldable pub bytes32 : ReadFrame (List ℕ)
bytes32 = array 32

boolean_of : ℕ → ReadFrame Bool
boolean_of b r =
    if b == 0 then ok (false, r) else if b == 1 then ok (true, r) else err (not_boolean r.what)

unfoldable pub boolean : ReadFrame Bool
unfolding boolean_of
boolean = do b ← u8; boolean_of b

unfoldable pub bytes : ReadFrame (List ℕ)
bytes = do len ← u64; refuse_frame_if (ltb usize_max len) truncated; advance len

unfoldable pub string : ReadFrame (List ℕ)
string = do value ← bytes; refuse_frame_if (not (is_utf8 value)) not_utf8; pure value

unfoldable pub finish : Reader → Result FilesError (Unit {0})
finish r = if r.off == length r.bytes then ok tt else err (trailing_bytes r.what)

-- A decode that reads a value and then finishes.
unfoldable pub complete : {A : Type 0} → ReadFrame A → Reader → Result FilesError A
complete m r = elim (m r) [
  | ok (a, r') ↦ elim (finish r') [ ok _ ↦ ok a | err e ↦ err e ]
  | err e ↦ err e
]

-- The bytes behind the cursor, of a slice that Rust can hold.
abbrev pub frame_view : View Reader
frame_view = record {
  remaining = λ r. drop r.off r.bytes;
  IsGood = λ r. (r.off ≤ length r.bytes) × (length r.bytes ≤ usize_max) × IsBytes r.bytes;
}
