-- ===== src/Duckfs/Hex.antt =====
-- The hex helpers of crates/duckfs/core/src/wire.rs. A string is its UTF-8 bytes.
pub mod RoundTrip
use ducktape_sdk.Prelude.{
  ℕ, ◌+◌, ◌-◌, ◌*◌, ◌/◌, ◌%◌, Bool, true, false, not, ◌&&◌, ◌||◌, Option, none, some, List, [], ◌∷◌,
  length, leb, ltb, ◌==◌, if◌then◌else◌,
}
use ducktape_sdk.Parser.{Result, ok, err}

-- A digit of `{b:02x}`.
unfoldable pub hex_digit : ℕ → ℕ
hex_digit n = if ltb n 10 then 48 + n else 97 + (n - 10)

unfoldable pub to_hex : List ℕ → List ℕ
to_hex [] = []
to_hex (b ∷ bytes) = hex_digit (b / 16) ∷ hex_digit (b % 16) ∷ to_hex bytes

unfoldable pub hex_val : ℕ → Option ℕ
hex_val c =
    if leb 48 c && leb c 57
    then some (c - 48)
    else if leb 97 c && leb c 102
    then some (c - 97 + 10)
    else none

-- A slot of the array, `(hi << 4) | lo` of two digits, ahead of the slots after it.
abbrev pub join : Option ℕ → Option ℕ → Option (List ℕ) → Option (List ℕ)
join (some hi) (some lo) (some bytes) = some ((hi * 16 + lo) ∷ bytes)
join hi lo bytes = none

-- The loop over the slots. An odd digit is left over only when the length test was skipped.
unfoldable pub pairs : List ℕ → Option (List ℕ)
pairs [] = some []
pairs (c ∷ []) = none
pairs (c ∷ d ∷ s) = join (hex_val c) (hex_val d) (pairs s)

unfoldable pub from_hex_32 : List ℕ → Option (List ℕ)
from_hex_32 s = if length s == 64 then pairs s else none

-- `is_ascii_hexdigit`
unfoldable pub is_hex_digit : ℕ → Bool
is_hex_digit c = leb 48 c && leb c 57 || leb 65 c && leb c 70 || leb 97 c && leb c 102

unfoldable pub all_hex_digits : List ℕ → Bool
all_hex_digits [] = true
all_hex_digits (c ∷ s) = is_hex_digit c && all_hex_digits s

pub data HexError : Type 0 where
  non_hex odd_length : HexError

-- The value of a digit of either case, as `from_str_radix` with radix 16 reads it.
unfoldable pub digit : ℕ → ℕ
digit c = if leb c 57 then c - 48 else if leb c 70 then c - 65 + 10 else c - 97 + 10

-- `from_str_radix` on each pair of digits.
unfoldable pub digit_pairs : List ℕ → List ℕ
digit_pairs [] = []
digit_pairs (c ∷ []) = []
digit_pairs (c ∷ d ∷ s) = (digit c * 16 + digit d) ∷ digit_pairs s

unfoldable pub unhex : List ℕ → Result HexError (List ℕ)
unhex s =
    if not (all_hex_digits s)
    then err non_hex
    else if not (length s % 2 == 0)
    then err odd_length
    else ok (digit_pairs s)
