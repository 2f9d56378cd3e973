-- ===== src/Duckfs/Codec/Rules.antt =====
-- What each `Reader` method reads of what the push helpers wrote.
use ducktape_sdk.Prelude.{
  ℕ, ◌+◌, ◌^◌, ◌≤◌, ◌<◌, ◌≡◌, refl, sym, ap, ap₂, subst, ◌∙◌, List, [], ◌∷◌, ◌++◌, arith, length,
  take, drop, take-append-drop, length-take, length-drop, take-append, drop-append, drop-drop,
  All-take, All-drop, length-append,
}
use ducktape_sdk.Bytes.{to_le_bytes, IsBytes, IsByte}
use ducktape_sdk.Bytes.Utf8.{IsUtf8}
use ducktape_sdk.Parser.{ok, View}
use ducktape_sdk.Parser.Reads.{Reads, Reads-map}
use ducktape_sdk.Parser.Parses.{Codes, Parses, Parses-map}
use ducktape_sdk.Parser.Ints.{IsArray, le_codes}
use ducktape_sdk.Duckfs.Limits.{usize_max}
use ducktape_sdk.Duckfs.Codec.{
  Reader, advance, array, first_byte, u8, u16, u32, u64, bytes32, push_u32, frame_view,
}

-- A byte string that a slice can hold, and a text.
abbrev pub IsBlob : List ℕ → Type 0
IsBlob a = (length a < 2 ^ 64) × IsBytes a

abbrev pub IsText : List ℕ → Type 0
IsText a = IsBlob a × IsUtf8 a

abbrev v : View Reader
v = frame_view

-- `advance` past bytes that are there.
advance_ok :
    (n : ℕ) (r : Reader)
    → r.off + n ≤ length r.bytes
    → length r.bytes ≤ usize_max
    → advance n r ≡ ok (take n (drop r.off r.bytes), record r { off = r.off + n })
unfolding advance
advance_ok n r h k = ground arith

advance_inv :
    (n : ℕ) (r r' : Reader) (a : List ℕ)
    → advance n r ≡ ok (a, r')
    → (r.off + n ≤ length r.bytes)
      × (take n (drop r.off r.bytes) ≡ a)
      × (r' ≡ record r { off = r.off + n })
unfolding advance
advance_inv n r r' a h = ground arith

pub advance-Reads : (n : ℕ) (xs : List ℕ) → length xs ≡ n → Reads v (advance n) xs xs
advance-Reads n xs len = record {
  runs = λ r rest (g, k, b) e.
      let fits : r.off + n ≤ length r.bytes =
        omega (arith, ap length e, length-append xs rest, length-drop r.off r.bytes) in
      let taken : take n (drop r.off r.bytes) ≡ xs =
        ap (take n) e ∙ ap (λ m. take m (xs ++ rest)) (sym len) ∙ take-append xs rest in
      let left : drop (r.off + n) r.bytes ≡ rest =
        sym (drop-drop n r.off r.bytes)
        ∙ ap (drop n) e
        ∙ ap (λ m. drop m (xs ++ rest)) (sym len)
        ∙ drop-append xs rest in
      (
        record r { off = r.off + n },
        advance_ok n r fits k ∙ ap (λ z. ok (z, record r { off = r.off + n })) taken,
        (fits, k, b),
        left,
      );
}

pub advance_parses : (n : ℕ) → Parses v (advance n) (λ xs a. (xs ≡ a) × IsArray n a)
advance_parses n = record {
  inverts = λ r r' a (g, k, b) h.
      let (fits, a_eq, r_eq) = advance_inv n r r' a h in
      let rest = drop r.off r.bytes in
      (
        a,
        sym (take-append-drop n rest)
            ∙ ap₂ ◌++◌ a_eq (drop-drop n r.off r.bytes ∙ ap frame_view.remaining (sym r_eq)),
        subst frame_view.IsGood (sym r_eq) (fits, k, b),
        (
          refl,
          (
            ap length (sym a_eq) ∙ length-take n rest (omega (arith, length-drop r.off r.bytes)),
            subst IsBytes a_eq (All-take IsByte n rest (All-drop IsByte r.off r.bytes b)),
          ),
        ),
      );
}

pub array_codes : (n : ℕ) → Codes v (array n) (λ a. a) (IsArray n)
unfolding array
array_codes n = record { reads = λ a (len, b). advance-Reads n a len; parses = advance_parses n }

pub u16_codes : Codes v u16 (to_le_bytes 2) (λ n. n < 2 ^ 16)
unfolding u16
u16_codes = le_codes v 2 (array 2) (array_codes 2)

pub u32_codes : Codes v u32 push_u32 (λ n. n < 2 ^ 32)
unfolding u32 push_u32
u32_codes = le_codes v 4 (array 4) (array_codes 4)

pub u64_codes : Codes v u64 (to_le_bytes 8) (λ n. n < 2 ^ 64)
unfolding u64
u64_codes = le_codes v 8 (array 8) (array_codes 8)

pub bytes32_codes : Codes v bytes32 (λ a. a) (IsArray 32)
unfolding bytes32
bytes32_codes = array_codes 32

one-IsByte : (a : List ℕ) → IsArray 1 a → (a ≡ first_byte a ∷ []) × IsByte (first_byte a)
unfolding first_byte
one-IsByte [] (len, b) = absurd (omega arith)
one-IsByte (x ∷ []) (len, (b, _)) = (refl, b)
one-IsByte (x ∷ y ∷ a) (len, b) = absurd (omega arith)

pub u8_codes : Codes v u8 (λ b. b ∷ []) IsByte
unfolding u8 first_byte
u8_codes = record {
  reads =
      λ b h. Reads-map v (array 1) first_byte ((array_codes 1).reads (b ∷ []) (refl, (h, tt))) refl;
  parses =
      Parses-map v (array 1) first_byte _ (array_codes 1).parses
        λ a xs (e, w). let (q, b) = one-IsByte a w in (e ∙ q, b);
}
