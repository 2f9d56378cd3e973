-- ===== src/Duckfs/Hex/RoundTrip.antt =====
-- The hex readers against `to_hex`.
use ducktape_sdk.Prelude.{
  ℕ, ◌+◌, ◌*◌, ◌/◌, ◌%◌, ◌<◌, ◌≡◌, ◌↔◌, refl, sym, ap, ap₂, ◌∙◌, subst, true, Option, none, some,
  List, [], ◌∷◌, length, ◌==◌, arith, ==_iff, inl, inr, Bool-cases,
}
use ducktape_sdk.Bytes.{IsBytes}
use ducktape_sdk.Parser.{ok}
use ducktape_sdk.Parser.Ints.{IsArray}
use ducktape_sdk.Duckfs.Hex.{
  hex_digit, to_hex, hex_val, join, pairs, from_hex_32, is_hex_digit, all_hex_digits, digit,
  digit_pairs, unhex,
}

hex_val_iff : (c n : ℕ) → (hex_val c ≡ some n) ↔ ((n < 16) × (c ≡ hex_digit n))
unfolding hex_val hex_digit
hex_val_iff c n = (λ h. ground arith, λ (b, e). ground arith)

join-some :
    (a b : Option ℕ) (r : Option (List ℕ)) (bs : List ℕ)
    → join a b r ≡ some bs
    → (hi : ℕ) × (lo : ℕ) × (rest : List ℕ) × (a ≡ some hi)
      × (b ≡ some lo)
      × (r ≡ some rest)
      × ((hi * 16 + lo) ∷ rest ≡ bs)
join-some (some hi) (some lo) (some rest) bs h = (hi, lo, rest, refl, refl, refl, cc)
join-some none b r bs h = absurd (cc)
join-some (some hi) none r bs h = absurd (cc)
join-some (some hi) (some lo) none bs h = absurd (cc)

none_ne_some : (bs : List ℕ) → ¬ (none ≡ some bs)
none_ne_some bs h = cc

pub length-to_hex : (bs : List ℕ) → length (to_hex bs) ≡ 2 * length bs
unfolding to_hex
length-to_hex [] = refl
length-to_hex (b ∷ bs) = omega (arith, length-to_hex bs)

split_byte : (b : ℕ) → b / 16 * 16 + b % 16 ≡ b
split_byte b = omega arith

pairs-to_hex : (bs : List ℕ) → IsBytes bs → pairs (to_hex bs) ≡ some bs
unfolding pairs to_hex
pairs-to_hex [] h = refl
pairs-to_hex (b ∷ bs) (p, h) =
    rw
      (
        (hex_val_iff _ (b / 16)).1 (omega arith, refl),
        (hex_val_iff _ (b % 16)).1 (omega arith, refl),
        pairs-to_hex bs h,
      )
      (ap (λ n. some (n ∷ bs)) (split_byte b))

pairs-some : (s bs : List ℕ) → pairs s ≡ some bs → IsBytes bs × (to_hex bs ≡ s)
unfolding pairs to_hex
pairs-some [] bs h = let e : [] ≡ bs = cc in (subst IsBytes e tt, ap to_hex (sym e))
pairs-some (c ∷ []) bs h = absurd (cc)
pairs-some (c ∷ d ∷ s) bs h =
    let (hi, lo, rest, hi_eq, lo_eq, rest_eq, e) =
      join-some (hex_val c) (hex_val d) (pairs s) bs h in
    let (hi_lt, c_eq) = (hex_val_iff c hi).0 hi_eq in
    let (lo_lt, d_eq) = (hex_val_iff d lo).0 lo_eq in
    let (bytes, s_eq) = pairs-some s rest rest_eq in
    let hi_div : (hi * 16 + lo) / 16 ≡ hi = omega arith in
    let lo_mod : (hi * 16 + lo) % 16 ≡ lo = omega arith in
    (
      subst IsBytes e (omega arith, bytes),
      ap to_hex (sym e)
          ∙ ap₂ ◌∷◌ (ap hex_digit hi_div ∙ sym c_eq)
              (ap₂ ◌∷◌ (ap hex_digit lo_mod ∙ sym d_eq) s_eq),
    )

-- `from_hex_32` returns an id exactly when the text is the id's `to_hex`, the lowercase spelling, and
-- the id is 32 bytes.
pub from_hex_32-to_hex_iff :
    (s id : List ℕ) → (from_hex_32 s ≡ some id) ↔ (IsArray 32 id × (to_hex id ≡ s))
unfolding from_hex_32
from_hex_32-to_hex_iff s id = (
  λ h. elim (Bool-cases (length s == 64)) [
    | inl full ↦
        let (bytes, e) = pairs-some s id (rw full at h) in
        let n = (==_iff (length s) 64).0 full in
        ((omega (arith, length-to_hex id, ap length e), bytes), e)
    | inr short ↦ let q : none ≡ some id = rw short at h in absurd (none_ne_some id q)
  ],
  λ ((n, bytes), e).
      let full : (length s == 64) ≡ true =
        (==_iff (length s) 64).1 (omega (arith, length-to_hex id, ap length e)) in
      rw (full) (ap pairs (sym e) ∙ pairs-to_hex id bytes),
)

-- The values of two digits, and that they are digits.
digits : (n : ℕ) → n < 16 → (is_hex_digit (hex_digit n) ≡ true) × (digit (hex_digit n) ≡ n)
unfolding is_hex_digit hex_digit digit
digits n h = (ground arith, ground arith)

all_hex_digits-to_hex : (bs : List ℕ) → IsBytes bs → all_hex_digits (to_hex bs) ≡ true
unfolding all_hex_digits to_hex
all_hex_digits-to_hex [] h = refl
all_hex_digits-to_hex (b ∷ bs) (p, h) =
    rw ((digits (b / 16) (omega arith)).0, (digits (b % 16) (omega arith)).0)
      (all_hex_digits-to_hex bs h)

digit_pairs-to_hex : (bs : List ℕ) → IsBytes bs → digit_pairs (to_hex bs) ≡ bs
unfolding digit_pairs to_hex
digit_pairs-to_hex [] h = refl
digit_pairs-to_hex (b ∷ bs) (p, h) =
    ap₂ ◌∷◌ (omega (arith, (digits (b / 16) (omega arith)).1, (digits (b % 16) (omega arith)).1))
      (digit_pairs-to_hex bs h)

-- `unhex` reads back the bytes that `to_hex` printed.
pub unhex-to_hex : (bs : List ℕ) → IsBytes bs → unhex (to_hex bs) ≡ ok bs
unfolding unhex
unhex-to_hex bs h =
    rw
      (all_hex_digits-to_hex bs h, length-to_hex bs, (==_iff (2 * length bs % 2) 0).1 (omega arith))
      (ap ok (digit_pairs-to_hex bs h))
