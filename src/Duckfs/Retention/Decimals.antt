-- ===== src/Duckfs/Retention/Decimals.antt =====
-- The decimal texts of crates/duckfs/core/src/retention.rs: `to_string` against `parse` of a `u64`.
use ducktape_sdk.Prelude.{
  ◌↔◌, ℕ, zero, suc, ◌+◌, ◌-◌, ◌*◌, ◌/◌, ◌%◌, ◌^◌, ◌≤◌, ◌<◌, ◌≡◌, refl, sym, ap, ◌∙◌, true, false,
  not, ◌&&◌, none, some, List, [], ◌∷◌, ◌++◌, length, length-append, leb, ltb, ◌==◌, inl, inr,
  Bool-cases, arith,
}
use ducktape_sdk.Duckfs.Retention.{
  decimal_digits, decimal, parse_digits, parse_u64, positive_number,
}
use ducktape_sdk.Parser.{ok}
use ducktape_sdk.Bytes.Order.{bytes_eq, bytes_eq_self, bytes_eq→eq}
use ducktape_sdk.Duckfs.Results.{◌>>=◌, ok_or, deny_if, bind-ok, ok_or-ok, deny_if-ok, ok-eq}
use ducktape_sdk.Duckfs.Errors.{retention_number}

-- One more digit at the end.
parse_digits-snoc :
    (acc c v : ℕ) (s : List ℕ)
    → parse_digits acc s ≡ some v
    → 48 ≤ c
    → c ≤ 57
    → v * 10 + (c - 48) < 2 ^ 64
    → parse_digits acc (s ++ (c ∷ [])) ≡ some (v * 10 + (c - 48))
unfolding parse_digits
parse_digits-snoc acc c v [] h low high fits = ground arith
parse_digits-snoc acc c v (x ∷ s) h low high fits = elim (Bool-cases (leb 48 x && leb x 57)) [
  | inl digit ↦ elim (Bool-cases (ltb (acc * 10 + (x - 48)) (2 ^ 64))) [
    | inl small ↦
        rw (digit, small)
          (parse_digits-snoc (acc * 10 + (x - 48)) c v s (rw (digit, small) at h) low high fits)
    | inr big ↦ let no : none ≡ some v = rw (digit, big) at h in absurd (cc)
  ]
  | inr other ↦ let no : none ≡ some v = rw (other) at h in absurd (cc)
]

parse_digits-decimal_digits :
    (k n : ℕ) → n < 10 ^ suc k → n < 2 ^ 64 → parse_digits 0 (decimal_digits (suc k) n) ≡ some n
unfolding decimal_digits parse_digits
parse_digits-decimal_digits zero n h fits = elim (Bool-cases (ltb n 10)) [
  | inl one ↦ rw (one) (ground arith)
  | inr more ↦ absurd (ground arith)
]
parse_digits-decimal_digits (suc k) n h fits =
    let before = parse_digits-decimal_digits k (n / 10) (omega arith) (omega arith) in
    let digit =
      parse_digits-snoc 0 (48 + n % 10) (n / 10) (decimal_digits (suc k) (n / 10)) before
        (omega arith) (omega arith) (omega arith) in
    elim (Bool-cases (ltb n 10)) [
      | inl one ↦ rw (one) (ground arith)
      | inr more ↦ rw (more) (digit ∙ ap some (omega arith))
    ]

-- A text that reads as a number starts with a digit, and so with no plus sign.
parse_u64-digits :
    (s : List ℕ) (n : ℕ) → 0 < length s → parse_digits 0 s ≡ some n → parse_u64 s ≡ some n
unfolding parse_u64 parse_digits
parse_u64-digits [] n pos h = absurd (omega arith)
parse_u64-digits (c ∷ s) n pos h = elim (Bool-cases (c == b'+')) [
  | inl plus ↦ let e : c ≡ 43 = ground arith in let no : none ≡ some n = rw (e) at h in absurd (cc)
  | inr e ↦ rw (e) h
]

length-decimal_digits : (k n : ℕ) → 0 < length (decimal_digits (suc k) n)
unfolding decimal_digits
length-decimal_digits k n = elim (Bool-cases (ltb n 10)) [
  | inl one ↦ rw (one) (omega arith)
  | inr more ↦
      rw (more) (omega (arith, length-append (decimal_digits k (n / 10)) ((48 + n % 10) ∷ [])))
]

pub parse_u64-decimal : (n : ℕ) → n < 2 ^ 64 → parse_u64 (decimal n) ≡ some n
unfolding decimal
parse_u64-decimal n h =
    parse_u64-digits (decimal_digits 20 n) n (length-decimal_digits 19 n)
      (parse_digits-decimal_digits 19 n (omega arith) h)

parse_digits-below :
    (acc v : ℕ) (s : List ℕ) → acc < 2 ^ 64 → parse_digits acc s ≡ some v → v < 2 ^ 64
unfolding parse_digits
parse_digits-below acc v [] below h = let e : acc ≡ v = cc in omega arith
parse_digits-below acc v (x ∷ s) below h = elim (Bool-cases (leb 48 x && leb x 57)) [
  | inl digit ↦ elim (Bool-cases (ltb (acc * 10 + (x - 48)) (2 ^ 64))) [
    | inl small ↦
        parse_digits-below (acc * 10 + (x - 48)) v s (ground arith) (rw (digit, small) at h)
    | inr big ↦ let no : none ≡ some v = rw (digit, big) at h in absurd (cc)
  ]
  | inr other ↦ let no : none ≡ some v = rw (other) at h in absurd (cc)
]

parse_u64-below : (s : List ℕ) (n : ℕ) → parse_u64 s ≡ some n → n < 2 ^ 64
unfolding parse_u64
parse_u64-below [] n h = absurd (cc)
parse_u64-below (c ∷ s) n h = elim (Bool-cases (c == b'+')) [
  | inl plus ↦ elim (Bool-cases (length s == 0)) [
    | inl bare ↦ let no : none ≡ some n = rw (plus, bare) at h in absurd (cc)
    | inr digits ↦ parse_digits-below 0 n s (omega arith) (rw (plus, digits) at h)
  ]
  | inr plain ↦ parse_digits-below 0 n (c ∷ s) (omega arith) (rw (plain) at h)
]

is_canonical :
    (value : List ℕ) (n : ℕ)
    → (not (not (n == 0) && bytes_eq (decimal n) value)) ≡ false
    → (0 < n) × (value ≡ decimal n)
is_canonical value n h = elim (Bool-cases (n == 0)) [
  | inl z ↦ let no : true ≡ false = rw (z) at h in absurd (cc)
  | inr pos ↦ elim (Bool-cases (bytes_eq (decimal n) value)) [
    | inl same ↦ (ground arith, sym (bytes_eq→eq (decimal n) value same))
    | inr other ↦ let no : true ≡ false = rw (pos, other) at h in absurd (cc)
  ]
]

positive_number-decimal : (n : ℕ) → 0 < n → n < 2 ^ 64 → positive_number (decimal n) ≡ ok n
unfolding positive_number ◌>>=◌
positive_number-decimal n pos fits =
    let nonzero : (n == 0) ≡ false = ground arith in
    rw (parse_u64-decimal n fits, bytes_eq_self (decimal n), nonzero) refl

positive_number-ok :
    (value : List ℕ) (n : ℕ)
    → positive_number value ≡ ok n
    → (0 < n) × (n < 2 ^ 64) × (value ≡ decimal n)
unfolding positive_number
positive_number-ok value n h =
    let (k, parsed, rest) = bind-ok (ok_or (parse_u64 value) retention_number) _ n h in
    let (_, tested, last) = bind-ok (deny_if _ retention_number) _ n rest in
    let e : k ≡ n = ok-eq k n last in
    let (pos, same) = is_canonical value k (deny_if-ok _ retention_number _ tested) in
    let below = parse_u64-below value k (ok_or-ok (parse_u64 value) retention_number k parsed) in
    (omega arith, omega arith, same ∙ ap decimal e)

-- The number fields of a record read exactly the texts that `to_string` makes of the numbers from 1 up
-- that fit 64 bits: each of these reads back, and a sign, a leading zero, a zero or an overflow is
-- refused.
pub positive_number_iff :
    (value : List ℕ) (n : ℕ)
    → (positive_number value ≡ ok n) ↔ ((0 < n) × (n < 2 ^ 64) × (value ≡ decimal n))
positive_number_iff value n = (
  positive_number-ok value n,
  λ (pos, fits, e). ap positive_number e ∙ positive_number-decimal n pos fits,
)
