-- ===== src/Bytes/Utf8.antt =====
-- `str::from_utf8` as a test: the well-formed sequences of the Unicode standard's table 3-7.
use ducktape_sdk.Prelude.{
  All, ◌<◌, arith, ℕ, zero, suc, ◌≡◌, refl, Bool, true, false, ◌&&◌, List, [], ◌∷◌, leb,
  if◌then◌else◌,
}

-- What the next byte must be: the first of a sequence, or a continuation byte between two bounds
-- with so many plain ones behind it.
pub data Expect : Type 0 where
  first : Expect
  tail : ℕ → ℕ → ℕ → Expect
  bad : Expect

within : ℕ → ℕ → ℕ → Bool
within lo hi b = leb lo b && leb b hi

after_first : ℕ → Expect
unfolding within
after_first b =
    if leb b 0x7F
    then first
    else if within 0xC2 0xDF b
    then tail 0x80 0xBF 0
    else if within 0xE0 0xE0 b
    then tail 0xA0 0xBF 1
    else if within 0xED 0xED b
    then tail 0x80 0x9F 1
    else if within 0xE1 0xEF b
    then tail 0x80 0xBF 1
    else if within 0xF0 0xF0 b
    then tail 0x90 0xBF 2
    else if within 0xF1 0xF3 b
    then tail 0x80 0xBF 2
    else if within 0xF4 0xF4 b
    then tail 0x80 0x8F 2
    else bad

after_tail : ℕ → Expect
after_tail zero = first
after_tail (suc n) = tail 0x80 0xBF n

next : Expect → ℕ → Expect
unfolding after_first after_tail within
next first b = after_first b
next (tail lo hi n) b = if within lo hi b then after_tail n else bad
next bad b = bad

accepts : Expect → List ℕ → Bool
unfolding next
accepts first [] = true
accepts (tail lo hi n) [] = false
accepts bad [] = false
accepts e (b ∷ bs) = accepts (next e b) bs

unfoldable pub is_utf8 : List ℕ → Bool
unfolding accepts
is_utf8 = accepts first

abbrev pub IsUtf8 : List ℕ → Type 0
IsUtf8 s = is_utf8 s ≡ true

-- "hé€😀", a lone continuation byte, an overlong form, a surrogate and a cut sequence.
is_utf8_accepts :
    is_utf8 (0x68 ∷ 0xC3 ∷ 0xA9 ∷ 0xE2 ∷ 0x82 ∷ 0xAC ∷ 0xF0 ∷ 0x9F ∷ 0x98 ∷ 0x80 ∷ []) ≡ true
unfolding is_utf8
is_utf8_accepts = refl

is_utf8_refuses :
    (is_utf8 (0x80 ∷ []) ≡ false)
    × (is_utf8 (0xC0 ∷ 0x80 ∷ []) ≡ false)
    × (is_utf8 (0xED ∷ 0xA0 ∷ 0x80 ∷ []) ≡ false)
    × (is_utf8 (0xE2 ∷ 0x82 ∷ []) ≡ false)
unfolding is_utf8
is_utf8_refuses = (refl, refl, refl, refl)

-- ASCII is text.
pub is_utf8-ascii : (s : List ℕ) → All (λ b. b < 128) s → is_utf8 s ≡ true
unfolding is_utf8 accepts next after_first
is_utf8-ascii [] h = refl
is_utf8-ascii (b ∷ s) (small, h) =
    let one : leb b 0x7F ≡ true = ground arith in rw (one) (is_utf8-ascii s h)
