-- ===== src/Bytes.antt =====
-- Bytes, little-endian integers, byte strings in lexicographic order, and UTF-8, as Rust's core
-- library has them: `u64::to_le_bytes`, `u64::from_le_bytes`, `<[u8]>::cmp`, `str::from_utf8`.
pub mod Utf8
pub mod Order
use Prim.Native.Char.{code}
use Prim.Native.String.{String}
use ducktape_sdk.Prelude.{
  ℕ, zero, suc, ◌+◌, ◌*◌, ◌/◌, ◌%◌, ◌^◌, ◌≤◌, ◌<◌, ◌≡◌, refl, ap, subst, ap₂, ◌∙◌, List, [], ◌∷◌,
  ◌++◌, arith, All, length,
}
use native.Mathlib.Nat.{pow-suc, div-add-mod}

abbrev pub IsByte : ℕ → Type 0
IsByte b = b < 256

-- The bytes of a text of ASCII characters.
abbrev pub ascii : String → List ℕ
ascii String.[] = []
ascii (String.◌∷◌ c s) = code c ∷ ascii s

abbrev pub IsBytes : List ℕ → Type 0
IsBytes = All IsByte

-- The lowest `k` bytes of a number, the lowest first: a wider number is cut to `k` bytes.
unfoldable pub to_le_bytes : ℕ → ℕ → List ℕ
to_le_bytes zero v = []
to_le_bytes (suc k) v = (v % 256) ∷ to_le_bytes k (v / 256)

unfoldable pub from_le_bytes : List ℕ → ℕ
from_le_bytes [] = 0
from_le_bytes (b ∷ bs) = b + 256 * from_le_bytes bs

pub length-to_le_bytes : (k v : ℕ) → length (to_le_bytes k v) ≡ k
unfolding to_le_bytes
length-to_le_bytes zero v = refl
length-to_le_bytes (suc k) v = ap suc (length-to_le_bytes k (v / 256))

pub to_le_bytes-IsBytes : (k v : ℕ) → IsBytes (to_le_bytes k v)
unfolding to_le_bytes
to_le_bytes-IsBytes zero v = tt
to_le_bytes-IsBytes (suc k) v = (omega arith, to_le_bytes-IsBytes k (v / 256))

pub from_le_bytes-to_le_bytes : (k v : ℕ) → v < 256 ^ k → from_le_bytes (to_le_bytes k v) ≡ v
unfolding to_le_bytes from_le_bytes
from_le_bytes-to_le_bytes zero v h = omega arith
from_le_bytes-to_le_bytes (suc k) v h =
    omega (arith, from_le_bytes-to_le_bytes k (v / 256) (below k v h))
  where
    below : (k v : ℕ) → v < 256 ^ suc k → v / 256 < 256 ^ k
    below k v h = omega (arith, pow-suc 256 k)

pub to_le_bytes-from_le_bytes :
    (bs : List ℕ) → IsBytes bs → to_le_bytes (length bs) (from_le_bytes bs) ≡ bs
unfolding to_le_bytes from_le_bytes
to_le_bytes-from_le_bytes [] h = refl
to_le_bytes-from_le_bytes (b ∷ bs) (p, h) = ap₂ ◌∷◌ (omega arith) (
    ap (to_le_bytes (length bs)) {x = (b + 256 * from_le_bytes bs) / 256} (omega arith)
    ∙ to_le_bytes-from_le_bytes bs h)

pub from_le_bytes-lt : (bs : List ℕ) → IsBytes bs → from_le_bytes bs < 256 ^ length bs
unfolding from_le_bytes
from_le_bytes-lt [] h = omega arith
from_le_bytes-lt (b ∷ bs) (p, h) = omega (arith, pow-suc 256 (length bs), from_le_bytes-lt bs h)

-- The same for an array of `k` bytes.
pub le_array :
    (k : ℕ) (a : List ℕ)
    → length a ≡ k
    → IsBytes a
    → (to_le_bytes k (from_le_bytes a) ≡ a) × (from_le_bytes a < 256 ^ k)
le_array k a e b = (
  subst (λ n. to_le_bytes n (from_le_bytes a) ≡ a) e (to_le_bytes-from_le_bytes a b),
  subst (λ n. from_le_bytes a < 256 ^ n) e (from_le_bytes-lt a b),
)
