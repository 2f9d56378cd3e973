-- ===== src/Tests.antt =====
-- Concrete inputs, and what the theorems say of them.
mod Frames
mod Overlay
mod Rules
mod Edit
mod Machine
use ducktape_sdk.Prelude.{ℕ, ◌<◌, ◌≡◌, refl, Bool, true, false, ◌&&◌, List, [], ◌∷◌, ltb, arith}
use ducktape_sdk.Bytes.{IsBytes, ascii}

-- An id of 32 bytes.
abbrev pub some_id : List ℕ
some_id =
    1 ∷ 2 ∷ 3 ∷ 4 ∷ 5 ∷ 6 ∷ 7 ∷ 8 ∷ 9 ∷ 10 ∷ 11 ∷ 12 ∷ 13 ∷ 14 ∷ 15 ∷ 16 ∷ 17 ∷ 18 ∷ 19 ∷ 20 ∷ 21
    ∷ 22 ∷ 23 ∷ 24 ∷ 25 ∷ 26 ∷ 27 ∷ 28 ∷ 29 ∷ 30 ∷ 31 ∷ 255 ∷ []

abbrev pub all_bytes : List ℕ → Bool
all_bytes [] = true
all_bytes (b ∷ bs) = ltb b 256 && all_bytes bs

-- The bytes of a concrete list, by computation.
pub all_bytes→IsBytes : (bs : List ℕ) → all_bytes bs ≡ true → IsBytes bs
all_bytes→IsBytes [] h = tt
all_bytes→IsBytes (b ∷ bs) h = (ground arith, all_bytes→IsBytes bs (ground arith))
