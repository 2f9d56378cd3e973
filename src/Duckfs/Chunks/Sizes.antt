-- ===== src/Duckfs/Chunks/Sizes.antt =====
-- What the size rules pin: the number of chunks, and the bytes that they add up to.
use ducktape_sdk.Prelude.{
  ℕ, suc, ◌+◌, ◌*◌, ◌-◌, ◌/◌, ◌^◌, ◌≤◌, ◌<◌, ◌≡◌, ◌↔◌, List, [], ◌∷◌, length, arith,
}
use ducktape_sdk.Parser.{ok}
use ducktape_sdk.Duckfs.Limits.{chunk_size}
use ducktape_sdk.Duckfs.Chunks.{verify_chunk_len_at, verify_file_shape}

-- A shape passes exactly when the count is the size divided by the chunk size, rounded up, as long
-- as the span of the chunks fits 64 bits.
pub verify_file_shape_iff :
    (size n : ℕ)
    → n * chunk_size < 2 ^ 64
    → (verify_file_shape size n ≡ ok tt) ↔ (n ≡ (size + (chunk_size - 1)) / chunk_size)
unfolding verify_file_shape
verify_file_shape_iff size n h = (λ e. ground arith, λ e. ground arith)

-- The lengths of chunks `i`, `i + 1`, ... pass the rule of a file of `n` chunks.
abbrev pub AllVerify : ℕ → ℕ → ℕ → List ℕ → Type 0
AllVerify size n i [] = Unit
AllVerify size n i (len ∷ lens) =
    (verify_chunk_len_at size n i len ≡ ok tt) × AllVerify size n (suc i) lens

abbrev pub sum : List ℕ → ℕ
sum [] = 0
sum (x ∷ xs) = x + sum xs

-- One chunk that passes: its index is in range; an interior one is full, the last one is the rest of
-- the size and neither empty nor over a chunk.
pub verify_chunk_len_at_iff :
    (size n i len : ℕ)
    → n * chunk_size < 2 ^ 64
    → (verify_chunk_len_at size n i len ≡ ok tt) ↔ (
        (i < n)
        × (i + 1 < n → len ≡ chunk_size)
        × (i + 1 ≡ n → (i * chunk_size + len ≡ size) × (0 < len) × (len ≤ chunk_size)))
unfolding verify_chunk_len_at
verify_chunk_len_at_iff size n i len h = (
  λ e. (ground arith, λ k. ground arith, λ k. (ground arith, ground arith, ground arith)),
  λ (below, interior, last). ground arith,
)

sum_from :
    (size n i : ℕ) (lens : List ℕ)
    → n * chunk_size < 2 ^ 64
    → 0 < length lens
    → i + length lens ≡ n
    → AllVerify size n i lens
    → i * chunk_size + sum lens ≡ size
sum_from size n i [] h pos e all = absurd (omega arith)
sum_from size n i (len ∷ []) h pos e (v, _) =
    let (_, _, last) = (verify_chunk_len_at_iff size n i len h).0 v in
    let (total, _, _) = last (omega arith) in omega arith
sum_from size n i (len ∷ len' ∷ lens) h pos e (v, all) =
    let (_, interior, _) = (verify_chunk_len_at_iff size n i len h).0 v in
    let full : len ≡ chunk_size = interior (omega arith) in
    omega (arith, sum_from size n (suc i) (len' ∷ lens) h (omega arith) (omega arith) all)

-- If a file has chunks, their span fits 64 bits and every chunk passes the length rule, then the lengths
-- add up to the size: no chunk can stand for a hole.
pub sum-eq-size :
    (size : ℕ) (lens : List ℕ)
    → length lens * chunk_size < 2 ^ 64
    → 0 < length lens
    → AllVerify size (length lens) 0 lens
    → sum lens ≡ size
sum-eq-size size lens h pos all =
    omega (arith, sum_from size (length lens) 0 lens h pos (omega arith) all)
