-- ===== src/Duckfs/Fs/Commit/Chunking.antt =====
-- `bytes.chunks(CHUNK_SIZE)` in `chunk_bytes` of crates/duckfs/core/src/fs.rs against the length rule
-- that reads apply to the chunks.
use ducktape_sdk.Prelude.{
  ℕ, zero, suc, ◌+◌, ◌*◌, ◌^◌, ◌≤◌, ◌<◌, ◌≡◌, refl, sym, subst, ap, ◌∙◌, List, [], ◌∷◌, ◌++◌, map,
  length, take, drop, concat_map, take-append-drop, length-take, length-drop, inl, inr, ◌⊎◌, leb,
  Bool-cases, arith,
}
use ducktape_sdk.Duckfs.Limits.{chunk_size}
use ducktape_sdk.Duckfs.Chunks.Sizes.{AllVerify, verify_chunk_len_at_iff, verify_file_shape_iff}
use ducktape_sdk.Duckfs.Chunks.{verify_file_shape}
use ducktape_sdk.Duckfs.Fs.Commit.Change.{chunks_from, chunks_of}
use ducktape_sdk.Parser.{ok}

abbrev pub join : List (List ℕ) → List ℕ
join = concat_map (λ c. c)

short_or_long : (m n : ℕ) → (m ≤ n) ⊎ (n < m)
short_or_long m n = elim (Bool-cases (leb m n)) [
  | inl e ↦ inl (ground arith)
  | inr e ↦ inr (ground arith)
]

take_short {ℓ} : {A : Type ℓ} (n : ℕ) (xs : List A) → length xs ≤ n → length (take n xs) ≡ length xs
take_short zero [] h = refl
take_short zero (x ∷ xs) h = absurd (omega arith)
take_short (suc n) [] h = refl
take_short (suc n) (x ∷ xs) h = ap suc (take_short n xs (omega arith))

join-chunks_from :
    (size fuel : ℕ) (bytes : List ℕ)
    → 0 < size
    → length bytes ≤ fuel
    → join (chunks_from size fuel bytes) ≡ bytes
unfolding chunks_from
join-chunks_from size zero [] pos h = refl
join-chunks_from size zero (b ∷ bytes) pos h = absurd (omega arith)
join-chunks_from size (suc fuel) [] pos h = refl
join-chunks_from size (suc fuel) (b ∷ bytes) pos h =
    ap (λ t. take size (b ∷ bytes) ++ t)
      (join-chunks_from size fuel (drop size (b ∷ bytes)) pos
        (omega (arith, length-drop size (b ∷ bytes))))
    ∙ take-append-drop size (b ∷ bytes)

chunks_from-[] :
    (size fuel : ℕ) (bytes : List ℕ) → length bytes ≡ 0 → chunks_from size fuel bytes ≡ []
unfolding chunks_from
chunks_from-[] size zero bytes h = refl
chunks_from-[] size (suc fuel) [] h = refl
chunks_from-[] size (suc fuel) (b ∷ bytes) h = absurd (omega arith)

-- The chunks span the bytes, and less than one chunk more.
count_bounds :
    (fuel : ℕ) (bytes : List ℕ)
    → length bytes ≤ fuel
    → (length (chunks_from chunk_size fuel bytes) * chunk_size < length bytes + chunk_size)
      × (length bytes ≤ length (chunks_from chunk_size fuel bytes) * chunk_size)
unfolding chunks_from
count_bounds zero [] h = (omega arith, omega arith)
count_bounds zero (b ∷ bytes) h = absurd (omega arith)
count_bounds (suc fuel) [] h = (omega arith, omega arith)
count_bounds (suc fuel) (b ∷ bytes) h =
    let xs = b ∷ bytes in
    let left = length-drop chunk_size xs in
    let (above, below) = count_bounds fuel (drop chunk_size xs) (omega (arith, left)) in
    elim (short_or_long (length xs) chunk_size) [
      | inl short ↦
          let gone =
            ap length (chunks_from-[] chunk_size fuel (drop chunk_size xs) (omega (arith, left))) in
          (omega (arith, gone), omega (arith, gone))
      | inr long ↦ (omega (arith, above, left), omega (arith, below, left))
    ]

chunks_from-nonempty :
    (size fuel : ℕ) (bytes : List ℕ)
    → length bytes ≤ fuel
    → 0 < length bytes
    → 0 < length (chunks_from size fuel bytes)
unfolding chunks_from
chunks_from-nonempty size zero bytes h pos = absurd (omega arith)
chunks_from-nonempty size (suc fuel) [] h pos = absurd (omega arith)
chunks_from-nonempty size (suc fuel) (b ∷ bytes) h pos = omega arith

-- From chunk `i` on, when `i` full chunks went before.
verify_from :
    (size n i fuel : ℕ) (bytes : List ℕ)
    → n * chunk_size < 2 ^ 64
    → length bytes ≤ fuel
    → i * chunk_size + length bytes ≡ size
    → i + length (chunks_from chunk_size fuel bytes) ≡ n
    → AllVerify size n i (map length (chunks_from chunk_size fuel bytes))
unfolding chunks_from
verify_from size n i zero bytes fits h total count = tt
verify_from size n i (suc fuel) [] fits h total count = tt
verify_from size n i (suc fuel) (b ∷ bytes) fits h total count =
    let xs = b ∷ bytes in
    let left = length-drop chunk_size xs in
    let none_left = chunks_from-[] chunk_size fuel (drop chunk_size xs) in
    let some_left = chunks_from-nonempty chunk_size fuel (drop chunk_size xs) in
    elim (short_or_long (length xs) chunk_size) [
      | inl short ↦
          let gone = none_left (omega (arith, left)) in
          (
            (verify_chunk_len_at_iff size n i _ fits).1 (
              omega arith,
              λ e. absurd (omega (arith, ap length gone)),
              λ _. (
                omega (arith, take_short chunk_size xs short),
                omega (arith, take_short chunk_size xs short),
                omega (arith, take_short chunk_size xs short),
              ),
            ),
            subst (λ cs. AllVerify size n (suc i) (map length cs)) (sym gone) tt,
          )
      | inr long ↦ (
        (verify_chunk_len_at_iff size n i _ fits).1 (
          omega arith,
          λ _. length-take chunk_size xs (omega arith),
          λ e. absurd (omega (arith, some_left (omega (arith, left)) (omega (arith, left)))),
        ),
        verify_from size n (suc i) fuel (drop chunk_size xs) fits (omega (arith, left))
            (omega (arith, left)) (omega arith),
      )
    ]

-- For a body that is at least a chunk below 2^64 bytes, the chunking ends with the fuel given: the chunks
-- joined are the body, so none of it is left over. The file that a commit records for it has the shape
-- that the decoder wants, and each chunk has the length that a read demands of it.
pub chunks_of-join :
    (bytes : List ℕ)
    → length bytes + chunk_size ≤ 2 ^ 64
    → (join (chunks_of bytes) ≡ bytes)
      × (verify_file_shape (length bytes) (length (chunks_of bytes)) ≡ ok tt)
      × AllVerify (length bytes) (length (chunks_of bytes)) 0 (map length (chunks_of bytes))
unfolding chunks_of
chunks_of-join bytes fits =
    let n = length (chunks_from chunk_size (length bytes) bytes) in
    let (above, below) = count_bounds (length bytes) bytes (omega arith) in
    (
      join-chunks_from chunk_size (length bytes) bytes (omega arith) (omega arith),
      (verify_file_shape_iff (length bytes) n (omega (arith, above))).1
          (omega (arith, above, below)),
      verify_from (length bytes) n 0 (length bytes) bytes (omega (arith, above)) (omega arith)
          (omega arith) (omega arith),
    )
