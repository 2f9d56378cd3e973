-- ===== src/Parser/Ints.antt =====
-- Little-endian integers over any reader of fixed arrays.
use ducktape_sdk.Prelude.{ℕ, ◌^◌, ◌<◌, ◌≡◌, sym, ◌∙◌, List, length}
use ducktape_sdk.Bytes.{
  to_le_bytes, from_le_bytes, IsBytes, length-to_le_bytes, to_le_bytes-IsBytes,
  from_le_bytes-to_le_bytes, le_array,
}
use ducktape_sdk.Parser.Defs.{Read, pure, ◌>>=◌, View}
use ducktape_sdk.Parser.Reads.{Reads-map}
use ducktape_sdk.Parser.Parses.{Codes, Parses-map}

-- A reader that takes the next `k` bytes as they are.
abbrev pub IsArray : ℕ → List ℕ → Type 0
IsArray k a = (length a ≡ k) × IsBytes a

pub le_codes {ℓ κ} :
    {S : Type ℓ} {E : Type κ} (v : View S) (k : ℕ) (m : Read S E (List ℕ))
    → Codes v m (λ a. a) (IsArray k)
    → Codes v (m >>= λ a. pure (from_le_bytes a)) (to_le_bytes k) (λ n. n < 256 ^ k)
le_codes v k m c = record {
  reads = λ n h.
      Reads-map v m from_le_bytes
        (c.reads (to_le_bytes k n) (length-to_le_bytes k n, to_le_bytes-IsBytes k n))
        (from_le_bytes-to_le_bytes k n h);
  parses =
      Parses-map v m from_le_bytes _ c.parses
        λ a xs (e, (len, b)). (e ∙ sym (le_array k a len b).0, (le_array k a len b).1);
}
