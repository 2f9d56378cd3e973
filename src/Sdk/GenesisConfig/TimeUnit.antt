-- ===== src/Sdk/GenesisConfig/TimeUnit.antt =====
-- `TimeUnit` of crates/kernel/sdk/src/genesis_config.rs.
use ducktape_sdk.Prelude.{ℕ, ◌≡◌, ◌↔◌, ap, List, if◌then◌else◌, arith}
use ducktape_sdk.Bytes.{ascii}
use ducktape_sdk.Bytes.Order.{bytes_eq, bytes_eq→eq}
use ducktape_sdk.Parser.{Result, ok, err}
use ducktape_sdk.Sdk.Codec.{Error, bad_time_unit}

pub data TimeUnit : Type 0 where
  height millis : TimeUnit

unfoldable pub encode : TimeUnit → List ℕ
encode height = ascii "height"
encode millis = ascii "millis"

unfoldable pub decode : List ℕ → Result Error TimeUnit
decode bytes =
    if bytes_eq bytes (ascii "height")
    then ok height
    else if bytes_eq bytes (ascii "millis")
    then ok millis
    else err (bad_time_unit bytes)

unfoldable pub per_second : TimeUnit → ℕ
per_second height = 1
per_second millis = 1_000

-- `decode` returns a unit exactly on the bytes that `encode` gives for it.
pub decode-encode_iff : (bytes : List ℕ) (u : TimeUnit) → (decode bytes ≡ ok u) ↔ (bytes ≡ encode u)
unfolding decode encode bytes_eq
decode-encode_iff bytes height =
    (λ h. ground (arith, bytes_eq→eq bytes (ascii "height")), λ e. ap decode e)
decode-encode_iff bytes millis =
    (λ h. ground (arith, bytes_eq→eq bytes (ascii "millis")), λ e. ap decode e)
