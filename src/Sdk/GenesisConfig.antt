-- ===== src/Sdk/GenesisConfig.antt =====
-- crates/kernel/sdk/src/genesis_config.rs: the parameter list that a network installs at genesis.
-- `none` stands for the panic of `encode_config` on keys that do not increase.
pub mod TimeUnit
pub mod RoundTrip
use mathlib.Core.Option
use ducktape_sdk.Prelude.{
  ℕ, Bool, true, false, not, Option, none, some, List, [], ◌∷◌, ◌++◌, length, if◌then◌else◌,
}
use ducktape_sdk.Bytes.Order.{bytes_lt, bytes_eq}
use ducktape_sdk.Parser.{Result, Read, pure, refuse_if, ◌>>=◌, ◌>>◌, for_each}
use ducktape_sdk.Sdk.Codec.{
  Error, keys_not_increasing, Cursor, ReadCursor, u64_le, push_str, push_bytes, new, u64, bound,
  string, bytes, complete,
}

-- A key and its value.
abbrev pub Param : Type 0
Param = List ℕ × List ℕ

-- `prev.is_none_or(|p| p < key)`
unfoldable pub increases : Option (List ℕ) → List ℕ → Bool
increases none key = true
increases (some p) key = bytes_lt p key

unfoldable pub encode_params : Option (List ℕ) → List Param → Option (List ℕ)
encode_params prev [] = some []
encode_params prev ((key, value) ∷ params) =
    let rest = encode_params (some key) params in
    if increases prev key
    then Option.map (λ out. push_str key ++ (push_bytes value ++ out)) rest
    else none

unfoldable pub encode_config : List Param → Option (List ℕ)
encode_config params = Option.map (λ out. u64_le (length params) ++ out) (encode_params none params)

-- One round of the loop of `decode_config`, over `prev` and `params`.
unfoldable pub decode_param :
    Option (List ℕ) × List Param → ReadCursor (Option (List ℕ) × List Param)
decode_param (prev, params) = do
  key ← string "genesis-config key"
  refuse_if (not (increases prev key)) keys_not_increasing
  value ← bytes "genesis-config value"
  pure (some key, params ++ ((key, value) ∷ []))

unfoldable pub read_config : ReadCursor (List Param)
read_config = do
  count ← u64 "genesis-config parameter count"
  bound count 16 "genesis-config parameter"
  (prev, params) ← for_each count decode_param (none, [])
  pure params

unfoldable pub decode_config : List ℕ → Result Error (List Param)
decode_config bytes = complete "genesis-config" read_config (new bytes)

unfoldable pub find : List Param → List ℕ → Option (List ℕ)
find [] key = none
find ((k, v) ∷ params) key = if bytes_eq k key then some v else find params key
