-- ===== src/Tests/Rules.antt =====
-- The rules on paths, actors, sizes, hex and the genesis config on concrete values.
use ducktape_sdk.Prelude.{
  ℕ, ◌+◌, ◌≡◌, inl, inr, refl, some, List, [], ◌∷◌, true, arith, length, All,
}
use ducktape_sdk.Bytes.{ascii, to_le_bytes}
use ducktape_sdk.Bytes.Utf8.{is_utf8}
use ducktape_sdk.Bytes.Order.{bytes_eq, bytes_lt}
use ducktape_sdk.Parser.{ok}
use ducktape_sdk.Sdk.Codec.{u64_le, push_bytes, push_str}
use ducktape_sdk.Sdk.GenesisConfig.{Param, increases, encode_params, encode_config, decode_config}
use ducktape_sdk.Sdk.GenesisConfig.RoundTrip.{
  IsParam, decode_config-encode_config, encode_config-decode_config,
}
use ducktape_sdk.Sdk.GenesisConfig.TimeUnit
use ducktape_sdk.Sdk.GenesisConfig.TimeUnit.{decode-encode_iff}
use ducktape_sdk.Duckfs.Limits.{chunk_size}
use ducktape_sdk.Duckfs.Kind
use ducktape_sdk.Duckfs.Kind.{from_u8-tag_iff}
use ducktape_sdk.Duckfs.Actor
use ducktape_sdk.Duckfs.Actor.{
  Actor, Authority, external, program, mod_authority, system_authority, account, key, mod_id,
  system, controls, validate,
}
use ducktape_sdk.Duckfs.Actor.Control.{controls_iff, validate_iff}
use ducktape_sdk.Duckfs.Actor.RoundTrip.{length-encode}
use ducktape_sdk.Duckfs.Chunks.{verify_chunk_len_at, verify_file_shape}
use ducktape_sdk.Duckfs.Chunks.Sizes.{sum, sum-eq-size, verify_file_shape_iff}
use ducktape_sdk.Duckfs.Paths.{
  Segments, canonical, is_namespace_root, contains_nul, is_dot_segment, check_authority,
}
use ducktape_sdk.Duckfs.Paths.Canonical.{canonical_iff}
use ducktape_sdk.Duckfs.Paths.Writable.{check_authority_iff, namespace_root-system}
use ducktape_sdk.Duckfs.Hex.{to_hex, from_hex_32, unhex}
use ducktape_sdk.Duckfs.Hex.RoundTrip.{from_hex_32-to_hex_iff, unhex-to_hex}
use ducktape_sdk.Tests.{some_id, all_bytes→IsBytes}

-- The stand-in for NFC normalization, which keeps ASCII text.
abbrev nfc : List ℕ → List ℕ
nfc path = path

abbrev segments : Segments
segments = ascii "home" ∷ ascii "me" ∷ ascii "a.txt" ∷ []

canonical_iff_example : canonical nfc (ascii "/home/me/a.txt") ≡ ok segments
unfolding contains_nul is_dot_segment bytes_eq
canonical_iff_example = (canonical_iff nfc (ascii "/home/me/a.txt") segments).1 (
  refl,
  (refl, refl, omega arith),
  (
    (refl, omega arith, (refl, (refl, (refl, (refl, tt))))),
    (
      (refl, omega arith, (refl, (refl, tt))),
      ((refl, omega arith, (refl, (refl, (refl, (refl, (refl, tt)))))), tt),
    ),
  ),
  omega arith,
)

check_authority_iff_example : check_authority (program 5) segments ≡ ok tt
check_authority_iff_example =
    (check_authority_iff (program 5) segments).1 (inr (inl (refl, omega arith)))

namespace_root-system_example : system_authority ≡ system_authority
unfolding is_namespace_root bytes_eq check_authority
namespace_root-system_example =
    namespace_root-system system_authority (ascii "shared" ∷ []) refl refl

controls_iff_example : controls (external (ascii "k") (some 4)) (key (ascii "k")) ≡ true
controls_iff_example =
    (controls_iff (external (ascii "k") (some 4)) (key (ascii "k"))).1 (inr (ascii "k", refl, refl))

validate_iff_example : validate (program 4) ≡ ok tt
unfolding Actor.actor
validate_iff_example = (validate_iff (program 4)).1 (omega arith)

length-encode_example :
    length (Actor.encode (mod_id (ascii "pages"))) ≡ Actor.encoded_len (mod_id (ascii "pages"))
length-encode_example = length-encode (mod_id (ascii "pages"))

verify_file_shape_iff_example : verify_file_shape (chunk_size + 1) 2 ≡ ok tt
verify_file_shape_iff_example =
    (verify_file_shape_iff (chunk_size + 1) 2 (omega arith)).1 (omega arith)

sum-eq-size_example : sum (chunk_size ∷ 3 ∷ []) ≡ chunk_size + 3
unfolding verify_chunk_len_at
sum-eq-size_example =
    sum-eq-size (chunk_size + 3) (chunk_size ∷ 3 ∷ []) (omega arith) (omega arith)
      (refl, (refl, tt))

from_hex_32-to_hex_iff_example : from_hex_32 (to_hex some_id) ≡ some some_id
from_hex_32-to_hex_iff_example =
    (from_hex_32-to_hex_iff (to_hex some_id) some_id).1
      ((refl, all_bytes→IsBytes some_id refl), refl)

unhex-to_hex_example : unhex (to_hex some_id) ≡ ok some_id
unhex-to_hex_example = unhex-to_hex some_id (all_bytes→IsBytes some_id refl)

from_u8-tag_iff_example : Kind.from_u8 3 ≡ some Kind.snapshot
unfolding Kind.tag
from_u8-tag_iff_example = (from_u8-tag_iff 3 Kind.snapshot).1 refl

decode-encode_iff_example : TimeUnit.decode (TimeUnit.encode TimeUnit.millis) ≡ ok TimeUnit.millis
decode-encode_iff_example =
    (decode-encode_iff (TimeUnit.encode TimeUnit.millis) TimeUnit.millis).1 refl

abbrev params : List Param
params = (ascii "chain_id", 1 ∷ []) ∷ (ascii "time_unit", ascii "ms") ∷ []

-- The encoding of `params`.
abbrev params_bytes : List ℕ
params_bytes =
    2 ∷ 0 ∷ 0 ∷ 0 ∷ 0 ∷ 0 ∷ 0 ∷ 0 ∷ 8 ∷ 0 ∷ 0 ∷ 0 ∷ 0 ∷ 0 ∷ 0 ∷ 0 ∷ 99 ∷ 104 ∷ 97 ∷ 105 ∷ 110 ∷ 95
    ∷ 105 ∷ 100 ∷ 1 ∷ 0 ∷ 0 ∷ 0 ∷ 0 ∷ 0 ∷ 0 ∷ 0 ∷ 1 ∷ 9 ∷ 0 ∷ 0 ∷ 0 ∷ 0 ∷ 0 ∷ 0 ∷ 0 ∷ 116 ∷ 105
    ∷ 109 ∷ 101 ∷ 95 ∷ 117 ∷ 110 ∷ 105 ∷ 116 ∷ 2 ∷ 0 ∷ 0 ∷ 0 ∷ 0 ∷ 0 ∷ 0 ∷ 0 ∷ 109 ∷ 115 ∷ []

-- A text or a value of these few bytes is within the bounds.
params-IsParam : All IsParam params
unfolding is_utf8
params-IsParam = (
  (
    ((omega arith, omega arith, all_bytes→IsBytes (ascii "chain_id") refl), refl),
    (omega arith, omega arith, all_bytes→IsBytes (1 ∷ []) refl),
  ),
  (
    (
      ((omega arith, omega arith, all_bytes→IsBytes (ascii "time_unit") refl), refl),
      (omega arith, omega arith, all_bytes→IsBytes (ascii "ms") refl),
    ),
    tt,
  ),
)

decode_config-encode_config_example : decode_config params_bytes ≡ ok params
unfolding encode_config encode_params increases u64_le push_bytes push_str to_le_bytes bytes_lt
decode_config-encode_config_example =
    decode_config-encode_config params params_bytes params-IsParam (omega arith) refl

params_read : decode_config params_bytes ≡ ok params
unfolding encode_config encode_params increases u64_le push_bytes push_str to_le_bytes bytes_lt
params_read = decode_config-encode_config params params_bytes params-IsParam (omega arith) refl

encode_config-decode_config_example :
    (encode_config params ≡ some params_bytes) × All IsParam params
encode_config-decode_config_example =
    encode_config-decode_config params_bytes params (all_bytes→IsBytes params_bytes refl)
      params_read
