-- ===== src/Duckfs/Actor.antt =====
-- crates/duckfs/core/src/actor.rs: authenticated filesystem principals.
pub mod RoundTrip
pub mod Control
use ducktape_sdk.Prelude.{
  ℕ, ◌+◌, Bool, true, false, Option, none, some, List, [], ◌∷◌, ◌++◌, length, ◌==◌, if◌then◌else◌,
}
use ducktape_sdk.Bytes.{to_le_bytes}
use ducktape_sdk.Bytes.Order.{bytes_eq}
use ducktape_sdk.Parser.{Result, ok, err, pure, fail, refuse_if, ◌>>=◌, ◌>>◌}
use ducktape_sdk.Duckfs.Errors.{
  FilesError, account_zero, empty_key, empty_module, invalid_actor_tag,
}
use ducktape_sdk.Duckfs.Codec.{ReadFrame, push_string, u8, u64, bytes, string}

-- `mod_id` is `Module`.
pub data Actor : Type 0 where
  account : ℕ → Actor
  key : List ℕ → Actor
  mod_id : List ℕ → Actor
  system : Actor

unfoldable pub encoded_len : Actor → ℕ
encoded_len (account number) = 9
encoded_len (key k) = 9 + length k
encoded_len (mod_id m) = 9 + length m
encoded_len system = 1

-- The bytes that `encode_into` appends.
unfoldable pub encode : Actor → List ℕ
encode (account number) = 0 ∷ to_le_bytes 8 number
encode (key k) = 1 ∷ (to_le_bytes 8 (length k) ++ k)
encode (mod_id m) = 2 ∷ push_string m
encode system = 3 ∷ []

decode_account : ReadFrame Actor
decode_account = do number ← u64; refuse_if (number == 0) account_zero; pure (account number)

decode_key : ReadFrame Actor
decode_key = do k ← bytes; refuse_if (length k == 0) empty_key; pure (key k)

decode_module : ReadFrame Actor
decode_module = do m ← string; refuse_if (length m == 0) empty_module; pure (mod_id m)

unfoldable pub decode : ReadFrame Actor
unfolding decode_account decode_key decode_module
decode = do
  tag ← u8
  if tag == 0
      then decode_account
      else if tag == 1
      then decode_key
      else if tag == 2
      then decode_module
      else if tag == 3
      then pure system
      else fail invalid_actor_tag

-- The derived `==`.
unfoldable pub actor_eq : Actor → Actor → Bool
actor_eq (account m) (account n) = m == n
actor_eq (key k) (key l) = bytes_eq k l
actor_eq (mod_id m) (mod_id n) = bytes_eq m n
actor_eq system system = true
actor_eq _ _ = false

pub data Authority : Type 0 where
  external : List ℕ → Option ℕ → Authority
  program : ℕ → Authority
  mod_authority : List ℕ → Authority
  system_authority : Authority

unfoldable pub actor : Authority → Actor
actor (external k none) = key k
actor (external k (some number)) = account number
actor (program number) = account number
actor (mod_authority m) = mod_id m
actor system_authority = system

-- The match of `validate`.
unfoldable pub validate_actor : Actor → Result FilesError (Unit {0})
validate_actor (account number) = if number == 0 then err account_zero else ok tt
validate_actor system = ok tt
validate_actor (key k) = if length k == 0 then err empty_key else ok tt
validate_actor (mod_id m) = if length m == 0 then err empty_module else ok tt

unfoldable pub validate : Authority → Result FilesError (Unit {0})
unfolding actor validate_actor
validate a = validate_actor (actor a)

unfoldable pub controls : Authority → Actor → Bool
unfolding actor actor_eq
controls (external k account_of) (key owner_key) = bytes_eq owner_key k
controls (program number) (key owner_key) = false
controls (mod_authority m) (key owner_key) = false
controls system_authority (key owner_key) = false
controls self owner = actor_eq owner (actor self)
