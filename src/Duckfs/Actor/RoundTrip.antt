-- ===== src/Duckfs/Actor/RoundTrip.antt =====
-- The actor codec: its length, and its two directions.
use ducktape_sdk.Prelude.{
  ℕ, suc, ◌^◌, ◌<◌, ◌≡◌, ◌≢◌, refl, ap, ap₂, ◌∙◌, true, false, List, [], ◌∷◌, ◌++◌, append-nil,
  length, ◌==◌, arith,
}
use ducktape_sdk.Bytes.{length-to_le_bytes}
use ducktape_sdk.Parser.{View}
use ducktape_sdk.Parser.Reads.{Reads, Reads-pure, Reads-bind, Reads-checked}
use ducktape_sdk.Parser.Parses.{
  Codes, Parses, Parses-pure, Parses-bind, Parses-checked, Parses-fail, Parses-if,
}
use ducktape_sdk.Duckfs.Errors.{account_zero, empty_key, empty_module, invalid_actor_tag}
use ducktape_sdk.Duckfs.Codec.{Reader, push_string, u64, bytes, string, frame_view}
use ducktape_sdk.Duckfs.Codec.Rules.{IsBlob, IsText, u8_codes, u64_codes}
use ducktape_sdk.Duckfs.Codec.Fields.{bytes_codes, string_codes, length-push_string}
use ducktape_sdk.Duckfs.Actor.{Actor, account, key, mod_id, system, encoded_len, encode, decode}

-- The actors that `decode` admits.
abbrev pub IsActor : Actor → Type 0
IsActor (account n) = (0 < n) × (n < 2 ^ 64)
IsActor (key k) = IsBlob k × (k ≢ [])
IsActor (mod_id m) = IsText m × (m ≢ [])
IsActor system = Unit

abbrev v : View Reader
v = frame_view

-- `encoded_len` is the length of what `encode_into` appends.
pub length-encode : (a : Actor) → length (encode a) ≡ encoded_len a
unfolding encode encoded_len push_string
length-encode (account n) = ap suc (length-to_le_bytes 8 n) ∙ omega arith
length-encode (key k) = omega (arith, length-push_string k)
length-encode (mod_id m) = omega (arith, length-push_string m)
length-encode system = refl

not_empty : (a : List ℕ) → a ≢ [] → (length a == 0) ≡ false
not_empty [] h = absurd (h refl)
not_empty (x ∷ xs) h = ground arith

empty_not : (a : List ℕ) → (length a == 0) ≡ false → a ≢ []
empty_not a h e = ground (arith, ap length e)

-- The tag byte, and then what the branch on it reads.
after_tag : {b : ℕ} (tag : ℕ) {xs : List ℕ} → xs ≡ b ∷ [] → (b == tag) ≡ true → xs ≡ tag ∷ []
after_tag tag e h = e ∙ ap (λ m. m ∷ []) (ground arith)

Reads-actor : (a : Actor) → IsActor a → Reads v decode (encode a) a
unfolding decode encode push_string
Reads-actor (account n) (pos, lt) =
    Reads-bind v _ _ (u8_codes.reads 0 (omega arith))
      (Reads-checked v u64 (λ m. m == 0) account_zero account (u64_codes.reads n lt) (ground arith))
Reads-actor (key k) (b, ne) = Reads-bind v _ _ (u8_codes.reads 1 (omega arith)) (
    Reads-checked v bytes (λ m. length m == 0) empty_key key (bytes_codes.reads k b)
      (not_empty k ne))
Reads-actor (mod_id m) (t, ne) = Reads-bind v _ _ (u8_codes.reads 2 (omega arith)) (
    Reads-checked v string (λ m. length m == 0) empty_module mod_id (string_codes.reads m t)
      (not_empty m ne))
Reads-actor system h = Reads-bind v _ _ (u8_codes.reads 3 (omega arith)) (Reads-pure v system)

abbrev IsEncoding : List ℕ → Actor → Type 0
IsEncoding xs a = (xs ≡ encode a) × IsActor a

parses_actor : Parses v decode IsEncoding
unfolding decode encode push_string
parses_actor = Parses-bind v _ _ u8_codes.parses λ b xs (e, _).
    Parses-if v (b == 0)
      (λ t.
        Parses-checked v u64 (λ m. m == 0) account_zero account _ u64_codes.parses
          λ n ys (e1, lt) nz. (ap₂ ◌++◌ (after_tag 0 e t) e1, (ground arith, lt)))
      λ _.
        Parses-if v (b == 1)
          (λ t.
            Parses-checked v bytes (λ m. length m == 0) empty_key key _ bytes_codes.parses
              λ k ys (e1, blob) ne. (ap₂ ◌++◌ (after_tag 1 e t) e1, (blob, empty_not k ne)))
          λ _.
            Parses-if v (b == 2)
              (λ t.
                Parses-checked v string (λ m. length m == 0) empty_module mod_id _
                  string_codes.parses
                  λ m ys (e1, text) ne. (ap₂ ◌++◌ (after_tag 2 e t) e1, (text, empty_not m ne)))
              λ _.
                Parses-if v (b == 3)
                  (λ t. Parses-pure v _ {a = system} (append-nil xs ∙ after_tag 3 e t, tt))
                  (λ _. Parses-fail v _ invalid_actor_tag)

-- `decode` reads exactly the encodings of actors with a positive account number, or a key or a
-- module name that is not empty.
pub IsActor-codes : Codes v decode encode IsActor
IsActor-codes = record { reads = Reads-actor; parses = parses_actor }
