-- ===== src/Duckfs/Refs/ImageLen.antt =====
-- `encoded_refs_len` against the encoder.
use ducktape_sdk.Prelude.{
  ℕ, ◌+◌, ◌*◌, ◌≡◌, refl, Option, none, some, List, [], ◌∷◌, ◌++◌, length, length-append,
  concat_map, All, arith,
}
use ducktape_sdk.Bytes.{to_le_bytes, length-to_le_bytes}
use ducktape_sdk.Duckfs.Codec.{push_string, push_u32}
use ducktape_sdk.Duckfs.Codec.Fields.{length-push_string}
use ducktape_sdk.Duckfs.Actor
use ducktape_sdk.Duckfs.Actor.RoundTrip.{length-encode}
use ducktape_sdk.Duckfs.Objects.{ObjectId, encode_opt_id}
use ducktape_sdk.Duckfs.Refs.{
  Refs, PinEntry, Staged, encode_pin, encode_staged, encode_watch, encode_refs, encoded_refs_len,
  pin_entry_len, staged_entry_len, watch_entry_len, sum_by, id_len,
}

-- An id is an array of 32 bytes.
abbrev pub Is32 : List ℕ → Type 0
Is32 id = length id ≡ 32

-- An id that may be absent.
abbrev pub IsOpt32 : Option ObjectId → Type 0
IsOpt32 none = Unit
IsOpt32 (some id) = Is32 id

-- The ids of a refs value are arrays, as their type says.
pub record HasIds (r : Refs) : Type 0 where
  pub head_id : IsOpt32 r.head
  pub window_ids : All Is32 r.window
  pub pin_ids : All (λ e. Is32 e.1.snapshot) r.pins
  pub staging_ids : All (λ e. Is32 e.0) r.staging
  pub retention_id : IsOpt32 r.retention_root

module _ {ℓ} {A : Type ℓ} (enc : A → List ℕ) (len : A → ℕ) where
  length-concat_map :
      (P : A → Type 0)
      → ((a : A) → P a → length (enc a) ≡ len a)
      → (xs : List A) → All P xs
      → length (concat_map enc xs) ≡ sum_by len xs
  length-concat_map P h [] p = refl
  length-concat_map P h (x ∷ xs) (p, ps) =
      omega (arith, length-append (enc x) (concat_map enc xs), h x p, length-concat_map P h xs ps)

length-opt_id : (o : Option ObjectId) → IsOpt32 o → length (encode_opt_id o) ≡ 1 + id_len o
unfolding encode_opt_id
length-opt_id none h = refl
length-opt_id (some id) h = omega (arith, h)

sum_ids : (ids : List ObjectId) → sum_by (λ _. 32) ids ≡ 32 * length ids
sum_ids [] = refl
sum_ids (id ∷ ids) = omega (arith, sum_ids ids)

length-pin :
    (e : List ℕ × PinEntry)
    → Is32 e.1.snapshot
    → length (encode_pin e) ≡ pin_entry_len e.0 e.1.owner
unfolding pin_entry_len
length-pin (name, pin) h = omega (
  arith,
  length-append (push_string name) (pin.snapshot ++ Actor.encode pin.owner),
  length-append pin.snapshot (Actor.encode pin.owner),
  length-push_string name,
  length-encode pin.owner,
)

length-staged :
    (e : ObjectId × Staged) → Is32 e.0 → length (encode_staged e) ≡ staged_entry_len e.1.owner
unfolding staged_entry_len
length-staged (digest, staged) h = omega (
  arith,
  length-append digest
      (Actor.encode staged.owner ++ (to_le_bytes 8 staged.len ++ to_le_bytes 8 staged.expires_at)),
  length-append (Actor.encode staged.owner)
      (to_le_bytes 8 staged.len ++ to_le_bytes 8 staged.expires_at),
  length-append (to_le_bytes 8 staged.len) (to_le_bytes 8 staged.expires_at),
  length-to_le_bytes 8 staged.len,
  length-to_le_bytes 8 staged.expires_at,
  length-encode staged.owner,
)

length-watch :
    (e : (List ℕ × List ℕ) × Unit {0})
    → Unit {0}
    → length (encode_watch e) ≡ watch_entry_len e.0.0 e.0.1
unfolding watch_entry_len
length-watch ((prefix, module_id), _) h = omega (
  arith,
  length-append (push_string prefix) (push_string module_id),
  length-push_string prefix,
  length-push_string module_id,
)

All-Unit {ℓ} : {A : Type ℓ} (xs : List A) → All (λ _. Unit {0}) xs
All-Unit [] = tt
All-Unit (x ∷ xs) = (tt, All-Unit xs)

-- The arithmetic twin counts the image: on every refs value whose ids are 32 bytes, `encoded_refs_len`
-- is the length of what `encode_refs` writes.
pub encoded_refs_len-eq-length : (r : Refs) → HasIds r → encoded_refs_len r ≡ length (encode_refs r)
unfolding encoded_refs_len encode_refs push_u32
encoded_refs_len-eq-length r h = omega (
  arith,
  length-append {0} {A = ℕ},
  length-to_le_bytes,
  length-opt_id r.head h.head_id,
  length-concat_map (λ id. id) (λ _. 32) Is32 (λ id p. p) r.window h.window_ids,
  sum_ids r.window,
  length-concat_map encode_pin (λ e. pin_entry_len e.0 e.1.owner) _ length-pin r.pins h.pin_ids,
  length-concat_map encode_staged (λ e. staged_entry_len e.1.owner) _ length-staged r.staging
      h.staging_ids,
  length-concat_map encode_watch (λ e. watch_entry_len e.0.0 e.0.1) _ length-watch r.watches
      (All-Unit r.watches),
  length-opt_id r.retention_root h.retention_id,
)
