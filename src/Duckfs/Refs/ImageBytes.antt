-- ===== src/Duckfs/Refs/ImageBytes.antt =====
-- The image of a refs value is a slice of bytes.
use ducktape_sdk.Prelude.{
  ℕ, Option, none, some, List, [], ◌∷◌, ◌++◌, length, concat_map, All, All-append, arith,
}
use ducktape_sdk.Bytes.{to_le_bytes, IsByte, IsBytes, to_le_bytes-IsBytes}
use ducktape_sdk.Parser.Ints.{IsArray}
use ducktape_sdk.Duckfs.Codec.{push_string, push_u32}
use ducktape_sdk.Duckfs.Actor
use ducktape_sdk.Duckfs.Actor.{Actor, account, key, mod_id, system}
use ducktape_sdk.Duckfs.Actor.RoundTrip.{IsActor}
use ducktape_sdk.Duckfs.Objects.{ObjectId, encode_opt_id}
use ducktape_sdk.Duckfs.Objects.Snapshot.{IsOptId}
use ducktape_sdk.Duckfs.Refs.{
  PinEntry, Staged, Refs, Watch, encode_pin, encode_staged, encode_watch, encode_refs,
}
use ducktape_sdk.Duckfs.Refs.Sections.{IsPin, IsStaged}
use ducktape_sdk.Duckfs.Refs.Watches.{IsWatch}
use ducktape_sdk.Duckfs.Refs.Canonical.{IsRefs}

join : (xs ys : List ℕ) → IsBytes xs → IsBytes ys → IsBytes (xs ++ ys)
join xs ys h k = All-append IsByte xs ys h k

text-bytes : (s : List ℕ) → IsBytes s → IsBytes (push_string s)
unfolding push_string
text-bytes s h = join (to_le_bytes 8 (length s)) s (to_le_bytes-IsBytes 8 (length s)) h

actor-bytes : (a : Actor) → IsActor a → IsBytes (Actor.encode a)
unfolding Actor.encode
actor-bytes (account n) h = (omega arith, to_le_bytes-IsBytes 8 n)
actor-bytes (key k) ((len, blob), ne) =
    (omega arith, join (to_le_bytes 8 (length k)) k (to_le_bytes-IsBytes 8 (length k)) blob)
actor-bytes (mod_id m) (((len, blob), utf8), ne) = (omega arith, text-bytes m blob)
actor-bytes system h = (omega arith, tt)

concat-bytes {ℓ} :
    {A : Type ℓ} {P : A → Type 0} (enc : A → List ℕ)
    → ((a : A) → P a → IsBytes (enc a))
    → (xs : List A) → All P xs
    → IsBytes (concat_map enc xs)
concat-bytes enc f [] h = tt
concat-bytes enc f (x ∷ xs) (p, h) =
    join (enc x) (concat_map enc xs) (f x p) (concat-bytes enc f xs h)

opt-bytes : (o : Option ObjectId) → IsOptId o → IsBytes (encode_opt_id o)
unfolding encode_opt_id
opt-bytes none h = (omega arith, tt)
opt-bytes (some id) h = (omega arith, h.1)

pin-bytes : (e : List ℕ × PinEntry) → IsPin e → IsBytes (encode_pin e)
pin-bytes (name, pin) (((len, blob), utf8), id, owner) =
    join (push_string name) (pin.snapshot ++ Actor.encode pin.owner) (text-bytes name blob)
      (join pin.snapshot (Actor.encode pin.owner) id.1 (actor-bytes pin.owner owner))

staged-bytes : (e : ObjectId × Staged) → IsStaged e → IsBytes (encode_staged e)
staged-bytes (digest, staged) (id, owner, len, expires) = join digest _ id.1 (
    join (Actor.encode staged.owner) _ (actor-bytes staged.owner owner) (
      join (to_le_bytes 8 staged.len) (to_le_bytes 8 staged.expires_at)
        (to_le_bytes-IsBytes 8 staged.len) (to_le_bytes-IsBytes 8 staged.expires_at)))

watch-bytes : (e : Watch × Unit {0}) → IsWatch e → IsBytes (encode_watch e)
watch-bytes ((prefix, module_id), u) (((len, blob), utf8), ((id_len, id_blob), id_utf8)) =
    join (push_string prefix) (push_string module_id) (text-bytes prefix blob)
      (text-bytes module_id id_blob)

count-bytes : (n : ℕ) → IsBytes (push_u32 n)
unfolding push_u32
count-bytes n = to_le_bytes-IsBytes 4 _

pub encode_refs-IsBytes : (r : Refs) → IsRefs r → IsBytes (encode_refs r)
unfolding encode_refs
encode_refs-IsBytes r h = join (encode_opt_id r.head) _ (opt-bytes r.head h.head_id) (
    join (push_u32 (length r.window)) _ (count-bytes (length r.window)) (
      join (concat_map (λ id. id) r.window) _
        (concat-bytes {P = IsArray 32} (λ id. id) (λ id p. p.1) r.window h.window_ids)
        (join (push_u32 (length r.pins)) _ (count-bytes (length r.pins)) (
          join (concat_map encode_pin r.pins) _
            (concat-bytes encode_pin pin-bytes r.pins h.pins_valid)
            (join (push_u32 (length r.staging)) _ (count-bytes (length r.staging)) (
              join (concat_map encode_staged r.staging) _
                (concat-bytes encode_staged staged-bytes r.staging h.staging_valid)
                (join (push_u32 (length r.watches)) _ (count-bytes (length r.watches)) (
                  join (concat_map encode_watch r.watches) _
                    (concat-bytes encode_watch watch-bytes r.watches h.watches_valid)
                    (join (to_le_bytes 8 r.source_revision) (encode_opt_id r.retention_root)
                      (to_le_bytes-IsBytes 8 r.source_revision)
                      (opt-bytes r.retention_root h.retention_id))))))))))
