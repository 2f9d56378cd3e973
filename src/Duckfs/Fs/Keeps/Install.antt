-- ===== src/Duckfs/Fs/Keeps/Install.antt =====
-- The images of the states that the machine of crates/duckfs/core/src/fs.rs reaches.
use ducktape_sdk.Prelude.{
  ℕ, ◌≤◌, ◌≡◌, refl, subst, Option, none, some, List, [], ◌∷◌, length, All, arith,
}
use ducktape_sdk.Bytes.Order.{bytes_eq_self}
use ducktape_sdk.Parser.{ok}
use ducktape_sdk.Duckfs.Limits.{max_refs_image_bytes}
use ducktape_sdk.Duckfs.Results.{◌>>=◌}
use ducktape_sdk.Duckfs.Objects.{ObjectId}
use ducktape_sdk.Duckfs.Objects.Snapshot.{IsOptId}
use ducktape_sdk.Duckfs.Refs.{Refs, encode_refs, decode_refs}
use ducktape_sdk.Duckfs.Refs.Sections.{IsPin, IsStaged}
use ducktape_sdk.Duckfs.Refs.Canonical.{IsRefs, decode_refs_iff}
use ducktape_sdk.Duckfs.Refs.ImageBytes.{encode_refs-IsBytes}
use ducktape_sdk.Duckfs.Refs.ImageLen.{IsOpt32, HasIds, encoded_refs_len-eq-length}
use ducktape_sdk.Duckfs.Fs.{Fs, Pending, snapshot_refs}
use ducktape_sdk.Duckfs.Fs.Sync.{root_bytes, checked_refs, adopt_image, install_refs}
use ducktape_sdk.Duckfs.Fs.Reserved.{IsBounded}
use ducktape_sdk.Duckfs.Fs.Keeps.{IsDigest}
use ducktape_sdk.Duckfs.Fs.Keeps.Transact.{IsSound, HasRoom}
use ducktape_sdk.Duckfs.Fs.Keeps.Run.{Reachable, reachable-IsSound}

All-weaken {ℓ} :
    {A : Type ℓ} {P Q : A → Type 0} → ((a : A) → P a → Q a) → (xs : List A) → All P xs → All Q xs
All-weaken f [] h = tt
All-weaken f (x ∷ xs) (p, h) = (f x p, All-weaken f xs h)

opt_len : (o : Option ObjectId) → IsOptId o → IsOpt32 o
opt_len none h = tt
opt_len (some id) h = h.0

IsRefs-HasIds : (r : Refs) → IsRefs r → HasIds r
IsRefs-HasIds r h = record {
  head_id = opt_len r.head h.head_id;
  window_ids = All-weaken (λ id p. p.0) r.window h.window_ids;
  pin_ids = All-weaken {P = IsPin} (λ e p. p.1.0) r.pins h.pins_valid;
  staging_ids = All-weaken {P = IsStaged} (λ e p. p.0.0) r.staging h.staging_valid;
  retention_id = opt_len r.retention_root h.retention_id;
}

bounded-decodes : (cap : ℕ) (r : Refs) → IsBounded cap r → decode_refs (encode_refs r) ≡ ok r
bounded-decodes cap r h =
    let image_len = encoded_refs_len-eq-length r (IsRefs-HasIds r h.valid) in
    let fits : length (encode_refs r) ≤ max_refs_image_bytes = omega (arith, image_len, h.room) in
    (decode_refs_iff (encode_refs r) r (omega (arith, fits), encode_refs-IsBytes r h.valid)).1
      (fits, h.valid, refl)

module _ (sha256 nfc : List ℕ → List ℕ) (base64 : List ℕ → Option (List ℕ))
    (digest_ok : IsDigest sha256) where
  -- After a run from a state within its bounds, the room that the growth gate reserves for its image
  -- included, the images of the committed refs and of those of the open block decode to them, whatever
  -- verbs and block boundaries the run goes through and over whatever stores, for a hash of 32 bytes.
  pub reachable-decodes :
      (start fs : Fs) (pending : Pending)
      → IsSound start
      → Reachable sha256 nfc base64 start fs
      → fs.pending ≡ some pending
      → (decode_refs (encode_refs fs.refs) ≡ ok fs.refs)
        × (decode_refs (encode_refs pending.refs) ≡ ok pending.refs)
  reachable-decodes start fs pending h run e =
      let sound = reachable-IsSound sha256 nfc base64 digest_ok h run in
      let open_block = subst (HasRoom fs.caps.window_cap) e sound.overlay in
      (
        bounded-decodes fs.caps.window_cap fs.refs sound.committed,
        bounded-decodes fs.caps.window_cap pending.refs open_block,
      )

  -- The image that a node ships after a run from a state within its bounds installs on any joiner that
  -- expects the node's root: the joiner then has the node's committed refs, and no open block.
  pub reachable-installs :
      (start fs joiner : Fs)
      → IsSound start
      → Reachable sha256 nfc base64 start fs
      → install_refs sha256 (snapshot_refs fs) (root_bytes sha256 fs.refs) joiner
        ≡ (record joiner { refs = fs.refs; pending = none }, ok tt)
  unfolding install_refs snapshot_refs checked_refs adopt_image ◌>>=◌
  reachable-installs start fs joiner h run =
      let sound = reachable-IsSound sha256 nfc base64 digest_ok h run in
      rw
        (
          bounded-decodes fs.caps.window_cap fs.refs sound.committed,
          bytes_eq_self (root_bytes sha256 fs.refs),
        )
        refl
