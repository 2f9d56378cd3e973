-- ===== src/Duckfs/Fs/Keeps.antt =====
-- The verbs of crates/duckfs/core/src/fs.rs keep the refs bounded.
pub mod Staging
pub mod Tables
pub mod Roots
pub mod Catalog
pub mod Detached
pub mod Transact
pub mod Run
pub mod Install
use ducktape_sdk.Prelude.{
  ℕ, ◌+◌, ◌^◌, ◌≤◌, ◌<◌, ◌≡◌, refl, Option, none, some, List, [], ◌∷◌, length, ltb, ◌==◌, arith,
}
use ducktape_sdk.Bytes.Order.{bytes_order}
use ducktape_sdk.Parser.{Result, ok, err, if_err_eq_ok}
use ducktape_sdk.Parser.Ints.{IsArray}
use ducktape_sdk.Duckfs.Limits.{max_refs_image_bytes}
use ducktape_sdk.Duckfs.Codec.Rules.{IsBlob, IsText}
use ducktape_sdk.Duckfs.Actor.{
  Actor, account, key, mod_id, system, Authority, external, program, mod_authority,
  system_authority, actor, validate, validate_actor,
}
use ducktape_sdk.Duckfs.Actor.RoundTrip.{IsActor}
use ducktape_sdk.Duckfs.Refs.{Staged, Refs, staged_entry_len}
use ducktape_sdk.Duckfs.Refs.Sections.{IsStaged}
use ducktape_sdk.Duckfs.Fs.{Pending, Verb, sweep_expired, retain, refs_commit_headroom}
use ducktape_sdk.Duckfs.Fs.Reserved.{IsBounded, staging-IsBounded, staging_of}
use ducktape_sdk.Duckfs.Fs.Reserved.Maps.{
  All-retain, length-retain, sum_by-retain, retain-IsAscending,
}

-- A hash of 32 bytes.
abbrev pub IsDigest : (List ℕ → List ℕ) → Type 0
IsDigest sha256 = (bytes : List ℕ) → IsArray 32 (sha256 bytes)

abbrev pub IsU64 : Option ℕ → Type 0
IsU64 none = Unit
IsU64 (some n) = n < 2 ^ 64

-- An authority within its types: numbers of 64 bits, keys of bytes, and names of text.
abbrev pub IsAuthority : Authority → Type 0
IsAuthority (external k account_of) = IsBlob k × IsU64 account_of
IsAuthority (program n) = n < 2 ^ 64
IsAuthority (mod_authority m) = IsText m
IsAuthority system_authority = Unit

abbrev IsTyped : Actor → Type 0
IsTyped (account n) = n < 2 ^ 64
IsTyped (key k) = IsBlob k
IsTyped (mod_id m) = IsText m
IsTyped system = Unit

actor-IsTyped : (a : Authority) → IsAuthority a → IsTyped (actor a)
unfolding actor
actor-IsTyped (external k none) (blob, u) = blob
actor-IsTyped (external k (some n)) (blob, fits) = fits
actor-IsTyped (program n) fits = fits
actor-IsTyped (mod_authority m) text = text
actor-IsTyped system_authority u = tt

of_validated : (a : Actor) → IsTyped a → validate_actor a ≡ ok tt → IsActor a
unfolding validate_actor
of_validated (account n) fits h = (ground arith, fits)
of_validated (key []) blob h = absurd (cc)
of_validated (key (b ∷ k)) blob h = (blob, λ e. cc)
of_validated (mod_id []) text h = absurd (cc)
of_validated (mod_id (b ∷ m)) text h = (text, λ e. cc)
of_validated system u h = tt

-- What `validate` accepts owns entries that the image can carry.
pub actor-IsActor : (a : Authority) → IsAuthority a → validate a ≡ ok tt → IsActor (actor a)
unfolding validate
actor-IsActor a typed h = of_validated (actor a) (actor-IsTyped a typed) h

pub sweep-IsBounded :
    (cap height : ℕ) (r : Refs) → IsBounded cap r → IsBounded cap (sweep_expired height r)
unfolding sweep_expired
sweep-IsBounded cap height r h =
    let keep = λ (s : Staged). ltb height s.expires_at in
    let (asc, valid, count) = staging_of h.valid in
    staging-IsBounded cap 0 r h (omega (arith, h.room)) (retain keep r.staging)
      (
        retain-IsAscending keep r.staging asc,
        All-retain keep IsStaged r.staging valid,
        omega (arith, length-retain keep r.staging, count),
      )
      (omega (arith, sum_by-retain keep (λ e. staged_entry_len e.1.owner) r.staging))

-- A verb that keeps the refs of the overlay bounded, whether it succeeds or fails.
abbrev pub Keeps {ℓ} : {A : Type ℓ} → ℕ → Verb A → Type 0
Keeps cap operation =
    (pending : Pending) → IsBounded cap pending.refs → IsBounded cap (operation pending).0.refs
