-- ===== src/Duckfs/Kind.antt =====
-- `Kind` of crates/duckfs/core/src/objects.rs: the domain-separating tag of an object id.
use ducktape_sdk.Prelude.{ℕ, ◌≡◌, ◌↔◌, ap, Option, none, some, ◌==◌, if◌then◌else◌, arith}

pub data Kind : Type 0 where
  chunk file tree snapshot : Kind

unfoldable pub tag : Kind → ℕ
tag chunk = 0
tag file = 1
tag tree = 2
tag snapshot = 3

unfoldable pub from_u8 : ℕ → Option Kind
from_u8 value =
    if value == 0
    then some chunk
    else if value == 1
    then some file
    else if value == 2
    then some tree
    else if value == 3
    then some snapshot
    else none

-- `from_u8` is the inverse of `tag`: it names a kind exactly on that kind's tag.
pub from_u8-tag_iff : (value : ℕ) (k : Kind) → (from_u8 value ≡ some k) ↔ (value ≡ tag k)
unfolding from_u8 tag
from_u8-tag_iff value chunk = (λ h. ground arith, λ e. ap from_u8 e)
from_u8-tag_iff value file = (λ h. ground arith, λ e. ap from_u8 e)
from_u8-tag_iff value tree = (λ h. ground arith, λ e. ap from_u8 e)
from_u8-tag_iff value snapshot = (λ h. ground arith, λ e. ap from_u8 e)
