-- ===== src/Duckfs/EntryKind.antt =====
-- `EntryKind` of crates/duckfs/core/src/objects.rs: what a tree entry points at.
use ducktape_sdk.Prelude.{ℕ, ◌≡◌, ◌<◌, ◌↔◌, ap, Option, none, some, ◌==◌, if◌then◌else◌, arith}

pub data EntryKind : Type 0 where
  file dir symlink : EntryKind

unfoldable pub tag : EntryKind → ℕ
tag file = 0
tag dir = 1
tag symlink = 2

unfoldable pub from_u8 : ℕ → Option EntryKind
from_u8 value =
    if value == 0
    then some file
    else if value == 1
    then some dir
    else if value == 2
    then some symlink
    else none

-- `from_u8` is the inverse of `tag`: it names a kind exactly on that kind's tag.
pub from_u8-tag_iff : (value : ℕ) (k : EntryKind) → (from_u8 value ≡ some k) ↔ (value ≡ tag k)
unfolding from_u8 tag
from_u8-tag_iff value file = (λ h. ground arith, λ e. ap from_u8 e)
from_u8-tag_iff value dir = (λ h. ground arith, λ e. ap from_u8 e)
from_u8-tag_iff value symlink = (λ h. ground arith, λ e. ap from_u8 e)

pub tag_byte : (k : EntryKind) → tag k < 256
unfolding tag
tag_byte file = omega arith
tag_byte dir = omega arith
tag_byte symlink = omega arith
