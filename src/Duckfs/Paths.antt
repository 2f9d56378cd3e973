-- ===== src/Duckfs/Paths.antt =====
-- crates/duckfs/core/src/paths.rs: canonical paths and the writable namespaces. A path is its UTF-8
-- bytes; NFC normalization is a parameter, the function of the `unicode_normalization` crate.
pub mod Canonical
pub mod Writable
use ducktape_sdk.Prelude.{
  ℕ, Bool, true, false, not, ◌&&◌, ◌||◌, Option, none, some, List, [], ◌∷◌, ◌++◌, length, leb, ltb,
  ◌==◌, if◌then◌else◌,
}
use ducktape_sdk.Bytes.{ascii}
use ducktape_sdk.Bytes.Order.{bytes_eq}
use ducktape_sdk.Parser.{Result, ok, err}
use ducktape_sdk.Duckfs.Limits.{max_name_bytes, max_path_bytes, max_depth}
use ducktape_sdk.Duckfs.Errors.{
  FilesError, path_not_absolute, path_not_nfc, path_has_nul, path_too_long, path_bad_segment,
  segment_too_long, path_too_deep, home_root, shared_root, outside_namespaces,
}
use ducktape_sdk.Duckfs.Actor.{Authority, system_authority}

abbrev pub slash : ℕ
slash = b'/'

abbrev pub Segments : Type 0
Segments = List (List ℕ)

unfoldable pub starts_with_slash : List ℕ → Bool
starts_with_slash [] = false
starts_with_slash (c ∷ path) = c == slash

-- `path.contains('\0')`
unfoldable pub contains_nul : List ℕ → Bool
contains_nul [] = false
contains_nul (c ∷ path) = c == 0 || contains_nul path

-- The byte put before the first segment.
abbrev pub cons_first : ℕ → Segments → Segments
cons_first c [] = (c ∷ []) ∷ []
cons_first c (segment ∷ segments) = (c ∷ segment) ∷ segments

-- `split('/')`: one segment more than there are slashes.
unfoldable pub split : List ℕ → Segments
split [] = [] ∷ []
split (c ∷ path) = let rest = split path in if c == slash then [] ∷ rest else cons_first c rest

unfoldable pub is_dot_segment : List ℕ → Bool
is_dot_segment segment =
    length segment == 0 || bytes_eq segment (ascii ".") || bytes_eq segment (ascii "..")

-- The loop over the segments: the first bad one is reported.
unfoldable pub check_segments : Segments → Result FilesError (Unit {0})
check_segments [] = ok tt
check_segments (segment ∷ segments) =
    let rest = check_segments segments in
    if is_dot_segment segment
    then err path_bad_segment
    else if ltb max_name_bytes (length segment)
    then err segment_too_long
    else rest

-- `path[1..]`
abbrev pub after_first : List ℕ → List ℕ
after_first [] = []
after_first (c ∷ path) = path

-- The loop over the segments and the depth cap.
unfoldable pub checked_segments : Segments → Result FilesError Segments
checked_segments segments = elim (check_segments segments) [
  | err e ↦ err e
  | ok _ ↦ if ltb max_depth (length segments) then err path_too_deep else ok segments
]

module _ (nfc : List ℕ → List ℕ) where
  unfoldable pub canonical : List ℕ → Result FilesError Segments
  canonical path =
      if not (starts_with_slash path)
      then err path_not_absolute
      else if not (bytes_eq (nfc path) path)
      then err path_not_nfc
      else if contains_nul path
      then err path_has_nul
      else if ltb max_path_bytes (length path)
      then err path_too_long
      else if bytes_eq path (ascii "/")
      then ok []
      else checked_segments (split (after_first path))

unfoldable pub is_namespace_root : Segments → Bool
is_namespace_root (root ∷ []) = bytes_eq root (ascii "shared") || bytes_eq root (ascii "home")
is_namespace_root (root ∷ label ∷ []) = bytes_eq root (ascii "home")
is_namespace_root _ = false

check_namespace : Segments → Result FilesError (Unit {0})
check_namespace [] = err outside_namespaces
check_namespace (root ∷ rest) =
    if bytes_eq root (ascii "home")
    then (if leb 3 (length (root ∷ rest)) then ok tt else err home_root)
    else if bytes_eq root (ascii "shared")
    then (if leb 2 (length (root ∷ rest)) then ok tt else err shared_root)
    else err outside_namespaces

unfoldable pub check_authority : Authority → Segments → Result FilesError (Unit {0})
unfolding check_namespace
check_authority system_authority segments = ok tt
check_authority _ segments = check_namespace segments
