-- ===== src/Duckfs/Paths/Canonical.antt =====
-- What `canonical` accepts.
pub mod Split
use ducktape_sdk.Prelude.{
  ℕ, ◌≤◌, ◌≡◌, ◌≢◌, ◌↔◌, refl, sym, ap, ap₂, subst, ◌∙◌, Bool, true, false, not, List, [], ◌∷◌,
  ◌++◌, length, ltb, ◌==◌, if◌then◌else◌, All, le→ltb_false, ltb_false→le, not-false, ==_iff,
  ==_self, arith, Bool-cases, inl, inr,
}
use Split.{intercalate, NoSlash, split-intercalate, intercalate-split, split-NoSlash, split-cons}
use ducktape_sdk.Bytes.{ascii}
use ducktape_sdk.Bytes.Order.{bytes_eq, bytes_eq_self, bytes_eq→eq}
use ducktape_sdk.Parser.{Result, ok, err, if_err_eq_ok}
use ducktape_sdk.Duckfs.Limits.{max_name_bytes, max_path_bytes, max_depth}
use ducktape_sdk.Duckfs.Errors.{FilesError, path_too_deep}
use ducktape_sdk.Duckfs.Paths.{
  Segments, slash, starts_with_slash, contains_nul, split, is_dot_segment, check_segments,
  after_first, checked_segments, canonical,
}

-- The path of a list of segments.
abbrev pub render : Segments → List ℕ
render [] = slash ∷ []
render (segment ∷ segments) = slash ∷ intercalate (segment ∷ segments)

-- A name: not empty, not a dot segment, within the byte cap, and with no slash in it.
abbrev pub IsName : List ℕ → Type 0
IsName s = (is_dot_segment s ≡ false) × (length s ≤ max_name_bytes) × NoSlash s

render_ne : (ss : Segments) → ss ≢ [] → slash ∷ intercalate ss ≡ render ss
render_ne [] h = absurd (h refl)
render_ne (s ∷ ss) h = refl

check_segments_iff :
    (ss : Segments)
    → (check_segments ss ≡ ok tt)
      ↔ All (λ s. (is_dot_segment s ≡ false) × (length s ≤ max_name_bytes)) ss
unfolding check_segments
check_segments_iff [] = (λ h. tt, λ h. refl)
check_segments_iff (s ∷ ss) =
    let (f, g) = check_segments_iff ss in
    (
      λ h.
          let (dot, h1) = if_err_eq_ok _ _ _ _ h in
          let (long, h2) = if_err_eq_ok _ _ _ _ h1 in ((dot, ltb_false→le _ _ long), f h2),
      λ ((dot, long), h). rw (dot, le→ltb_false _ _ long) (g h),
    )

-- The two halves of `IsName`, over all segments.
to_names :
    (ss : Segments)
    → All (λ s. (is_dot_segment s ≡ false) × (length s ≤ max_name_bytes)) ss
    → All NoSlash ss
    → All IsName ss
to_names [] h k = tt
to_names (s ∷ ss) ((d, l), h) (n, k) = ((d, l, n), to_names ss h k)

from_names :
    (ss : Segments)
    → All IsName ss
    → All (λ s. (is_dot_segment s ≡ false) × (length s ≤ max_name_bytes)) ss × All NoSlash ss
from_names [] h = (tt, tt)
from_names (s ∷ ss) ((d, l, n), h) = let (h1, h2) = from_names ss h in (((d, l), h1), (n, h2))

-- What `checked_segments` makes of the loop's result.
abbrev capped : Segments → Result FilesError (Unit {0}) → Result FilesError Segments
capped segments (err e) = err e
capped segments (ok u) = if ltb max_depth (length segments) then err path_too_deep else ok segments

checked_segments_iff :
    (segments ss : Segments)
    → (checked_segments segments ≡ ok ss)
      ↔ ((check_segments segments ≡ ok tt) × (length segments ≤ max_depth) × (segments ≡ ss))
unfolding checked_segments
checked_segments_iff segments ss = (
  λ h. ground arith,
  λ (checked, deep, e). ap (capped segments) checked ∙ rw (le→ltb_false _ _ deep) (ap ok e),
)

split-ne : (path : List ℕ) → split path ≢ []
split-ne path e = let (s, ss, q) = split-cons path in ground (arith)

split_segments_iff :
    (path : List ℕ) (ss : Segments)
    → (checked_segments (split path) ≡ ok ss)
      ↔ ((ss ≢ []) × (path ≡ intercalate ss) × All IsName ss × (length ss ≤ max_depth))
split_segments_iff path ss = (
  λ h.
      let (checked, deep, e) = (checked_segments_iff (split path) ss).0 h in
      let names =
        to_names (split path) ((check_segments_iff (split path)).0 checked) (split-NoSlash path) in
      (
        λ q. split-ne path (e ∙ q),
        sym (ap intercalate (sym e) ∙ intercalate-split path),
        subst (All IsName) e names,
        subst (λ z. length z ≤ max_depth) e deep,
      ),
  λ (ne, e, names, deep).
      let (checked, plain) = from_names ss names in
      let split_eq : split path ≡ ss = ap split e ∙ split-intercalate ss ne plain in
      (checked_segments_iff (split path) ss).1 (
        ap check_segments split_eq ∙ (check_segments_iff ss).1 checked,
        subst (λ z. length z ≤ max_depth) (sym split_eq) deep,
        split_eq,
      ),
)

-- What `canonical` asks of a path beside its segments.
abbrev pub IsPlain : (List ℕ → List ℕ) → List ℕ → Type 0
IsPlain nfc path = (nfc path ≡ path) × (contains_nul path ≡ false) × (length path ≤ max_path_bytes)

accepts :
    (nfc : List ℕ → List ℕ) (path : List ℕ) (ss : Segments)
    → canonical nfc path ≡ ok ss
    → (path ≡ render ss) × IsPlain nfc path × All IsName ss × (length ss ≤ max_depth)
unfolding canonical starts_with_slash
accepts nfc [] ss h = absurd (cc)
accepts nfc (c ∷ rest) ss h =
    let (slashed, h1) = if_err_eq_ok _ _ _ _ h in
    let (composed, h2) = if_err_eq_ok _ _ _ _ h1 in
    let (nul, h3) = if_err_eq_ok _ _ _ _ h2 in
    let (long, h4) = if_err_eq_ok _ _ _ _ h3 in
    let plain : IsPlain nfc (c ∷ rest) =
      (bytes_eq→eq _ _ (not-false _ composed), nul, ltb_false→le _ _ long) in
    let c_eq : c ≡ slash = (==_iff c slash).0 (not-false _ slashed) in
    elim (Bool-cases (bytes_eq (c ∷ rest) (ascii "/"))) [
      | inl root ↦
          let e : ok [] ≡ ok ss = rw root at h4 in
          let ss_eq : [] ≡ ss = cc in
          (
            bytes_eq→eq _ _ root ∙ ap render ss_eq,
            plain,
            subst (All IsName) ss_eq tt,
            subst (λ z. length z ≤ max_depth) ss_eq (omega arith),
          )
      | inr more ↦
          let (ne, e, names, deep) = (split_segments_iff rest ss).0 (rw more at h4) in
          (ap₂ ◌∷◌ c_eq e ∙ render_ne ss ne, plain, names, deep)
    ]

not_root :
    (s : List ℕ) (ss : Segments)
    → is_dot_segment s ≡ false
    → bytes_eq (slash ∷ intercalate (s ∷ ss)) (ascii "/") ≡ false
unfolding is_dot_segment bytes_eq
not_root [] ss h = absurd (cc)
not_root (c ∷ s) [] h = refl
not_root (c ∷ s) (t ∷ ss) h = refl

accepted :
    (nfc : List ℕ → List ℕ) (ss : Segments)
    → IsPlain nfc (render ss)
    → All IsName ss
    → length ss ≤ max_depth
    → canonical nfc (render ss) ≡ ok ss
unfolding canonical starts_with_slash
accepted nfc [] (n, z, l) names deep = rw (n, bytes_eq_self (slash ∷ []), z)
accepted nfc (s ∷ ss) (n, z, l) (name, names) deep =
    rw
      (n, bytes_eq_self (slash ∷ intercalate (s ∷ ss)), z, le→ltb_false _ _ l, not_root s ss name.0)
      ((split_segments_iff (intercalate (s ∷ ss)) (s ∷ ss)).1
        ((λ e. cc), refl, (name, names), deep))

-- `canonical` returns segments for a path exactly when the path is those segments, each behind a
-- slash (`/` for none), the path is in NFC, without NUL and within the byte cap, the segments are
-- names, and they are within the depth cap. So it never rewrites, and a list of segments has one path.
pub canonical_iff :
    (nfc : List ℕ → List ℕ) (path : List ℕ) (ss : Segments)
    → (canonical nfc path ≡ ok ss)
      ↔ ((path ≡ render ss) × IsPlain nfc path × All IsName ss × (length ss ≤ max_depth))
canonical_iff nfc path ss = (
  accepts nfc path ss,
  λ (e, plain, names, deep).
      subst (λ p. canonical nfc p ≡ ok ss) (sym e)
        (accepted nfc ss (subst (IsPlain nfc) e plain) names deep),
)
