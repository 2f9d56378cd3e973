-- ===== src/Duckfs/Fs/Commit/Matching.antt =====
-- `watch_matches` of crates/duckfs/core/src/fs.rs against the segments of the two paths.
use ducktape_sdk.Prelude.{
  and-true, ℕ, ◌≡◌, ◌≢◌, ◌↔◌, refl, sym, ap, ap₂, subst, ◌∙◌, true, false, List, [], ◌∷◌, ◌++◌,
  append-nil, append_assoc, All, length, get_elem?, ==_iff, ==_self, Bool-cases, inl, inr,
}
use ducktape_sdk.Bytes.{ascii}
use ducktape_sdk.Bytes.Order.{bytes_eq, bytes_eq_self, bytes_eq→eq}
use ducktape_sdk.Parser.{ok}
use ducktape_sdk.Duckfs.Paths.{Segments, slash, split, is_dot_segment, canonical}
use ducktape_sdk.Duckfs.Paths.Canonical.{render, canonical_iff, IsName}
use ducktape_sdk.Duckfs.Paths.Canonical.Split.{
  intercalate, NoSlash, split-intercalate, split-append,
}
use ducktape_sdk.Duckfs.Fs.Commit.Change.{starts_with, is_slash, watch_matches}

names-NoSlash : (ss : Segments) → All IsName ss → All NoSlash ss
names-NoSlash [] h = tt
names-NoSlash (s ∷ ss) ((dot, long, plain), h) = (plain, names-NoSlash ss h)

-- A prefix, and what follows it.
starts_with-split : (p q : List ℕ) → starts_with p q ≡ true → (tail : List ℕ) × (q ≡ p ++ tail)
unfolding starts_with
starts_with-split [] q h = (q, refl)
starts_with-split (c ∷ p) [] h = absurd (cc)
starts_with-split (c ∷ p) (d ∷ q) h =
    let (same, rest) = and-true _ _ h in
    let (tail, e) = starts_with-split p q rest in (tail, ap₂ ◌∷◌ (sym ((==_iff c d).0 same)) e)

starts_with-append : (p tail : List ℕ) → starts_with p (p ++ tail) ≡ true
unfolding starts_with
starts_with-append [] tail = refl
starts_with-append (c ∷ p) tail = rw (==_self c) (starts_with-append p tail)

get-length : (p tail : List ℕ) → get_elem? (p ++ tail) (length p) ≡ get_elem? tail 0
get-length [] tail = refl
get-length (c ∷ p) tail = get-length p tail

slash-first :
    (tail : List ℕ) → is_slash (get_elem? tail 0) ≡ true → (rest : List ℕ) × (tail ≡ slash ∷ rest)
slash-first [] h = absurd (cc)
slash-first (c ∷ rest) h = (rest, ap (λ z. z ∷ rest) ((==_iff c slash).0 h))

-- A list of segments, the later ones behind it.
intercalate-append :
    (ss : Segments) (r : List ℕ) (rs : Segments)
    → ss ≢ []
    → intercalate (ss ++ (r ∷ rs)) ≡ intercalate ss ++ (slash ∷ intercalate (r ∷ rs))
intercalate-append [] r rs ne = absurd (ne refl)
intercalate-append (s ∷ []) r rs ne = refl
intercalate-append (s ∷ t ∷ ss) r rs ne =
    ap (λ z. s ++ (slash ∷ z)) (intercalate-append (t ∷ ss) r rs (λ e. cc))
    ∙ sym (append_assoc s (slash ∷ intercalate (t ∷ ss)) (slash ∷ intercalate (r ∷ rs)))

split-behind :
    (ss : Segments) (tail : List ℕ)
    → ss ≢ []
    → All NoSlash ss
    → split (intercalate ss ++ (slash ∷ tail)) ≡ ss ++ split tail
split-behind [] tail ne h = absurd (ne refl)
split-behind (s ∷ []) tail ne (p, h) = split-append s tail p
split-behind (s ∷ t ∷ ss) tail ne (p, h) =
    ap split (append_assoc s (slash ∷ intercalate (t ∷ ss)) (slash ∷ tail))
    ∙ split-append s (intercalate (t ∷ ss) ++ (slash ∷ tail)) p
    ∙ ap (λ z. s ∷ z) (split-behind (t ∷ ss) tail (λ e. cc) h)

abbrev IsBelow : Segments → Segments → Type 0
IsBelow ps qs = (rest : Segments) × (qs ≡ ps ++ rest)

true_not_false : ¬ (true ≡ false)
true_not_false h = cc

not_root : (ps : Segments) → ps ≢ [] → All IsName ps → bytes_eq (render ps) (ascii "/") ≡ false
unfolding bytes_eq is_dot_segment
not_root [] ne h = absurd (ne refl)
not_root ([] ∷ []) ne ((dot, long, plain), h) = absurd (true_not_false dot)
not_root ((c ∷ s) ∷ []) ne h = refl
not_root ([] ∷ t ∷ ps) ne h = refl
not_root ((c ∷ s) ∷ t ∷ ps) ne h = refl

below-matches :
    (p tail : List ℕ)
    → bytes_eq p (ascii "/") ≡ false
    → watch_matches p (p ++ (slash ∷ tail)) ≡ true
unfolding watch_matches
below-matches p tail h = elim (Bool-cases (bytes_eq (p ++ (slash ∷ tail)) p)) [
  | inl same ↦ rw (h, same) refl
  | inr other ↦
      rw (h, other, starts_with-append p (slash ∷ tail), get-length p (slash ∷ tail))
        (==_self slash)
]

empty-ne : (a tail : List ℕ) → [] ≢ a ++ (slash ∷ tail)
empty-ne [] tail e = cc
empty-ne (c ∷ a) tail e = cc

unrender :
    (ps qs : Segments) → All IsName ps → All IsName qs → ps ≢ [] → render qs ≡ render ps → qs ≡ ps
unrender [] qs h k ne e = absurd (ne refl)
unrender (s ∷ ps) [] h k ne e = absurd (
    true_not_false (
      sym (ap (λ z. bytes_eq z (ascii "/")) (sym e) ∙ bytes_eq_self (ascii "/"))
      ∙ not_root (s ∷ ps) ne h))
unrender (s ∷ ps) (t ∷ qs) h k ne e =
    let rest : intercalate (t ∷ qs) ≡ intercalate (s ∷ ps) = cc in
    sym (split-intercalate (t ∷ qs) (λ z. cc) (names-NoSlash (t ∷ qs) k))
    ∙ ap split rest
    ∙ split-intercalate (s ∷ ps) ne (names-NoSlash (s ∷ ps) h)

behind :
    (s : List ℕ) (ps qs : Segments) (tail : List ℕ)
    → All IsName (s ∷ ps)
    → All IsName qs
    → render qs ≡ render (s ∷ ps) ++ (slash ∷ tail)
    → IsBelow (s ∷ ps) qs
behind s ps [] tail h k e =
    let rest : [] ≡ intercalate (s ∷ ps) ++ (slash ∷ tail) = cc in
    absurd (empty-ne (intercalate (s ∷ ps)) tail rest)
behind s ps (t ∷ qs) tail h k e =
    let rest : intercalate (t ∷ qs) ≡ intercalate (s ∷ ps) ++ (slash ∷ tail) = cc in
    (
      split tail,
      sym (split-intercalate (t ∷ qs) (λ z. cc) (names-NoSlash (t ∷ qs) k))
          ∙ ap split rest
          ∙ split-behind (s ∷ ps) tail (λ z. cc) (names-NoSlash (s ∷ ps) h),
    )

matches-IsBelow :
    (ps qs : Segments)
    → All IsName ps
    → All IsName qs
    → watch_matches (render ps) (render qs) ≡ true
    → IsBelow ps qs
unfolding watch_matches
matches-IsBelow [] qs h k m = (qs, refl)
matches-IsBelow (s ∷ ps) qs h k m =
    let root = not_root (s ∷ ps) (λ z. cc) h in
    elim (Bool-cases (bytes_eq (render qs) (render (s ∷ ps)))) [
      | inl same ↦ (
        [],
        unrender (s ∷ ps) qs h k (λ z. cc) (bytes_eq→eq _ _ same) ∙ sym (append-nil (s ∷ ps)),
      )
      | inr other ↦
          let (starts, boundary) = and-true _ _ (rw (root, other) at m) in
          let (tail, e) = starts_with-split (render (s ∷ ps)) (render qs) starts in
          let at_end =
            subst (λ z. is_slash (get_elem? z (length (render (s ∷ ps)))) ≡ true) e boundary in
          let (rest, f) =
            slash-first tail (ap is_slash (sym (get-length (render (s ∷ ps)) tail)) ∙ at_end) in
          behind s ps qs rest h k (e ∙ ap (λ z. render (s ∷ ps) ++ z) f)
    ]

below-watched :
    (ps qs : Segments)
    → All IsName ps
    → IsBelow ps qs
    → watch_matches (render ps) (render qs) ≡ true
unfolding watch_matches
below-watched [] qs h k = rw (bytes_eq_self (ascii "/")) refl
below-watched (s ∷ ps) qs h ([], e) =
    let same = ap render (e ∙ append-nil (s ∷ ps)) in
    rw (not_root (s ∷ ps) (λ z. cc) h, same, bytes_eq_self (render (s ∷ ps))) refl
below-watched (s ∷ ps) qs h (r ∷ rs, e) =
    let path_eq : render qs ≡ render (s ∷ ps) ++ (slash ∷ intercalate (r ∷ rs)) =
      ap render e ∙ ap (λ z. slash ∷ z) (intercalate-append (s ∷ ps) r rs (λ z. cc)) in
    ap (λ z. watch_matches (render (s ∷ ps)) z) path_eq
    ∙ below-matches (render (s ∷ ps)) (intercalate (r ∷ rs)) (not_root (s ∷ ps) (λ z. cc) h)

-- A watch on a prefix hits a path exactly when the segments of the prefix begin those of the path: the
-- match is never across the middle of a name. Both are paths that `canonical` accepts.
pub watch_matches_iff :
    (nfc : List ℕ → List ℕ) (prefix path : List ℕ) (ps qs : Segments)
    → canonical nfc prefix ≡ ok ps
    → canonical nfc path ≡ ok qs
    → (watch_matches prefix path ≡ true) ↔ ((rest : Segments) × (qs ≡ ps ++ rest))
watch_matches_iff nfc prefix path ps qs h k =
    let (prefix_eq, _, prefix_names, _) = (canonical_iff nfc prefix ps).0 h in
    let (path_eq, _, path_names, _) = (canonical_iff nfc path qs).0 k in
    let same : watch_matches prefix path ≡ watch_matches (render ps) (render qs) =
      ap₂ watch_matches prefix_eq path_eq in
    (
      λ m. matches-IsBelow ps qs prefix_names path_names (sym same ∙ m),
      λ below. same ∙ below-watched ps qs prefix_names below,
    )
