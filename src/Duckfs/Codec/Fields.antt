-- ===== src/Duckfs/Codec/Fields.antt =====
-- Booleans, length-prefixed bytes and texts: what `Reader` reads of what was written.
use ducktape_sdk.Prelude.{
  ℕ, ◌^◌, ◌<◌, ◌≡◌, refl, sym, ap, ap₂, subst, ◌∙◌, Bool, true, false, not, List, [], ◌∷◌, ◌++◌,
  append-nil, arith, length, ltb, le→ltb_false, not-false, All-append, length-append, ◌+◌,
}
use ducktape_sdk.Bytes.{to_le_bytes, IsBytes, IsByte, length-to_le_bytes, to_le_bytes-IsBytes}
use ducktape_sdk.Bytes.Utf8.{is_utf8}
use ducktape_sdk.Parser.{ok, ◌>>◌, View}
use ducktape_sdk.Parser.Reads.{Reads, Reads-pure, Reads-bind}
use ducktape_sdk.Parser.Parses.{Codes, Parses, Parses-pure, Parses-bind, Parses-weaken}
use ducktape_sdk.Duckfs.Limits.{usize_max}
use ducktape_sdk.Duckfs.Errors.{Frame, FilesError, truncated, not_utf8}
use ducktape_sdk.Duckfs.Codec.{
  Reader, ReadFrame, refuse_frame_if, boolean_of, boolean, bytes, string, push_string, frame_view,
}
use ducktape_sdk.Duckfs.Codec.Rules.{
  IsBlob, IsText, u8_codes, u64_codes, advance-Reads, advance_parses,
}

abbrev v : View Reader
v = frame_view

abbrev pub bool_byte : Bool → List ℕ
bool_byte true = 1 ∷ []
bool_byte false = 0 ∷ []

pub Reads-frame_guard :
    {A : Type 0} {m : ReadFrame A} {xs : List ℕ} {a : A} (bad : Bool) (e : Frame → FilesError)
    → bad ≡ false
    → Reads v m xs a
    → Reads v (refuse_frame_if bad e >> m) xs a
Reads-frame_guard true e h p = absurd (cc)
Reads-frame_guard false e h p = p

pub Parses-frame_guard :
    {A : Type 0} {m : ReadFrame A} {Q : List ℕ → A → Type 0} (bad : Bool) (e : Frame → FilesError)
    → (bad ≡ false → Parses v m Q)
    → Parses v (refuse_frame_if bad e >> m) Q
Parses-frame_guard true e q = record { inverts = λ r r' a g h. absurd (cc) }
Parses-frame_guard false e q = q refl

boolean_of_inv :
    (b : ℕ) (r r' : Reader) (a : Bool)
    → boolean_of b r ≡ ok (a, r')
    → (b ∷ [] ≡ bool_byte a) × (r ≡ r')
unfolding boolean_of
boolean_of_inv b r r' true h = ground arith
boolean_of_inv b r r' false h = ground arith

pub boolean_codes : Codes v boolean bool_byte (λ _. Unit {0})
unfolding boolean
boolean_codes = record {
  reads = λ a _. read a;
  parses = Parses-bind v _ _ u8_codes.parses λ b xs (e, _). record {
    inverts = λ r r' a g h.
        let (w, r_eq) = boolean_of_inv b r r' a h in
        ([], ap v.remaining r_eq, subst v.IsGood r_eq g, (append-nil xs ∙ e ∙ w, tt));
  };
}
  where
    read : (a : Bool) → Reads v boolean (bool_byte a) a
    read true = Reads-bind v _ _ (u8_codes.reads 1 (omega arith)) (Reads-pure v true)
    read false = Reads-bind v _ _ (u8_codes.reads 0 (omega arith)) (Reads-pure v false)

-- `Actor::Key` writes the same shape for bytes.
pub bytes_codes : Codes v bytes push_string IsBlob
unfolding bytes push_string
bytes_codes = record {
  reads = λ a (lt, b). Reads-bind v _ _ (u64_codes.reads (length a) lt) (
      Reads-frame_guard (ltb usize_max (length a)) truncated (le→ltb_false _ _ (omega arith))
        (advance-Reads (length a) a refl));
  parses = Parses-bind v _ _ u64_codes.parses λ n xs (e, lt).
      Parses-frame_guard (ltb usize_max n) truncated λ _.
        Parses-weaken v _ (advance_parses n) λ ys a (ys_eq, (len, b)). (
          ap₂ ◌++◌ (e ∙ ap (to_le_bytes 8) (sym len)) ys_eq,
          (subst (λ m. m < 2 ^ 64) (sym len) lt, b),
        );
}

pub string_codes : Codes v string push_string IsText
unfolding string
string_codes = record {
  reads = λ a (f, u).
      subst (λ xs. Reads v string xs a) (append-nil (push_string a))
        (Reads-bind v _ _ (bytes_codes.reads a f)
          (Reads-frame_guard (not (is_utf8 a)) not_utf8 (ap not u) (Reads-pure v a)));
  parses = Parses-bind v _ _ bytes_codes.parses λ a xs (e, f).
      Parses-frame_guard (not (is_utf8 a)) not_utf8
        λ h. Parses-pure v _ {a = a} (append-nil xs ∙ e, (f, not-false _ h));
}

pub push_string-IsBytes : (a : List ℕ) → IsBytes a → IsBytes (push_string a)
unfolding push_string
push_string-IsBytes a h =
    All-append IsByte (to_le_bytes 8 (length a)) a (to_le_bytes-IsBytes 8 (length a)) h

pub length-push_string : (a : List ℕ) → length (push_string a) ≡ 8 + length a
unfolding push_string
length-push_string a =
    length-append (to_le_bytes 8 (length a)) a
    ∙ ap (λ n. n + length a) (length-to_le_bytes 8 (length a))
