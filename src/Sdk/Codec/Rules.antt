-- ===== src/Sdk/Codec/Rules.antt =====
-- What each `Cursor` method reads of what the push helpers wrote.
use Prim.Native.String.{String}
use ducktape_sdk.Prelude.{
  All-append, ◌+◌, ℕ, ◌^◌, ◌≤◌, ◌<◌, ◌≡◌, refl, sym, ap, subst, ◌∙◌, ap₂, List, [], ◌∷◌, ◌++◌,
  arith, length, take, drop, take-append-drop, length-take, take-append, drop-append, All-take,
  All-drop, length-append, le→ltb_false, ltb_false→le,
}
use ducktape_sdk.Bytes.{
  to_le_bytes, from_le_bytes, IsBytes, IsByte, from_le_bytes-to_le_bytes, le_array,
  length-to_le_bytes, to_le_bytes-IsBytes,
}
use ducktape_sdk.Bytes.Utf8.{IsUtf8}
use ducktape_sdk.Parser.{if_err_ok, ok, View}
use ducktape_sdk.Parser.Reads.{Reads, Reads-map}
use ducktape_sdk.Parser.Parses.{Codes, Parses, Parses-map}
use ducktape_sdk.Sdk.Codec

-- A field that a cursor with this cap reads: its length fits the cap and a `u64`.
abbrev pub IsField : ℕ → List ℕ → Type 0
IsField cap a = (length a ≤ cap) × (length a < 2 ^ 64) × IsBytes a

abbrev pub IsText : ℕ → List ℕ → Type 0
IsText cap a = IsField cap a × IsUtf8 a

pub length-push_bytes : (a : List ℕ) → length (Codec.push_bytes a) ≡ 8 + length a
unfolding Codec.push_bytes Codec.u64_le
length-push_bytes a =
    length-append (to_le_bytes 8 (length a)) a
    ∙ ap (λ n. n + length a) (length-to_le_bytes 8 (length a))

pub push_bytes-IsBytes : (a : List ℕ) → IsBytes a → IsBytes (Codec.push_bytes a)
unfolding Codec.push_bytes Codec.u64_le
push_bytes-IsBytes a h =
    All-append IsByte (to_le_bytes 8 (length a)) a (to_le_bytes-IsBytes 8 (length a)) h

module _ (cap : ℕ) (what : String) where
  abbrev v : View Codec.Cursor
  v = Codec.cursor_view cap

  pub Reads-array : (xs : List ℕ) → Reads v (Codec.array (length xs) what) xs xs
  unfolding Codec.array
  Reads-array xs = record {
    runs = λ c rest g e. (
      record c { buf = rest },
      rw (
        le→ltb_false (length xs) (length c.buf) (omega (arith, ap length e, length-append xs rest)),
        ap (take (length xs)) e ∙ take-append xs rest,
        ap (drop (length xs)) e ∙ drop-append xs rest,
      ),
      (
        g.0,
        subst IsBytes (ap (drop (length xs)) e ∙ drop-append xs rest)
            (All-drop IsByte (length xs) c.buf g.1),
      ),
      refl,
    );
  }

  pub Parses-array :
      (n : ℕ) → Parses v (Codec.array n what) (λ xs a. (xs ≡ a) × (length a ≡ n) × IsBytes a)
  unfolding Codec.array
  Parses-array n = record {
    inverts = λ c c' a g h.
        let (fits, a_eq, c_eq) = if_err_ok _ _ _ _ _ _ h in
        let buf_eq : drop n c.buf ≡ c'.buf = ap (λ (d : Codec.Cursor). d.buf) c_eq in
        let cap_eq : c.max_field_len ≡ c'.max_field_len =
          ap (λ (d : Codec.Cursor). d.max_field_len) c_eq in
        (
          a,
          sym (take-append-drop n c.buf) ∙ ap₂ ◌++◌ a_eq buf_eq,
          (sym cap_eq ∙ g.0, subst IsBytes buf_eq (All-drop IsByte n c.buf g.1)),
          (
            refl,
            ap length (sym a_eq) ∙ length-take n c.buf (ltb_false→le _ _ fits),
            subst IsBytes a_eq (All-take IsByte n c.buf g.1),
          ),
        );
  }

  pub u64_codes : Codes v (Codec.u64 what) Codec.u64_le (λ n. n < 2 ^ 64)
  unfolding Codec.u64 Codec.u64_le to_le_bytes
  u64_codes = record {
    reads = λ n h.
        Reads-map v (Codec.array 8 what) from_le_bytes (Reads-array (to_le_bytes 8 n))
          (from_le_bytes-to_le_bytes 8 n h);
    parses =
        Parses-map v (Codec.array 8 what) from_le_bytes _ (Parses-array 8)
          λ a xs (e, n_eq, b). (e ∙ sym (le_array 8 a n_eq b).0, (le_array 8 a n_eq b).1);
  }

  pub u32_codes : Codes v (Codec.u32 what) (to_le_bytes 4) (λ n. n < 2 ^ 32)
  unfolding Codec.u32 to_le_bytes
  u32_codes = record {
    reads = λ n h.
        Reads-map v (Codec.array 4 what) from_le_bytes (Reads-array (to_le_bytes 4 n))
          (from_le_bytes-to_le_bytes 4 n h);
    parses =
        Parses-map v (Codec.array 4 what) from_le_bytes _ (Parses-array 4)
          λ a xs (e, n_eq, b). (e ∙ sym (le_array 4 a n_eq b).0, (le_array 4 a n_eq b).1);
  }

  IsByte-split :
      (xs : List ℕ) (c' : Codec.Cursor) (b : ℕ)
      → IsBytes xs
      → Codec.split_byte what cap xs ≡ ok (b, c')
      → (xs ≡ b ∷ c'.buf) × (c'.max_field_len ≡ cap) × IsBytes c'.buf × IsByte b
  unfolding Codec.split_byte
  IsByte-split [] c' b g h = absurd (cc)
  IsByte-split (x ∷ xs) c' b (gx, g) h =
      let buf_eq : xs ≡ c'.buf = cc in
      (ground arith, cc, subst IsBytes buf_eq g, subst IsByte {x = x} (cc) gx)

  pub byte_codes : Codes v (Codec.byte what) (λ b. b ∷ []) IsByte
  unfolding Codec.byte
  byte_codes = record {
    reads = λ b h. record {
      runs = λ c rest g e. (
        record c { buf = rest },
        ap (Codec.split_byte what c.max_field_len) e,
        (g.0, (subst IsBytes e g.1).1),
        refl,
      );
    };
    parses = record {
      inverts = λ c c' b g h.
          let (e, k, gs, gb) =
            IsByte-split c.buf c' b g.1
              (subst (λ m. Codec.split_byte what m c.buf ≡ ok (b, c')) g.0 h) in
          (b ∷ [], e, (k, gs), (refl, gb));
    };
  }
