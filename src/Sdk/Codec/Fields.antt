-- ===== src/Sdk/Codec/Fields.antt =====
-- The length-prefixed and the optional fields: what `Cursor` reads of what the push helpers wrote.
use Prim.Native.String.{String}
use ducktape_sdk.Prelude.{
  ℕ, ◌^◌, ◌≤◌, ◌<◌, ◌≡◌, ◌≢◌, refl, sym, ap, ap₂, subst, ◌∙◌, Bool, true, false, not, Option, none,
  some, List, [], ◌∷◌, ◌++◌, append-nil, arith, length, take, drop, ltb, ◌==◌, take-append-drop,
  length-take, take-append, drop-append, All-take, All-drop, length-append, le→ltb_false,
  ltb_false→le, not-false,
}
use ducktape_sdk.Bytes.{IsBytes, IsByte}
use ducktape_sdk.Bytes.Utf8.{is_utf8}
use ducktape_sdk.Parser.{if_err_ok, if_err_eq_ok, View}
use ducktape_sdk.Parser.Reads.{Reads, Reads-pure, Reads-bind, Reads-map, Reads-guard}
use ducktape_sdk.Parser.Parses.{
  Codes, Parses, Parses-pure, Parses-bind, Parses-map, Parses-fail, Parses-if, Parses-guard,
  Parses-weaken,
}
use ducktape_sdk.Sdk.Codec
use ducktape_sdk.Sdk.Codec.Rules.{IsField, IsText, u64_codes, byte_codes}

not_empty : (a : List ℕ) → a ≢ [] → (length a == 0) ≡ false
not_empty [] h = absurd (h refl)
not_empty (x ∷ xs) h = ground arith

abbrev pub bool_byte : Bool → List ℕ
bool_byte true = 1 ∷ []
bool_byte false = 0 ∷ []

abbrev pub IsOpt : {A : Type 0} → (A → Type 0) → Option A → Type 0
IsOpt P none = Unit
IsOpt P (some a) = P a

module _ (cap : ℕ) (what : String) where
  abbrev v : View Codec.Cursor
  v = Codec.cursor_view cap

  -- What a branch on a flag byte has read.
  flag_read : {b : ℕ} (n : ℕ) (xs : List ℕ) → xs ≡ b ∷ [] → (b == n) ≡ true → xs ≡ n ∷ []
  flag_read n xs e h = e ∙ ap (λ m. m ∷ []) (ground arith)

  pub bool_codes : Codes v (Codec.bool what) bool_byte (λ _. Unit {0})
  unfolding Codec.bool
  bool_codes = record {
    reads = λ b _. read b;
    parses = Parses-bind v _ _ (byte_codes cap what).parses λ b xs (e, _).
        Parses-if v (b == 0) (λ z. Parses-pure v _ (append-nil xs ∙ flag_read 0 xs e z, tt))
          (λ _.
            Parses-if v (b == 1) (λ o. Parses-pure v _ (append-nil xs ∙ flag_read 1 xs e o, tt))
              (λ _. Parses-fail v _ (Codec.bad_flag what b)));
  }
    where
      read : (b : Bool) → Reads v (Codec.bool what) (bool_byte b) b
      read true = Reads-bind v _ _ ((byte_codes cap what).reads 1 (omega arith)) (Reads-pure v true)
      read false =
          Reads-bind v _ _ ((byte_codes cap what).reads 0 (omega arith)) (Reads-pure v false)

  take_field-Reads :
      (xs : List ℕ) → length xs ≤ cap → Reads v (Codec.take_field what (length xs)) xs xs
  unfolding Codec.take_field
  take_field-Reads xs h = record {
    runs = λ c rest g e. (
      record c { buf = rest },
      rw (
        le→ltb_false (length xs) c.max_field_len (subst (λ m. length xs ≤ m) (sym g.0) h),
        le→ltb_false (length xs) (length c.buf) (omega (arith, ap length e, length-append xs rest)),
        ap (take (length xs)) e ∙ take-append xs rest,
        ap (drop (length xs)) e ∙ drop-append xs rest,
      ),
      (
        g.0,
        subst IsBytes (ap (drop (length xs)) e ∙ drop-append xs rest)
            (All-drop IsByte (length xs) c.buf g.1),
      ),
      refl,
    );
  }

  take_field_parses :
      (n : ℕ)
      → Parses v
          (Codec.take_field what n)
          (λ xs a. (xs ≡ a) × (length a ≡ n) × (n ≤ cap) × IsBytes a)
  unfolding Codec.take_field
  take_field_parses n = record {
    inverts = λ c c' a g h.
        let (under, h1) = if_err_eq_ok _ _ _ _ h in
        let (fits, a_eq, c_eq) = if_err_ok _ _ _ _ _ _ h1 in
        let buf_eq : drop n c.buf ≡ c'.buf = ap (λ (d : Codec.Cursor). d.buf) c_eq in
        let cap_eq : c.max_field_len ≡ c'.max_field_len =
          ap (λ (d : Codec.Cursor). d.max_field_len) c_eq in
        (
          a,
          sym (take-append-drop n c.buf) ∙ ap₂ ◌++◌ a_eq buf_eq,
          (sym cap_eq ∙ g.0, subst IsBytes buf_eq (All-drop IsByte n c.buf g.1)),
          (
            refl,
            ap length (sym a_eq) ∙ length-take n c.buf (ltb_false→le _ _ fits),
            subst (λ m. n ≤ m) g.0 (ltb_false→le _ _ under),
            subst IsBytes a_eq (All-take IsByte n c.buf g.1),
          ),
        );
  }

  pub bytes_codes : Codes v (Codec.bytes what) Codec.push_bytes (IsField cap)
  unfolding Codec.bytes Codec.push_bytes
  bytes_codes = record {
    reads = λ a (le, lt, b).
        Reads-bind v _ _ ((u64_codes cap what).reads (length a) lt) (take_field-Reads a le);
    parses = Parses-bind v _ _ (u64_codes cap what).parses λ n xs (e, lt).
        Parses-weaken v _ (take_field_parses n) λ ys a (ys_eq, len, le, b). (
          ap₂ ◌++◌ (e ∙ ap Codec.u64_le (sym len)) ys_eq,
          (subst (λ m. m ≤ cap) (sym len) le, subst (λ m. m < 2 ^ 64) (sym len) lt, b),
        );
  }

  pub string_codes : Codes v (Codec.string what) Codec.push_str (IsText cap)
  unfolding Codec.string Codec.push_str
  string_codes = record {
    reads = λ a (f, u).
        subst (λ xs. Reads v (Codec.string what) xs a) (append-nil (Codec.push_bytes a))
          (Reads-bind v _ _ (bytes_codes.reads a f)
            (Reads-guard v _ _ (ap not u) (Reads-pure v a)));
    parses = Parses-bind v _ _ bytes_codes.parses λ a xs (e, f).
        Parses-guard v (not (is_utf8 a)) (Codec.not_utf8 what)
          λ h. Parses-pure v _ {a = a} (append-nil xs ∙ e, (f, not-false _ h));
  }

  -- `opt_str` refuses an empty text behind a set flag.
  abbrev pub IsOptText : ℕ → Option (List ℕ) → Type 0
  IsOptText limit none = Unit
  IsOptText limit (some a) = IsText cap a × (a ≢ []) × (length a ≤ limit)

  pub opt_str_codes :
      (limit : ℕ) → Codes v (Codec.opt_str limit what) Codec.push_opt_str (IsOptText limit)
  unfolding Codec.opt_str Codec.push_opt_str Codec.push_opt_bytes
  opt_str_codes limit = record {
    reads = read;
    parses = Parses-bind v _ _ (byte_codes cap what).parses λ b xs (e, _).
        Parses-if v (b == 0) (λ z. Parses-pure v _ (append-nil xs ∙ flag_read 0 xs e z, tt))
          (λ _.
            Parses-if v (b == 1)
              (λ o. Parses-bind v _ _ bytes_codes.parses λ a ys (e1, f).
                Parses-guard v (length a == 0) (Codec.flag_set_but_empty what) λ h.
                  Parses-guard v (ltb limit (length a)) (Codec.exceeds_limit what limit) λ h1.
                    Parses-guard v (not (is_utf8 a)) (Codec.not_utf8 what) λ h2.
                      Parses-pure v _ {a = some a} (
                        ap₂ ◌++◌ (flag_read 1 xs e o) (append-nil ys ∙ e1),
                        (
                          (f, not-false _ h2),
                          λ q. ground (arith, ap length q),
                          ltb_false→le _ _ h1,
                        ),
                      ))
              (λ _. Parses-fail v _ (Codec.bad_flag what b)));
  }
    where
      read :
          (o : Option (List ℕ))
          → IsOptText limit o
          → Reads v (Codec.opt_str limit what) (Codec.push_opt_str o) o
      read none h =
          Reads-bind v _ _ ((byte_codes cap what).reads 0 (omega arith)) (Reads-pure v none)
      read (some a) ((f, u), ne, le) =
          subst (λ xs. Reads v (Codec.opt_str limit what) (1 ∷ xs) (some a))
            (append-nil (Codec.push_bytes a))
            (Reads-bind v _ _ ((byte_codes cap what).reads 1 (omega arith)) (
              Reads-bind v _ _ (bytes_codes.reads a f) (
                Reads-guard v _ _ (not_empty a ne) (
                  Reads-guard v _ _ (le→ltb_false _ _ le)
                    (Reads-guard v _ _ (ap not u) (Reads-pure v (some a)))))))

  pub opt_bytes_codes : Codes v (Codec.opt_bytes what) Codec.push_opt_bytes (IsOpt (IsField cap))
  unfolding Codec.opt_bytes Codec.push_opt_bytes
  opt_bytes_codes = record {
    reads = read;
    parses = Parses-bind v _ _ bool_codes.parses λ b xs (e, _).
        Parses-if v b
          (λ t.
            Parses-map v _ some _ bytes_codes.parses
              λ a ys (e1, f). (ap₂ ◌++◌ (e ∙ ap bool_byte t) e1, f))
          (λ n. Parses-pure v _ {a = none} (append-nil xs ∙ e ∙ ap bool_byte n, tt));
  }
    where
      read :
          (o : Option (List ℕ))
          → IsOpt (IsField cap) o
          → Reads v (Codec.opt_bytes what) (Codec.push_opt_bytes o) o
      read none h = Reads-bind v _ _ (bool_codes.reads false tt) (Reads-pure v none)
      read (some a) h =
          Reads-bind v _ _ (bool_codes.reads true tt)
            (Reads-map v _ some (bytes_codes.reads a h) refl)

  pub opt_u64_codes : Codes v (Codec.opt_u64 what) Codec.push_opt_u64 (IsOpt (λ n. n < 2 ^ 64))
  unfolding Codec.opt_u64 Codec.push_opt_u64
  opt_u64_codes = record {
    reads = read;
    parses = Parses-bind v _ _ bool_codes.parses λ b xs (e, _).
        Parses-if v b
          (λ t.
            Parses-map v _ some _ (u64_codes cap what).parses
              λ a ys (e1, f). (ap₂ ◌++◌ (e ∙ ap bool_byte t) e1, f))
          (λ n. Parses-pure v _ {a = none} (append-nil xs ∙ e ∙ ap bool_byte n, tt));
  }
    where
      read :
          (o : Option ℕ)
          → IsOpt (λ n. n < 2 ^ 64) o
          → Reads v (Codec.opt_u64 what) (Codec.push_opt_u64 o) o
      read none h = Reads-bind v _ _ (bool_codes.reads false tt) (Reads-pure v none)
      read (some a) h =
          Reads-bind v _ _ (bool_codes.reads true tt)
            (Reads-map v _ some ((u64_codes cap what).reads a h) refl)
