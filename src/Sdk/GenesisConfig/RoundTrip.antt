-- ===== src/Sdk/GenesisConfig/RoundTrip.antt =====
-- The two directions of the genesis-config codec.
use mathlib.Core.Option
use ducktape_sdk.Prelude.{
  ℕ, ◌*◌, ◌^◌, ◌≤◌, ◌<◌, ◌≡◌, refl, sym, ap, ap₂, subst, ◌∙◌, Bool, true, false, not, Option, none,
  some, List, [], ◌∷◌, ◌++◌, append-nil, append_assoc, arith, length, if◌then◌else◌, length-append,
  concat_map, All, All-append, not-false,
}
use ducktape_sdk.Bytes.{IsByte, IsBytes, to_le_bytes-IsBytes}
use ducktape_sdk.Parser.{push_all, Chain, View}
use ducktape_sdk.Parser.Reads.{Reads, Reads-bind, Reads-map, Reads-guard, Reads-for_each}
use ducktape_sdk.Parser.Parses.{
  Parses, Parses-bind, Parses-map, Parses-guard, Parses-for_each, Appends,
}
use ducktape_sdk.Sdk.Codec.{
  keys_not_increasing, Cursor, usize_max, u64_le, push_str, push_bytes, cursor_view,
}
use ducktape_sdk.Sdk.Codec.Rules.{IsField, IsText, u64_codes, length-push_bytes, push_bytes-IsBytes}
use ducktape_sdk.Sdk.Codec.Fields.{bytes_codes, string_codes}
use ducktape_sdk.Sdk.Codec.Bound.{Reads-bound, Parses-bound}
use ducktape_sdk.Sdk.Codec.Complete.{complete-Reads, complete-Parses}
use ducktape_sdk.Parser.{ok}
use ducktape_sdk.Sdk.GenesisConfig.{
  Param, increases, encode_params, encode_config, decode_param, read_config, decode_config,
}

-- A `String` key and a `Vec<u8>` value, which Rust's allocations bound.
abbrev pub IsParam : Param → Type 0
IsParam (key, value) = IsText usize_max key × IsField usize_max value

abbrev v : View Cursor
v = cursor_view usize_max

abbrev Loop : Type 0
Loop = Option (List ℕ) × List Param

abbrev enc_param : Param → List ℕ
enc_param (key, value) = push_str key ++ push_bytes value

abbrev snoc : Loop → Param → Loop
snoc (prev, params) (key, value) = (some key, params ++ ((key, value) ∷ []))

abbrev Fits : Loop → Param → Type 0
Fits (prev, params) (key, value) = (increases prev key ≡ true) × IsParam (key, value)

Reads-param : (c : Loop) (x : Param) → Fits c x → Reads v (decode_param c) (enc_param x) (snoc c x)
unfolding decode_param
Reads-param (prev, params) (key, value) (inc, (k, f)) =
    Reads-bind v _ _ ((string_codes usize_max _).reads key k) (
      Reads-guard v (not (increases prev key)) keys_not_increasing (ap not inc)
        (Reads-map v _ _ ((bytes_codes usize_max _).reads value f) refl))

parses_param : (c : Loop) → Parses v (decode_param c) (Appends v enc_param snoc Fits decode_param c)
unfolding decode_param
parses_param (prev, params) = Parses-bind v _ _ (string_codes usize_max _).parses λ key xs (e, k).
    Parses-guard v (not (increases prev key)) keys_not_increasing λ inc.
      Parses-map v _ (λ value. (some key, params ++ ((key, value) ∷ []))) _
        (bytes_codes usize_max _).parses
        λ value ys (e1, f). ((key, value), refl, (not-false _ inc, (k, f)), ap₂ ◌++◌ e e1)

-- The encoder's loop, against the conditions of the decoder's.
encode_params-Chain :
    (prev : Option (List ℕ)) (acc ps : List Param)
    → Chain snoc Fits (prev, acc) ps
    → encode_params prev ps ≡ some (concat_map enc_param ps)
unfolding encode_params
encode_params-Chain prev acc [] h = refl
encode_params-Chain prev acc ((k, val) ∷ ps) ((inc, p), h) = rw (
  inc,
  encode_params-Chain (some k) (acc ++ ((k, val) ∷ [])) ps h,
  append_assoc (push_str k) (push_bytes val) (concat_map enc_param ps),
)

Chain-IsParam :
    (prev : Option (List ℕ)) (acc ps : List Param) → Chain snoc Fits (prev, acc) ps → All IsParam ps
Chain-IsParam prev acc [] h = tt
Chain-IsParam prev acc ((k, val) ∷ ps) ((inc, p), h) =
    (p, Chain-IsParam (some k) (acc ++ ((k, val) ∷ [])) ps h)

if_map-some :
    (b : Bool) (o : Option (List ℕ)) (f : List ℕ → List ℕ) (out : List ℕ)
    → (if b then Option.map f o else none) ≡ some out
    → (b ≡ true) × (rest : List ℕ) × (o ≡ some rest) × (f rest ≡ out)
if_map-some true none f out h = absurd (cc)
if_map-some true (some rest) f out h = (refl, rest, refl, cc)
if_map-some false o f out h = absurd (cc)

Chain-encode_params :
    (prev : Option (List ℕ)) (acc ps : List Param) (out : List ℕ)
    → All IsParam ps
    → encode_params prev ps ≡ some out
    → Chain snoc Fits (prev, acc) ps
unfolding encode_params
Chain-encode_params prev acc [] out a h = tt
Chain-encode_params prev acc ((k, val) ∷ ps) out (p, a) h =
    let (inc, rest, e, _) = if_map-some (increases prev k) (encode_params (some k) ps) _ out h in
    ((inc, p), Chain-encode_params (some k) (acc ++ ((k, val) ∷ [])) ps rest a e)

push_all-params :
    (prev : Option (List ℕ)) (acc ps : List Param) → (push_all snoc (prev, acc) ps).1 ≡ acc ++ ps
push_all-params prev acc [] = sym (append-nil acc)
push_all-params prev acc ((k, val) ∷ ps) =
    push_all-params (some k) (acc ++ ((k, val) ∷ [])) ps ∙ append_assoc acc ((k, val) ∷ []) ps

length-enc_params : (ps : List Param) → 16 * length ps ≤ length (concat_map enc_param ps)
unfolding push_str
length-enc_params [] = omega arith
length-enc_params ((k, val) ∷ ps) = omega (
  arith,
  length-append (push_bytes k ++ push_bytes val) (concat_map enc_param ps),
  length-append (push_bytes k) (push_bytes val),
  length-push_bytes k,
  length-push_bytes val,
  length-enc_params ps,
)

enc_params-IsBytes : (ps : List Param) → All IsParam ps → IsBytes (concat_map enc_param ps)
unfolding push_str
enc_params-IsBytes [] h = tt
enc_params-IsBytes ((k, val) ∷ ps) ((((_, _, bk), _), (_, _, bv)), h) =
    All-append IsByte (push_bytes k ++ push_bytes val) (concat_map enc_param ps)
      (All-append IsByte (push_bytes k) (push_bytes val) (push_bytes-IsBytes k bk)
        (push_bytes-IsBytes val bv))
      (enc_params-IsBytes ps h)

Reads-config :
    (ps : List Param)
    → length ps < 2 ^ 64
    → Chain snoc Fits (none, []) ps
    → Reads v read_config (u64_le (length ps) ++ concat_map enc_param ps) ps
unfolding read_config
Reads-config ps lt h = Reads-bind v _ _ ((u64_codes usize_max _).reads (length ps) lt) (
    Reads-bound usize_max (length ps) _ (length-enc_params ps) (
      Reads-map v _ (λ (c : Loop). c.1)
        (Reads-for_each v enc_param snoc Fits decode_param Reads-param ps (none, []) h)
        (push_all-params none [] ps)))

parses_config : Parses v read_config (λ xs ps.
    (xs ≡ u64_le (length ps) ++ concat_map enc_param ps)
    × (length ps < 2 ^ 64)
    × Chain snoc Fits (none, []) ps)
unfolding read_config
parses_config = Parses-bind v _ _ (u64_codes usize_max _).parses λ n xs (e, lt).
    Parses-bound usize_max n _ (
      Parses-map v _ (λ (c : Loop). c.1) _
        (Parses-for_each v enc_param snoc Fits decode_param parses_param n (none, []))
        λ c ys (ps, n_eq, c_eq, chain, y_eq).
          let ps_eq : c.1 ≡ ps = ap (λ (d : Loop). d.1) c_eq ∙ push_all-params none [] ps in
          subst
            (λ z.
              (xs ++ ys ≡ u64_le (length z) ++ concat_map enc_param z)
              × (length z < 2 ^ 64)
              × Chain snoc Fits (none, []) z)
            (sym ps_eq)
            (
              ap₂ ◌++◌ (e ∙ ap u64_le (sym n_eq)) y_eq,
              subst (λ m. m < 2 ^ 64) (sym n_eq) lt,
              chain,
            ))

-- What `encode_config` writes for parameters within Rust's allocation bounds, `decode_config`
-- returns unchanged.
pub decode_config-encode_config :
    (ps : List Param) (out : List ℕ)
    → All IsParam ps
    → length ps < 2 ^ 64
    → encode_config ps ≡ some out
    → decode_config out ≡ ok ps
unfolding decode_config encode_config u64_le
decode_config-encode_config ps out a lt h =
    let (_, body, e, out_eq) =
      if_map-some true (encode_params none ps) (λ b. u64_le (length ps) ++ b) out h in
    let chain = Chain-encode_params none [] ps body a e in
    let body_eq : concat_map enc_param ps ≡ body = cc (e, encode_params-Chain none [] ps chain) in
    subst (λ z. decode_config z ≡ ok ps) (ap (λ b. u64_le (length ps) ++ b) body_eq ∙ out_eq)
      (complete-Reads _ read_config _ ps
        (All-append IsByte (u64_le (length ps)) _ (to_le_bytes-IsBytes 8 (length ps))
          (enc_params-IsBytes ps a))
        (Reads-config ps lt chain))

-- Bytes that `decode_config` accepts are the one encoding of the parameters that it returns, whose
-- keys are texts in increasing order.
pub encode_config-decode_config :
    (bs : List ℕ) (ps : List Param)
    → IsBytes bs
    → decode_config bs ≡ ok ps
    → (encode_config ps ≡ some bs) × All IsParam ps
unfolding decode_config encode_config
encode_config-decode_config bs ps b h =
    let (e, _, chain) = complete-Parses _ read_config _ bs ps b parses_config h in
    (rw (encode_params-Chain none [] ps chain, e), Chain-IsParam none [] ps chain)
