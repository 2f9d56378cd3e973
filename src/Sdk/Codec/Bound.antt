-- ===== src/Sdk/Codec/Bound.antt =====
-- `Cursor::bound`: a forged count, against what the bytes ahead can hold.
use Prim.Native.String.{String}
use ducktape_sdk.Prelude.{
  ℕ, ◌+◌, ◌*◌, ◌/◌, ◌≤◌, ◌≡◌, sym, ap, subst, ◌∙◌, false, List, arith, length, ltb, length-append,
  le→ltb_false,
}
use ducktape_sdk.Parser.{ok, err, ◌>>◌, View, if_err_ok}
use ducktape_sdk.Parser.Reads.{Reads}
use ducktape_sdk.Parser.Parses.{Parses, bind_ok}
use ducktape_sdk.Sdk.Codec.{Cursor, ReadCursor, bound, cursor_view}

module _ (cap : ℕ) where
  abbrev v : View Cursor
  v = cursor_view cap

  bound_fits :
      (count : ℕ) (what : String) (c : Cursor)
      → ltb (length c.buf / 16) count ≡ false
      → bound count 16 what c ≡ ok (tt, c)
  unfolding bound
  bound_fits count what c h = rw h

  -- `bound` passes where the bytes ahead can hold the count.
  pub Reads-bound :
      {A : Type 0} {m : ReadCursor A} (count : ℕ) (what : String) {xs : List ℕ} {a : A}
      → 16 * count ≤ length xs
      → Reads v m xs a
      → Reads v (bound count 16 what >> m) xs a
  unfolding bound
  Reads-bound {m = m} count what {xs = xs} {a = a} h p = record {
    runs = λ c rest g e.
        let len : length c.buf ≡ length xs + length rest = ap length e ∙ length-append xs rest in
        let fits : ltb (length c.buf / 16) count ≡ false = le→ltb_false _ _ (omega arith) in
        let (c', r, g', e') = p.runs c rest g e in
        (
          c',
          ap (λ z. elim z [ ok (u, t) ↦ m t | err x ↦ err x ]) (bound_fits count what c fits) ∙ r,
          g',
          e',
        );
  }

  pub Parses-bound :
      {A : Type 0} {m : ReadCursor A} {Q : List ℕ → A → Type 0} (count : ℕ) (what : String)
      → Parses v m Q
      → Parses v (bound count 16 what >> m) Q
  unfolding bound
  Parses-bound {m = m} count what p = record {
    inverts = λ c c' a g h.
        let (u, t, e, k) = bind_ok (bound count 16 what) (λ _. m) c c' a h in
        let (_, _, t_eq) = if_err_ok _ _ _ _ _ _ e in
        p.inverts c c' a g (subst (λ z. m z ≡ ok (a, c')) (sym t_eq) k);
  }
