-- ===== src/Sdk/Codec/Complete.antt =====
-- A decode that reads one value and then finishes, over the whole of a buffer.
use Prim.Native.String.{String}
use ducktape_sdk.Prelude.{
  ℕ, ◌≡◌, refl, sym, ap, ◌∙◌, subst, List, [], ◌++◌, append-nil, length, ◌==◌, if◌then◌else◌,
  length-eq_zero, arith,
}
use ducktape_sdk.Bytes.{IsBytes}
use ducktape_sdk.Parser.{Result, ok, err}
use ducktape_sdk.Parser.Reads.{Reads}
use ducktape_sdk.Parser.Parses.{Parses}
use ducktape_sdk.Sdk.Codec.{
  Error, trailing_bytes, usize_max, Cursor, ReadCursor, new, finish, complete, cursor_view,
}

module _ {A : Type 0} (what : String) (m : ReadCursor A) where
  finish-empty : (c : Cursor) → c.buf ≡ [] → finish what c ≡ ok tt
  unfolding finish
  finish-empty c e =
      ap (λ (b : List ℕ). if length b == 0 then ok tt else err (trailing_bytes what (length b))) e

  pub complete-Reads :
      (xs : List ℕ) (a : A)
      → IsBytes xs
      → Reads (cursor_view usize_max) m xs a
      → complete what m (new xs) ≡ ok a
  unfolding complete new
  complete-Reads xs a b p =
      let (c, r, g, e) = p.runs (new xs) [] (refl, b) (sym (append-nil xs)) in
      ap
        (λ z. elim z [
          | ok (a', c') ↦ elim (finish what c') [ ok _ ↦ ok a' | err x ↦ err x ]
          | err x ↦ err x
        ])
        r
      ∙ ap (λ z. elim z [ ok _ ↦ ok a | err x ↦ err x ]) (finish-empty c e)

  finish_ok : (c : Cursor) → finish what c ≡ ok tt → c.buf ≡ []
  unfolding finish
  finish_ok c h = length-eq_zero c.buf (ground arith)

  complete_ok :
      (c : Cursor) (a : A)
      → complete what m c ≡ ok a
      → (c' : Cursor) × (m c ≡ ok (a, c')) × (c'.buf ≡ [])
  unfolding complete
  complete_ok c a h = go (m c) refl h
    where
      last :
          (c' : Cursor) (a' : A) (r : Result Error (Unit {0}))
          → finish what c' ≡ r
          → elim r [ ok _ ↦ ok a' | err e ↦ err e ] ≡ ok a
          → (a' ≡ a) × (c'.buf ≡ [])
      last c' a' (ok tt) e h = (cc, finish_ok c' e)
      last c' a' (err x) e h = absurd (cc)

      go :
          (r : Result Error (A × Cursor))
          → m c ≡ r
          → elim r [
            | ok (a', c') ↦ elim (finish what c') [ ok _ ↦ ok a' | err e ↦ err e ]
            | err e ↦ err e
          ]
            ≡ ok a
          → (c' : Cursor) × (m c ≡ ok (a, c')) × (c'.buf ≡ [])
      go (ok (a', c')) e h =
          let (q, b) = last c' a' (finish what c') refl h in (c', e ∙ ap (λ z. ok (z, c')) q, b)
      go (err x) e h = absurd (cc)

  pub complete-Parses {υ} :
      (Q : List ℕ → A → Type υ) (xs : List ℕ) (a : A)
      → IsBytes xs
      → Parses (cursor_view usize_max) m Q
      → complete what m (new xs) ≡ ok a
      → Q xs a
  unfolding new
  complete-Parses Q xs a b p h =
      let (c, r, e) = complete_ok (new xs) a h in
      let (ys, e2, g, q) = p.inverts (new xs) c a (refl, b) r in
      subst (λ z. Q z a) (sym (e2 ∙ ap (λ z. ys ++ z) e ∙ append-nil ys)) q
