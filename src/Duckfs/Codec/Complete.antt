-- ===== src/Duckfs/Codec/Complete.antt =====
-- A decode that reads one value and then finishes, over a whole frame.
use ducktape_sdk.Prelude.{
  ℕ, ◌≤◌, ◌≡◌, ◌↔◌, refl, sym, ap, ◌∙◌, subst, List, [], ◌++◌, append-nil, length, drop,
  length-eq_zero, length-drop, arith,
}
use ducktape_sdk.Bytes.{IsBytes}
use ducktape_sdk.Parser.{Result, ok, err}
use ducktape_sdk.Parser.Reads.{Reads}
use ducktape_sdk.Parser.Parses.{Codes, Parses}
use ducktape_sdk.Duckfs.Limits.{usize_max}
use ducktape_sdk.Duckfs.Errors.{Frame, FilesError}
use ducktape_sdk.Duckfs.Codec.{Reader, ReadFrame, new, finish, complete, frame_view}

-- The bytes of a slice.
abbrev pub IsSlice : List ℕ → Type 0
IsSlice bs = (length bs ≤ usize_max) × IsBytes bs

module _ {A : Type 0} (what : Frame) (m : ReadFrame A) where
  finish_at_end : (r : Reader) → r.off ≤ length r.bytes → drop r.off r.bytes ≡ [] → finish r ≡ ok tt
  unfolding finish
  finish_at_end r g e = ground (arith, ap length e, length-drop r.off r.bytes)

  pub complete-Reads :
      (xs : List ℕ) (a : A) → IsSlice xs → Reads frame_view m xs a → complete m (new what xs) ≡ ok a
  unfolding complete new
  complete-Reads xs a (len, b) p =
      let (r, e, g, done) = p.runs (new what xs) [] (omega arith, len, b) (sym (append-nil xs)) in
      ap
        (λ z. elim z [
          | ok (a', r') ↦ elim (finish r') [ ok _ ↦ ok a' | err x ↦ err x ]
          | err x ↦ err x
        ])
        e
      ∙ ap (λ z. elim z [ ok _ ↦ ok a | err x ↦ err x ]) (finish_at_end r g.0 done)

  finish_ok : (r : Reader) → finish r ≡ ok tt → drop r.off r.bytes ≡ []
  unfolding finish
  finish_ok r h = length-eq_zero (drop r.off r.bytes) (ground (arith, length-drop r.off r.bytes))

  complete_ok :
      (r : Reader) (a : A)
      → complete m r ≡ ok a
      → (r' : Reader) × (m r ≡ ok (a, r')) × (drop r'.off r'.bytes ≡ [])
  unfolding complete
  complete_ok r a h = go (m r) refl h
    where
      last :
          (r' : Reader) (a' : A) (x : Result FilesError (Unit {0}))
          → finish r' ≡ x
          → elim x [ ok _ ↦ ok a' | err e ↦ err e ] ≡ ok a
          → (a' ≡ a) × (drop r'.off r'.bytes ≡ [])
      last r' a' (ok tt) e h = (cc, finish_ok r' e)
      last r' a' (err x) e h = absurd (cc)

      go :
          (x : Result FilesError (A × Reader))
          → m r ≡ x
          → elim x [
            | ok (a', r') ↦ elim (finish r') [ ok _ ↦ ok a' | err e ↦ err e ]
            | err e ↦ err e
          ]
            ≡ ok a
          → (r' : Reader) × (m r ≡ ok (a, r')) × (drop r'.off r'.bytes ≡ [])
      go (ok (a', r')) e h =
          let (q, b) = last r' a' (finish r') refl h in (r', e ∙ ap (λ z. ok (z, r')) q, b)
      go (err x) e h = absurd (cc)

  pub complete-Parses {υ} :
      (Q : List ℕ → A → Type υ) (xs : List ℕ) (a : A)
      → IsSlice xs
      → Parses frame_view m Q
      → complete m (new what xs) ≡ ok a
      → Q xs a
  unfolding new
  complete-Parses Q xs a (len, b) p h =
      let (r, e, done) = complete_ok (new what xs) a h in
      let (ys, e2, g, q) = p.inverts (new what xs) r a (omega arith, len, b) e in
      subst (λ z. Q z a) (sym (e2 ∙ ap (λ z. ys ++ z) done ∙ append-nil ys)) q

-- A whole frame decodes to a value exactly when it is the encoding of that value, and the value is
-- one that the decoder admits.
pub complete_iff :
    {A : Type 0} {m : ReadFrame A} {enc : A → List ℕ} {IsValid : A → Type 0}
    → Codes frame_view m enc IsValid
    → (what : Frame) (bs : List ℕ) (a : A) → IsSlice bs
    → (complete m (new what bs) ≡ ok a) ↔ (IsValid a × (enc a ≡ bs))
complete_iff {m = m} {enc = enc} c what bs a s = (
  λ h. let (e, valid) = complete-Parses what m _ bs a s c.parses h in (valid, sym e),
  λ (valid, e).
      complete-Reads what m bs a s (subst (λ xs. Reads frame_view m xs a) e (c.reads a valid)),
)
