-- ===== src/Parser/Seq.antt =====
-- Loops that collect: items pushed to a vector, and entries inserted into a map in key order.
use ducktape_sdk.Prelude.{
  ℕ, ◌≡◌, refl, sym, ap, subst, ◌∙◌, List, [], ◌∷◌, ◌++◌, append-nil, append_assoc, length,
  concat_map, All,
}
use ducktape_sdk.Bytes.Order.{Order}
use ducktape_sdk.Parser.Defs.{Read, pure, ◌>>=◌, for_each, View, push_all, Chain}
use ducktape_sdk.Parser.Reads.{Reads, Reads-map, Reads-for_each}
use ducktape_sdk.Parser.Parses.{Codes, Parses, Parses-map, Parses-weaken, Parses-for_each, Appends}
use ducktape_sdk.BTree.{BTreeMap, IsAscending}
use ducktape_sdk.BTree.Append
use ducktape_sdk.BTree.Append.{Fits, Chain-ascends, ascends-Chain}

abbrev push {τ} : {A : Type τ} → List A → A → List A
push acc a = acc ++ (a ∷ [])

push_all-push {τ} : {A : Type τ} (acc xs : List A) → push_all push acc xs ≡ acc ++ xs
push_all-push acc [] = sym (append-nil acc)
push_all-push acc (x ∷ xs) = push_all-push (acc ++ (x ∷ [])) xs ∙ append_assoc acc (x ∷ []) xs

-- `for _ in 0..count { items.push(read()?) }`
abbrev pub push_one {ℓ κ τ} :
    {S : Type ℓ} {E : Type κ} {A : Type τ} → Read S E A → List A → Read S E (List A)
push_one m acc = m >>= λ a. pure (acc ++ (a ∷ []))

module _ {ℓ κ τ} {S : Type ℓ} {E : Type κ} {A : Type τ} (v : View S) where
  module _ (m : Read S E A) (enc : A → List ℕ) (IsValid : A → Type 0)
      (c : Codes v m enc IsValid) where
    abbrev IsItem : List A → A → Type 0
    IsItem acc a = IsValid a

    All-Chain : (acc xs : List A) → All IsValid xs → Chain push IsItem acc xs
    All-Chain acc [] h = tt
    All-Chain acc (x ∷ xs) (p, h) = (p, All-Chain (acc ++ (x ∷ [])) xs h)

    Chain-All : (acc xs : List A) → Chain push IsItem acc xs → All IsValid xs
    Chain-All acc [] h = tt
    Chain-All acc (x ∷ xs) (p, h) = (p, Chain-All (acc ++ (x ∷ [])) xs h)

    pub vec-Reads :
        (xs : List A)
        → All IsValid xs
        → Reads v (for_each (length xs) (push_one m) []) (concat_map enc xs) xs
    vec-Reads xs h =
        subst (Reads v (for_each (length xs) (push_one m) []) (concat_map enc xs))
          (push_all-push [] xs)
          (Reads-for_each v enc push IsItem (push_one m)
            (λ acc a p. Reads-map v m _ (c.reads a p) refl) xs [] (All-Chain [] xs h))

    pub vec_parses :
        (n : ℕ)
        → Parses v
            (for_each n (push_one m) [])
            (λ ys xs. (ys ≡ concat_map enc xs) × (length xs ≡ n) × All IsValid xs)
    vec_parses n =
        Parses-weaken v _ (Parses-for_each v enc push IsItem (push_one m) step n [])
          λ ys acc (xs, len, acc_eq, chain, ys_eq).
            let e : xs ≡ acc = sym (acc_eq ∙ push_all-push [] xs) in
            (
              ys_eq ∙ ap (concat_map enc) e,
              ap length (sym e) ∙ len,
              subst (All IsValid) e (Chain-All [] xs chain),
            )
      where
        step :
            (acc : List A) → Parses v (push_one m acc) (Appends v enc push IsItem (push_one m) acc)
        step acc = Parses-map v m _ _ c.parses λ a xs (e, p). (a, refl, p, e)

module _ {ℓ κ τ υ} {S : Type ℓ} {E : Type κ} {K : Type τ} {V : Type υ} ⦃o : Order K⦄ (v : View S)
    (enc : K × V → List ℕ) (IsValid : K × V → Type 0)
    (step : BTreeMap K V → Read S E (BTreeMap K V)) where
  abbrev pub EntryReads : Type (ℓ ⊔ κ ⊔ τ ⊔ υ)
  EntryReads =
      (m : BTreeMap K V) (e : K × V)
      → Fits IsValid m e
      → Reads v (step m) (enc e) (Append.snoc IsValid m e)

  abbrev pub EntryParses : Type (ℓ ⊔ κ ⊔ τ ⊔ υ)
  EntryParses =
      (m : BTreeMap K V)
      → Parses v (step m) (Appends v enc (Append.snoc IsValid) (Fits IsValid) step m)

  pub map-Reads :
      EntryReads
      → (m : BTreeMap K V) → IsAscending m
      → All IsValid m
      → Reads v (for_each (length m) step []) (concat_map enc m) m
  map-Reads r m a h =
      let chain = ascends-Chain IsValid [] m a h in
      subst (Reads v (for_each (length m) step []) (concat_map enc m))
        (Chain-ascends IsValid [] m tt chain).0
        (Reads-for_each v enc (Append.snoc IsValid) (Fits IsValid) step r m [] chain)

  pub map_parses :
      EntryParses
      → (n : ℕ)
      → Parses v
          (for_each n step [])
          (λ ys m. (ys ≡ concat_map enc m) × (length m ≡ n) × IsAscending m × All IsValid m)
  map_parses p n =
      Parses-weaken v _ (Parses-for_each v enc (Append.snoc IsValid) (Fits IsValid) step p n [])
        λ ys acc (xs, len, acc_eq, chain, ys_eq).
          let (all_eq, asc, valid) = Chain-ascends IsValid [] xs tt chain in
          let e : xs ≡ acc = sym (acc_eq ∙ all_eq) in
          (
            ys_eq ∙ ap (concat_map enc) e,
            ap length (sym e) ∙ len,
            subst IsAscending e asc,
            subst (All IsValid) e valid,
          )
