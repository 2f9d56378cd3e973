-- ===== src/Bytes/Order.antt =====
-- The order of the keys of a `BTreeMap`: a Boolean `<` that is irreflexive, transitive and total,
-- with its instances for `[u8]`, `str` and `[u8; 32]` (bytes in lexicographic order) and for pairs.
use ducktape_sdk.Prelude.{
  ℕ, ◌≡◌, refl, Bool, true, false, ◌&&◌, List, [], ◌∷◌, arith, ltb, ◌==◌, ◌&&◌, if◌then◌else◌,
}

pub record Order {ℓ} (K : Type ℓ) : Type ℓ where
  pub less : K → K → Bool
  pub less_irrefl : (a : K) → less a a ≡ false
  pub less_trans : (a b c : K) → less a b ≡ true → less b c ≡ true → less a c ≡ true
  pub less_total : (a b : K) → less a b ≡ false → less b a ≡ false → a ≡ b

pub less_asymm {ℓ} : {K : Type ℓ} ⦃o : Order K⦄ (a b : K) → o.less a b ≡ true → o.less b a ≡ false
less_asymm ⦃o⦄ a b h = ground (arith, o.less_trans a b a, o.less_irrefl a)

unfoldable pub bytes_lt : List ℕ → List ℕ → Bool
bytes_lt [] [] = false
bytes_lt [] (y ∷ ys) = true
bytes_lt (x ∷ xs) [] = false
bytes_lt (x ∷ xs) (y ∷ ys) =
    let rest = bytes_lt xs ys in if ltb x y then true else if x == y then rest else false

pub bytes_lt_irrefl : (a : List ℕ) → bytes_lt a a ≡ false
unfolding bytes_lt
bytes_lt_irrefl [] = refl
bytes_lt_irrefl (x ∷ xs) = ground (arith, bytes_lt_irrefl xs)

pub bytes_lt_trans :
    (a b c : List ℕ) → bytes_lt a b ≡ true → bytes_lt b c ≡ true → bytes_lt a c ≡ true
unfolding bytes_lt
bytes_lt_trans (x ∷ xs) (y ∷ ys) (z ∷ zs) h k = ground (arith, bytes_lt_trans xs ys zs)
bytes_lt_trans a b c h k = ground arith

pub bytes_lt_total : (a b : List ℕ) → bytes_lt a b ≡ false → bytes_lt b a ≡ false → a ≡ b
unfolding bytes_lt
bytes_lt_total (x ∷ xs) (y ∷ ys) h k = ground (arith, bytes_lt_total xs ys)
bytes_lt_total a b h k = ground arith

instance abbrev pub bytes_order : Order (List ℕ)
bytes_order = record {
  less = bytes_lt;
  less_irrefl = bytes_lt_irrefl;
  less_trans = bytes_lt_trans;
  less_total = bytes_lt_total;
}

module _ {ℓ κ} {A : Type ℓ} {B : Type κ} ⦃o : Order A⦄ ⦃p : Order B⦄ where
  -- The order that tuples derive from their parts.
  unfoldable pub pair_lt : A × B → A × B → Bool
  pair_lt (a, b) (c, d) = if o.less a c then true else if o.less c a then false else p.less b d

  pub pair_lt_irrefl : (a : A × B) → pair_lt a a ≡ false
  unfolding pair_lt
  pair_lt_irrefl (a, b) = ground (arith, o.less_irrefl a, p.less_irrefl b)

  pub pair_lt_trans : (x y z : A × B) → pair_lt x y ≡ true → pair_lt y z ≡ true → pair_lt x z ≡ true
  unfolding pair_lt
  pair_lt_trans (a, b) (c, d) (e, f) h k = ground (
    arith,
    o.less_trans a c e,
    o.less_total a c,
    o.less_total c e,
    o.less_trans e a c,
    o.less_trans c e a,
    o.less_irrefl a,
    o.less_irrefl e,
    p.less_trans b d f,
  )

  pub pair_lt_total : (x y : A × B) → pair_lt x y ≡ false → pair_lt y x ≡ false → x ≡ y
  unfolding pair_lt
  pair_lt_total (a, b) (c, d) h k =
      ground (arith, o.less_total a c, o.less_irrefl a, o.less_trans a c a, p.less_total b d)

  instance abbrev pub pair_order : Order (A × B)
  pair_order = record {
    less = pair_lt;
    less_irrefl = pair_lt_irrefl;
    less_trans = pair_lt_trans;
    less_total = pair_lt_total;
  }

-- `==` on slices of bytes.
unfoldable pub bytes_eq : List ℕ → List ℕ → Bool
bytes_eq [] [] = true
bytes_eq [] (y ∷ ys) = false
bytes_eq (x ∷ xs) [] = false
bytes_eq (x ∷ xs) (y ∷ ys) = x == y && bytes_eq xs ys

pub bytes_eq_self : (xs : List ℕ) → bytes_eq xs xs ≡ true
unfolding bytes_eq
bytes_eq_self [] = refl
bytes_eq_self (x ∷ xs) = ground (arith, bytes_eq_self xs)

pub bytes_eq→eq : (xs ys : List ℕ) → bytes_eq xs ys ≡ true → xs ≡ ys
unfolding bytes_eq
bytes_eq→eq [] [] h = refl
bytes_eq→eq [] (y ∷ ys) h = cc
bytes_eq→eq (x ∷ xs) [] h = cc
bytes_eq→eq (x ∷ xs) (y ∷ ys) h = ground (arith, bytes_eq→eq xs ys)
