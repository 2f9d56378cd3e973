-- ===== src/Duckfs/ReadBudget/Charges.antt =====
-- What the read budget admits.
use ducktape_sdk.Prelude.{
  ℕ, suc, ◌+◌, ◌≤◌, ◌≡◌, ◌↔◌, ◌⊎◌, inl, inr, refl, Bool, true, false, [], ◌∷◌, length,
  if◌then◌else◌, arith, Bool-cases,
}
use ducktape_sdk.Bytes.Order.{Order, bytes_order}
use ducktape_sdk.BTree.{BTreeMap, get, contains_key, insert}
use ducktape_sdk.Parser.{Result, ok}
use ducktape_sdk.Duckfs.Errors.{FilesError}
use ducktape_sdk.Duckfs.Objects.{ObjectId}
use ducktape_sdk.Duckfs.ReadBudget.{ReadBudget, check, with_get, with_stat, charge_get, charge_stat}

length-insert {ℓ κ} :
    {K : Type ℓ} {V : Type κ} ⦃o : Order K⦄ (k : K) (v : V) (m : BTreeMap K V)
    → length (insert k v m) ≡ (if contains_key k m then length m else suc (length m))
unfolding insert contains_key get
length-insert k v [] = refl
length-insert ⦃o⦄ k v ((j, w) ∷ m) = ground (arith, length-insert k v m)

-- A charge on the execute path.
pub data Charge : Type 0 where
  get_charge stat_charge : ObjectId → Charge

abbrev pub charge : Charge → ReadBudget → ReadBudget × Result FilesError (Unit {0})
charge (get_charge id) b = charge_get id b
charge (stat_charge id) b = charge_stat id b

-- The number of distinct reads that the budget counts.
abbrev pub charged : ReadBudget → ℕ
charged b = length b.gets + length b.stats

-- The read costs nothing: its object was put in this block, or it is counted already.
abbrev pub is_free : Charge → ReadBudget → Bool
is_free (get_charge id) b = if contains_key id b.block_index then true else contains_key id b.gets
is_free (stat_charge id) b = if contains_key id b.block_index then true else contains_key id b.stats

check_iff : (b : ReadBudget) → (check b ≡ ok tt) ↔ (charged b ≤ b.cap)
unfolding check
check_iff b = (λ h. ground arith, λ h. ground arith)

-- A count that is `n` when the read is counted already and one more otherwise keeps within the cap.
false_ne_true : ¬ (false ≡ true)
false_ne_true h = cc

within_iff :
    (known : Bool) (m n cap : ℕ)
    → n ≤ cap
    → m ≡ (if known then n else suc n)
    → (m ≤ cap) ↔ ((known ≡ true) ⊎ (suc n ≤ cap))
within_iff true m n cap h e = (λ k. inl refl, λ k. omega (arith, e, h))
within_iff false m n cap h e = (
  λ k. inr (omega (arith, e, k)),
  λ k. elim k [ inl q ↦ absurd (false_ne_true q) | inr q ↦ omega (arith, e, q) ],
)

both : {A B C : Type 0} → (A ↔ B) → (B ↔ C) → A ↔ C
both (f, g) (h, k) = (λ a. h (f a), λ c. g (k c))

get_grows :
    (known : Bool) (n m k : ℕ)
    → m ≡ (if known then n else suc n)
    → (m + k ≡ (if known then n + k else suc (n + k)))
      × (k + m ≡ (if known then k + n else suc (k + n)))
get_grows true n m k e = (omega (arith, e), omega (arith, e))
get_grows false n m k e = (omega (arith, e), omega (arith, e))

-- From within its cap, the budget admits a read exactly when the read is free or leaves the number of
-- distinct reads within the cap; the cap and the index stay, and a free read leaves the number as it
-- was where any other read adds one.
pub charge-count :
    (c : Charge) (b : ReadBudget)
    → charged b ≤ b.cap
    → (((charge c b).1 ≡ ok tt) ↔ ((is_free c b ≡ true) ⊎ (suc (charged b) ≤ b.cap)))
      × (charged (charge c b).0 ≡ (if is_free c b then charged b else suc (charged b)))
      × ((charge c b).0.cap ≡ b.cap)
      × ((charge c b).0.block_index ≡ b.block_index)
unfolding charge_get charge_stat
charge-count (get_charge id) b within = elim (Bool-cases (contains_key id b.block_index)) [
  | inl local ↦ rw (local) ((λ h. inl refl, λ h. refl), refl, refl, refl)
  | inr far ↦
      let grows =
        (get_grows (contains_key id b.gets) (length b.gets) _ (length b.stats)
          (length-insert id tt b.gets)).0 in
      rw (far)
        (both (check_iff (with_get id b)) (within_iff _ _ _ _ within grows), grows, refl, refl)
]
charge-count (stat_charge id) b within = elim (Bool-cases (contains_key id b.block_index)) [
  | inl local ↦ rw (local) ((λ h. inl refl, λ h. refl), refl, refl, refl)
  | inr far ↦
      let grows =
        (get_grows (contains_key id b.stats) (length b.stats) _ (length b.gets)
          (length-insert id tt b.stats)).1 in
      rw (far)
        (both (check_iff (with_stat id b)) (within_iff _ _ _ _ within grows), grows, refl, refl)
]
