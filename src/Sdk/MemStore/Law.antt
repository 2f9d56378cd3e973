-- ===== src/Sdk/MemStore/Law.antt =====
-- `MemStore` against the documented promises of a `MerkleStore`.
use ducktape_sdk.Prelude.{
  ℕ, ◌≡◌, refl, sym, ap, subst, ◌∙◌, false, Option, none, some, List, [], ◌∷◌, if◌then◌else◌, inl,
  inr, Bool-cases,
}
use ducktape_sdk.Bytes.Order.{
  bytes_order, bytes_eq, bytes_eq_self, bytes_eq→eq, bytes_lt, bytes_lt_total,
}
use ducktape_sdk.Parser.{ok}
use ducktape_sdk.BTree as btree
use ducktape_sdk.BTree.{BTreeMap, IsAscending}
use ducktape_sdk.BTree.Lookup.{
  get-remove_same, get-remove_below, get-remove_above, insert-IsAscending, remove-IsAscending,
}
use ducktape_sdk.Sdk.MerkleStore.{Durable, Writes, after}
use ducktape_sdk.Sdk.StagedStore.Reads.{get-insert, true_ne_false}
use ducktape_sdk.Sdk.MemStore.{MemStore, get, write, write_all, commit_batch, mem_store}

get-remove :
    (key k : List ℕ) (m : MemStore)
    → IsAscending m
    → btree.get key (btree.remove k m) ≡ (if bytes_eq k key then none else btree.get key m)
get-remove key k m a = elim (Bool-cases (bytes_eq k key)) [
  | inl same ↦ rw (same) (
      subst (λ z. btree.get z (btree.remove k m) ≡ none) (bytes_eq→eq k key same)
        (get-remove_same k m a))
  | inr other ↦ rw (other) (elim (Bool-cases (bytes_lt k key)) [
    | inl below ↦ get-remove_above key k m below
    | inr b ↦ elim (Bool-cases (bytes_lt key k)) [
      | inl above ↦ get-remove_below key k m a above
      | inr c ↦
          let e : bytes_eq key key ≡ false =
            subst (λ z. bytes_eq z key ≡ false) (bytes_lt_total k key b c) other in
          absurd (true_ne_false (sym (bytes_eq_self key) ∙ e))
    ]
  ])
]

get-write :
    (key k : List ℕ) (v : Option (List ℕ)) (m : MemStore)
    → IsAscending m
    → get (write k v m) key ≡ (if bytes_eq k key then ok v else get m key)
unfolding get write
get-write key k (some v) m a =
    ap ok (get-insert key k v m)
    ∙ (elim (Bool-cases (bytes_eq k key)) [ inl h ↦ rw (h) | inr h ↦ rw (h) ])
get-write key k none m a =
    ap ok (get-remove key k m a)
    ∙ (elim (Bool-cases (bytes_eq k key)) [ inl h ↦ rw (h) | inr h ↦ rw (h) ])

write-IsAscending :
    (k : List ℕ) (v : Option (List ℕ)) (m : MemStore) → IsAscending m → IsAscending (write k v m)
unfolding write
write-IsAscending k (some v) m a = insert-IsAscending k v m a
write-IsAscending k none m a = remove-IsAscending k m a

get-write_all :
    (key : List ℕ) (writes : Writes) (m : MemStore)
    → IsAscending m
    → get (write_all m writes) key ≡ after writes key (get m key)
unfolding write_all after
get-write_all key [] m a = refl
get-write_all key ((k, v) ∷ writes) m a =
    get-write_all key writes (write k v m) (write-IsAscending k v m a)
    ∙ ap (after writes key) (get-write key k v m a)

-- `MemStore` keeps the documented promises of a durable store, on the maps that ascend.
pub mem_store-Durable :
    (sha256 : List ℕ → List ℕ) → Durable (mem_store sha256) (λ map. IsAscending map)
unfolding mem_store commit_batch
mem_store-Durable sha256 = record {
  reads_committed = λ map key. refl;
  applies = λ map writes key a. get-write_all key writes map a;
}
