-- ===== src/Tests/Overlay.antt =====
-- The overlay over the store in memory, the objects in memory and the read budget, on concrete values.
-- The stand-in for SHA-256 is the identity.
use ducktape_sdk.Prelude.{
  ℕ, suc, ◌≤◌, ◌≡◌, ◌↔◌, ◌⊎◌, refl, none, some, List, [], ◌∷◌, true, if◌then◌else◌, arith,
}
use ducktape_sdk.Bytes.{ascii}
use ducktape_sdk.Bytes.Order.{bytes_eq, bytes_lt, bytes_order}
use ducktape_sdk.Parser.{ok}
use ducktape_sdk.BTree.{IsAscending}
use ducktape_sdk.Sdk.MerkleStore.{Durable}
use ducktape_sdk.Sdk.StagedStore.{
  StagedStore, commit, get, root, get_committed, restore, checkpoint, abort, new,
}
use ducktape_sdk.Sdk.StagedStore.Reads.{
  Step, stage_step, delete_step, run, latest, get-run, undo-run,
}
use ducktape_sdk.Sdk.StagedStore.Commit.{Commits, commit-get}
use ducktape_sdk.Sdk.MemStore.{MemStore, mem_store}
use ducktape_sdk.Sdk.MemStore.Law.{mem_store-Durable}
use ducktape_sdk.Duckfs.Kind
use ducktape_sdk.Duckfs.Kind.{Kind}
use ducktape_sdk.Duckfs.Store
use ducktape_sdk.Duckfs.Store.{Objects}
use ducktape_sdk.Duckfs.Store.Addressed.{IsAddressed, put-remove-IsAddressed}
use ducktape_sdk.Duckfs.ReadBudget.{ReadBudget}
use ducktape_sdk.Duckfs.ReadBudget.Charges.{get_charge, charge, charged, is_free, charge-count}
use ducktape_sdk.Tests.{some_id}

abbrev hash : List ℕ → List ℕ
hash key = key

abbrev staged : StagedStore MemStore
staged = record {
  store = (ascii "a", ascii "old") ∷ (ascii "b", ascii "kept") ∷ [];
  pending = (ascii "a", none) ∷ (ascii "c", some (ascii "new")) ∷ [];
}

commit-get_example :
    Commits ⦃merkle = mem_store hash⦄ hash
      (ascii "a")
      staged
      (commit ⦃merkle = mem_store hash⦄ hash staged)
unfolding bytes_eq bytes_lt
commit-get_example =
    commit-get ⦃merkle = mem_store hash⦄ (λ map. IsAscending map) hash (mem_store-Durable hash)
      (ascii "a") staged ((refl, tt), (tt, tt)) ((refl, tt), (tt, tt)) (refl, (refl, tt))

abbrev steps : List Step
steps =
    stage_step (ascii "a") (ascii "1")
    ∷ delete_step (ascii "b")
    ∷ stage_step (ascii "a") (ascii "2")
    ∷ []

get-run_example :
    get ⦃merkle = mem_store hash⦄ hash (ascii "a") (run steps staged)
    ≡ latest steps (ascii "a") (get ⦃merkle = mem_store hash⦄ hash (ascii "a") staged)
get-run_example = get-run ⦃merkle = mem_store hash⦄ hash steps (ascii "a") staged

undo-run_example :
    (root ⦃merkle = mem_store hash⦄ (run steps staged) ≡ root ⦃merkle = mem_store hash⦄ staged)
    × (get_committed ⦃merkle = mem_store hash⦄ hash (ascii "a") (run steps staged)
        ≡ get_committed ⦃merkle = mem_store hash⦄ hash (ascii "a") staged)
    × (restore (checkpoint staged) (run steps staged) ≡ staged)
    × (abort (run steps staged) ≡ new (staged.store))
undo-run_example = undo-run ⦃merkle = mem_store hash⦄ hash steps (ascii "a") staged

mem_store-Durable_example : Durable (mem_store hash) (λ map. IsAscending map)
mem_store-Durable_example = mem_store-Durable hash

abbrev objects : Objects
objects = (1 ∷ 7 ∷ [], (Kind.file, 7 ∷ [])) ∷ []

put-remove-IsAddressed_example :
    IsAddressed hash (Store.put hash objects Kind.chunk (9 ∷ [])).1
    × IsAddressed hash (Store.remove objects (1 ∷ 7 ∷ []))
    × (Store.get (Store.put hash objects Kind.chunk (9 ∷ [])).1 (1 ∷ 7 ∷ []) ≡ (
        if bytes_eq (Store.put hash objects Kind.chunk (9 ∷ [])).0 (1 ∷ 7 ∷ [])
        then some (Kind.chunk, 9 ∷ [])
        else Store.get objects (1 ∷ 7 ∷ [])))
unfolding Store.object_id Kind.tag
put-remove-IsAddressed_example =
    put-remove-IsAddressed hash objects Kind.chunk (9 ∷ []) (1 ∷ 7 ∷ []) ((tt, tt), (refl, tt))

-- One read is counted, and the cap is one.
abbrev budget : ReadBudget
budget = record { block_index = []; cap = 1; gets = (some_id, tt) ∷ []; stats = [] }

charge-count_example :
    (((charge (get_charge some_id) budget).1 ≡ ok tt)
      ↔ ((is_free (get_charge some_id) budget ≡ true) ⊎ (suc (charged budget) ≤ 1)))
    × (charged (charge (get_charge some_id) budget).0
        ≡ (if is_free (get_charge some_id) budget then charged budget else suc (charged budget)))
    × ((charge (get_charge some_id) budget).0.cap ≡ 1)
    × ((charge (get_charge some_id) budget).0.block_index ≡ [])
charge-count_example = charge-count (get_charge some_id) budget (omega arith)
