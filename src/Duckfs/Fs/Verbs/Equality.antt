-- ===== src/Duckfs/Fs/Verbs/Equality.antt =====
-- The derived `==` on the refs of crates/duckfs/core/src/state.rs, which `transact` compares them by.
use ducktape_sdk.Prelude.{
  and-true, ==_self, ℕ, ◌≡◌, refl, ap, ap₂, Bool, true, Option, none, some, List, [], ◌∷◌, ==_iff,
}
use ducktape_sdk.Bytes.Order.{bytes_eq, bytes_eq_self, bytes_eq→eq}
use ducktape_sdk.Duckfs.Actor.{Actor, account, key, mod_id, system, actor_eq}
use ducktape_sdk.Duckfs.Objects.{ObjectId}
use ducktape_sdk.Duckfs.Refs.{PinEntry, Staged, Refs, Watch}
use ducktape_sdk.Duckfs.Retention.Exchange.{id_eq}
use ducktape_sdk.Duckfs.Fs.Verbs.{list_eq, pin_eq, staged_eq, watch_eq, refs_eq}

actor_eq→eq : (a b : Actor) → actor_eq a b ≡ true → a ≡ b
unfolding actor_eq
actor_eq→eq (account m) (account n) h = ap account ((==_iff m n).0 h)
actor_eq→eq (key k) (key l) h = ap key (bytes_eq→eq k l h)
actor_eq→eq (mod_id m) (mod_id n) h = ap mod_id (bytes_eq→eq m n h)
actor_eq→eq system system h = refl
actor_eq→eq a b h = absurd (cc)

actor_eq_self : (a : Actor) → actor_eq a a ≡ true
unfolding actor_eq
actor_eq_self (account n) = ==_self n
actor_eq_self (key k) = bytes_eq_self k
actor_eq_self (mod_id m) = bytes_eq_self m
actor_eq_self system = refl

id_eq_self : (a : Option ObjectId) → id_eq a a ≡ true
id_eq_self none = refl
id_eq_self (some i) = bytes_eq_self i

list_eq_self {ℓ} :
    {A : Type ℓ} (eq : A → A → Bool)
    → ((a : A) → eq a a ≡ true)
    → (xs : List A) → list_eq eq xs xs ≡ true
unfolding list_eq
list_eq_self eq same [] = refl
list_eq_self eq same (x ∷ xs) = rw (same x) (list_eq_self eq same xs)

id_eq→eq : (a b : Option ObjectId) → id_eq a b ≡ true → a ≡ b
id_eq→eq none none h = refl
id_eq→eq (some i) (some j) h = ap some (bytes_eq→eq i j h)
id_eq→eq none (some j) h = absurd (cc)
id_eq→eq (some i) none h = absurd (cc)

list_eq→eq {ℓ} :
    {A : Type ℓ} (eq : A → A → Bool)
    → ((a b : A) → eq a b ≡ true → a ≡ b)
    → (xs ys : List A) → list_eq eq xs ys ≡ true
    → xs ≡ ys
unfolding list_eq
list_eq→eq eq sound [] [] h = refl
list_eq→eq eq sound (x ∷ xs) (y ∷ ys) h =
    let (p, q) = and-true _ _ h in ap₂ ◌∷◌ (sound x y p) (list_eq→eq eq sound xs ys q)
list_eq→eq eq sound [] (y ∷ ys) h = absurd (cc)
list_eq→eq eq sound (x ∷ xs) [] h = absurd (cc)

pin_eq→eq : (a b : List ℕ × PinEntry) → pin_eq a b ≡ true → a ≡ b
pin_eq→eq (name, p) (other, q) h =
    let (e, h) = and-true _ _ h in
    let (f, g) = and-true _ _ h in
    let snapshot_eq = bytes_eq→eq p.snapshot q.snapshot f in
    let owner_eq = actor_eq→eq p.owner q.owner g in
    ap₂ (λ (n : List ℕ) (x : PinEntry). (n, x)) (bytes_eq→eq name other e)
      (ap₂ (λ (i : ObjectId) (o : Actor). record { snapshot = i; owner = o }) snapshot_eq owner_eq)

staged_eq→eq : (a b : ObjectId × Staged) → staged_eq a b ≡ true → a ≡ b
staged_eq→eq (digest, s) (other, t) h =
    let (e, h) = and-true _ _ h in
    let (f, h) = and-true _ _ h in
    let (g, k) = and-true _ _ h in
    let owner_eq = actor_eq→eq s.owner t.owner f in
    let len_eq = (==_iff s.len t.len).0 g in
    let expires_eq = (==_iff s.expires_at t.expires_at).0 k in
    let digest_eq = bytes_eq→eq digest other e in cc

watch_eq→eq : (a b : Watch × Unit {0}) → watch_eq a b ≡ true → a ≡ b
watch_eq→eq ((p, m), u) ((q, n), v) h =
    let (e, f) = and-true _ _ h in
    let prefix_eq = bytes_eq→eq p q e in let id_eq = bytes_eq→eq m n f in cc

pin_eq_self : (a : List ℕ × PinEntry) → pin_eq a a ≡ true
pin_eq_self (name, p) =
    rw (bytes_eq_self name, bytes_eq_self p.snapshot, actor_eq_self p.owner) refl

staged_eq_self : (a : ObjectId × Staged) → staged_eq a a ≡ true
staged_eq_self (digest, s) =
    rw (bytes_eq_self digest, actor_eq_self s.owner, ==_self s.len, ==_self s.expires_at) refl

watch_eq_self : (a : Watch × Unit {0}) → watch_eq a a ≡ true
watch_eq_self ((p, m), u) = rw (bytes_eq_self p, bytes_eq_self m) refl

-- The derived equality is equality.
pub refs_eq→eq : (r s : Refs) → refs_eq r s ≡ true → r ≡ s
unfolding refs_eq
refs_eq→eq r s h =
    let (revision, h) = and-true _ _ h in
    let (head, h) = and-true _ _ h in
    let (window, h) = and-true _ _ h in
    let (pins, h) = and-true _ _ h in
    let (staging, h) = and-true _ _ h in
    let (watches, retention) = and-true _ _ h in
    let e0 = (==_iff r.source_revision s.source_revision).0 revision in
    let e1 = id_eq→eq r.head s.head head in
    let e2 = list_eq→eq bytes_eq bytes_eq→eq r.window s.window window in
    let e3 = list_eq→eq pin_eq pin_eq→eq r.pins s.pins pins in
    let e4 = list_eq→eq staged_eq staged_eq→eq r.staging s.staging staging in
    let e5 = list_eq→eq watch_eq watch_eq→eq r.watches s.watches watches in
    let e6 = id_eq→eq r.retention_root s.retention_root retention in cc

pub refs_eq_self : (r : Refs) → refs_eq r r ≡ true
unfolding refs_eq
refs_eq_self r =
    rw
      (
        ==_self r.source_revision,
        id_eq_self r.head,
        list_eq_self bytes_eq bytes_eq_self r.window,
        list_eq_self pin_eq pin_eq_self r.pins,
        list_eq_self staged_eq staged_eq_self r.staging,
        list_eq_self watch_eq watch_eq_self r.watches,
        id_eq_self r.retention_root,
      )
      refl
