-- ===== src/Duckfs/Actor/Control.antt =====
-- Who controls what an actor owns, and which authorities are valid.
use ducktape_sdk.Prelude.{
  ℕ, ◌<◌, ◌≡◌, ◌≢◌, ◌↔◌, ◌⊎◌, inl, inr, refl, sym, ap, ◌∙◌, true, false, none, some, List, [], ◌∷◌,
  length, arith, ◌==◌, ==_self,
}
use ducktape_sdk.Bytes.Order.{bytes_eq, bytes_eq_self, bytes_eq→eq}
use ducktape_sdk.Parser.{ok, if_err_eq_ok}
use ducktape_sdk.Duckfs.Actor.{
  Actor, account, key, mod_id, system, Authority, external, program, mod_authority,
  system_authority, actor_eq, actor, validate_actor, validate, controls,
}

actor_eq_self : (a : Actor) → actor_eq a a ≡ true
unfolding actor_eq
actor_eq_self (account n) = ==_self n
actor_eq_self (key k) = bytes_eq_self k
actor_eq_self (mod_id m) = bytes_eq_self m
actor_eq_self system = refl

actor_eq→eq : (a b : Actor) → actor_eq a b ≡ true → a ≡ b
unfolding actor_eq
actor_eq→eq (account m) (account n) h = ground arith
actor_eq→eq (key k) (key l) h = ap key (bytes_eq→eq k l h)
actor_eq→eq (mod_id m) (mod_id n) h = ap mod_id (bytes_eq→eq m n h)
actor_eq→eq system system h = refl
actor_eq→eq (account m) (key l) h = cc
actor_eq→eq (account m) (mod_id l) h = cc
actor_eq→eq (account m) system h = cc
actor_eq→eq (key k) (account l) h = cc
actor_eq→eq (key k) (mod_id l) h = cc
actor_eq→eq (key k) system h = cc
actor_eq→eq (mod_id k) (account l) h = cc
actor_eq→eq (mod_id k) (key l) h = cc
actor_eq→eq (mod_id k) system h = cc
actor_eq→eq system (account l) h = cc
actor_eq→eq system (key l) h = cc
actor_eq→eq system (mod_id l) h = cc

-- The authority signs with the key `k`.
abbrev pub HoldsKey : Authority → List ℕ → Type 0
HoldsKey (external k _) l = k ≡ l
HoldsKey _ l = ⊥

-- What an authority controls: what its own actor owns, and, on an account, what the very key that
-- signs for it owned before.
abbrev pub Owns : Authority → Actor → Type 0
Owns a owner = (owner ≡ actor a) ⊎ ((k : List ℕ) × (owner ≡ key k) × HoldsKey a k)

to_Owns : (a : Authority) (owner : Actor) → controls a owner ≡ true → Owns a owner
unfolding controls
to_Owns (external k o) (key l) h = inr (l, refl, sym (bytes_eq→eq l k h))
to_Owns (program n) (key l) h = absurd (cc)
to_Owns (mod_authority m) (key l) h = absurd (cc)
to_Owns system_authority (key l) h = absurd (cc)
to_Owns a owner h = inl (actor_eq→eq owner (actor a) h)

controls-actor : (a : Authority) → controls a (actor a) ≡ true
unfolding controls
controls-actor (external k none) = bytes_eq_self k
controls-actor (external k (some n)) = ==_self n
controls-actor (program n) = ==_self n
controls-actor (mod_authority m) = bytes_eq_self m
controls-actor system_authority = refl

controls-held : (a : Authority) (k : List ℕ) → HoldsKey a k → controls a (key k) ≡ true
unfolding controls
controls-held (external k o) l e = ap (bytes_eq l) e ∙ bytes_eq_self l
controls-held (program n) l h = absurd h
controls-held (mod_authority m) l h = absurd h
controls-held system_authority l h = absurd h

-- An authority controls an owner exactly when the owner is its own actor, or a key that it signs
-- with: an account's key keeps what it owned before, and another key of the account does not get it.
pub controls_iff : (a : Authority) (owner : Actor) → (controls a owner ≡ true) ↔ Owns a owner
controls_iff a owner = (to_Owns a owner, back)
  where
    back : Owns a owner → controls a owner ≡ true
    back (inl e) = ap (controls a) e ∙ controls-actor a
    back (inr (k, e, h)) = ap (controls a) e ∙ controls-held a k h

-- An actor that can be decoded: no account zero, no empty key or module.
abbrev pub IsNamed : Actor → Type 0
IsNamed (account n) = 0 < n
IsNamed (key k) = k ≢ []
IsNamed (mod_id m) = m ≢ []
IsNamed system = Unit

not_empty_iff : (a : List ℕ) → ((length a == 0) ≡ false) ↔ (a ≢ [])
not_empty_iff [] = (λ h. cc, λ h. absurd (h refl))
not_empty_iff (x ∷ xs) = (λ h e. cc, λ h. ground arith)

validate_actor_iff : (x : Actor) → (validate_actor x ≡ ok tt) ↔ IsNamed x
unfolding validate_actor
validate_actor_iff (account n) = (λ h. ground arith, λ h. ground arith)
validate_actor_iff (key k) =
    let (f, g) = not_empty_iff k in (λ h. f (if_err_eq_ok _ _ _ _ h).0, λ h. rw (g h))
validate_actor_iff (mod_id m) =
    let (f, g) = not_empty_iff m in (λ h. f (if_err_eq_ok _ _ _ _ h).0, λ h. rw (g h))
validate_actor_iff system = (λ h. tt, λ h. refl)

-- `validate` passes an authority exactly when the actor that it acts as has a name: an account
-- number that is not zero, or a key or a module id that is not empty.
pub validate_iff : (a : Authority) → (validate a ≡ ok tt) ↔ IsNamed (actor a)
unfolding validate
validate_iff a = validate_actor_iff (actor a)
