-- ===== src/Duckfs/Paths/Writable.antt =====
-- What `check_authority` lets an authority write, and the namespace roots.
use ducktape_sdk.Prelude.{
  ◌≤◌, ◌≡◌, ◌≢◌, ◌↔◌, ◌⊎◌, inl, inr, refl, sym, ap, ◌∙◌, true, false, [], ◌∷◌, length, arith,
}
use ducktape_sdk.Bytes.{ascii}
use ducktape_sdk.Bytes.Order.{bytes_eq, bytes_eq_self, bytes_eq→eq}
use ducktape_sdk.Parser.{ok}
use ducktape_sdk.Duckfs.Actor.{Authority, external, program, mod_authority, system_authority}
use ducktape_sdk.Duckfs.Paths.{Segments, is_namespace_root, check_namespace, check_authority}

-- A path under `/home/<label>` or under `/shared`.
abbrev pub InNamespace : Segments → Type 0
InNamespace [] = ⊥
InNamespace (root ∷ rest) =
    ((root ≡ ascii "home") × (2 ≤ length rest)) ⊎ ((root ≡ ascii "shared") × (1 ≤ length rest))

shared-home : bytes_eq (ascii "shared") (ascii "home") ≡ false
unfolding bytes_eq
shared-home = refl

check_namespace_iff :
    (segments : Segments) → (check_namespace segments ≡ ok tt) ↔ InNamespace segments
unfolding check_namespace
check_namespace_iff [] = (λ h. absurd (cc), λ h. absurd h)
check_namespace_iff (root ∷ rest) = (
  λ h. ground (arith, bytes_eq→eq root (ascii "home"), bytes_eq→eq root (ascii "shared")),
  λ h. elim h [
    | inl (e, n) ↦ rw (e, bytes_eq_self (ascii "home")) (ground arith)
    | inr (e, n) ↦ rw (e, shared-home, bytes_eq_self (ascii "shared")) (ground arith)
  ],
)

of_namespace :
    (authority : Authority) (segments : Segments)
    → authority ≢ system_authority
    → (check_namespace segments ≡ ok tt) ↔ InNamespace segments
    → (check_namespace segments ≡ ok tt) ↔ ((authority ≡ system_authority) ⊎ InNamespace segments)
of_namespace authority segments ne (f, g) =
    (λ h. inr (f h), λ h. elim h [ inl e ↦ absurd (ne e) | inr n ↦ g n ])

shared_ne_home : ¬ (bytes_eq (ascii "shared") (ascii "home") ≡ true)
unfolding bytes_eq
shared_ne_home h = cc

-- A namespace root does not lie under itself.
root_not_in : (segments : Segments) → is_namespace_root segments ≡ true → ¬ InNamespace segments
unfolding is_namespace_root
root_not_in [] root h = h
root_not_in (s ∷ []) root (inl (e, n)) = ground arith
root_not_in (s ∷ []) root (inr (e, n)) = ground arith
root_not_in (s ∷ t ∷ []) root (inl (e, n)) = ground arith
root_not_in (s ∷ t ∷ []) root (inr (e, n)) =
    let q : bytes_eq (ascii "shared") (ascii "home") ≡ true =
      ap (λ z. bytes_eq z (ascii "home")) (sym e) ∙ root in
    shared_ne_home q
root_not_in (s ∷ t ∷ u ∷ l) root h = absurd (cc)

-- `check_authority` accepts a write exactly when the authority is the system's, or the path lies under
-- `/home/<label>/` or under `/shared/`.
pub check_authority_iff :
    (authority : Authority) (segments : Segments)
    → (check_authority authority segments ≡ ok tt)
      ↔ ((authority ≡ system_authority) ⊎ InNamespace segments)
unfolding check_authority
check_authority_iff system_authority segments = (λ h. inl refl, λ h. refl)
check_authority_iff (external scheme key) segments =
    of_namespace (external scheme key) segments (λ e. cc) (check_namespace_iff segments)
check_authority_iff (program account) segments =
    of_namespace (program account) segments (λ e. cc) (check_namespace_iff segments)
check_authority_iff (mod_authority id) segments =
    of_namespace (mod_authority id) segments (λ e. cc) (check_namespace_iff segments)

-- A namespace root (`/home`, `/shared` or `/home/<label>`) is written by the system's authority alone.
pub namespace_root-system :
    (authority : Authority) (segments : Segments)
    → is_namespace_root segments ≡ true
    → check_authority authority segments ≡ ok tt
    → authority ≡ system_authority
namespace_root-system authority segments root h =
    elim ((check_authority_iff authority segments).0 h) [
      | inl e ↦ e
      | inr n ↦ absurd (root_not_in segments root n)
    ]
