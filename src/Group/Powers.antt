-- ===== src/Group/Powers.antt =====
-- The bits of the answers `base` and `can_grant` of crates/hit-group/src/state.rs.
use hit_enter.Base.{
  ℕ, ◌≤◌, true, false, none, some, List, [], ◌∷◌, Text, ◌==◌, nat_key, text_key, text_beq, ◌≡◌,
  refl, ap, arith, Bool-cases, Option-cases, inl, inr,
}
use hit_enter.Base.Lists.{elem, fold}
use hit_enter.Base.Maps.{Map, Set, get, contains_key}
use hit_enter.Base.Words.{bit, zero_bits}
use hit_enter.Event.{PublicKey}
use hit_enter.Event.Rows.{RoleDef, default_role}
use hit_enter.Perm.{Permissions, all, none_at_all, union, sanitized}
use hit_enter.Perm.Bits.{Within, bit-union, bit-sanitized, beyond-is_empty_iff, Within-le}
use hit_enter.Group.{GroupState, role_perms, base_of, base, is_owner, is_member, can_grant}
use hit_enter.Group.Soundness.{IsSound}

abbrev unite : Map Text RoleDef → Permissions → List Text → Permissions
unite roles p rs = fold (λ q r. union q (role_perms roles r)) p rs

-- What bounds the bits of every role bounds those of their union.
unite-le :
    (roles : Map Text RoleDef) (i b : ℕ) (p : Permissions) (rs : List Text)
    → bit p i ≤ b
    → ((r : Text) → elem r rs ≡ true → bit (role_perms roles r) i ≤ b)
    → bit (unite roles p rs) i ≤ b
unite-le roles i b p [] h all_le = h
unite-le roles i b p (r ∷ rs) h all_le =
    unite-le roles i b (union p (role_perms roles r)) rs
      (omega (arith, bit-union p (role_perms roles r) i, all_le r (here r rs)))
      (λ q m. all_le q (there q r rs m))
  where
    here : (q : Text) (qs : List Text) → elem q (q ∷ qs) ≡ true
    here q qs = ground (arith, text_key.beq_iff q q)

    there : (q x : Text) (qs : List Text) → elem q qs ≡ true → elem q (x ∷ qs) ≡ true
    there q x qs m = ground arith

le-unite_start :
    (roles : Map Text RoleDef) (i : ℕ) (p : Permissions) (rs : List Text)
    → bit p i ≤ bit (unite roles p rs) i
le-unite_start roles i p [] = omega arith
le-unite_start roles i p (r ∷ rs) = omega (
  arith,
  bit-union p (role_perms roles r) i,
  le-unite_start roles i (union p (role_perms roles r)) rs,
)

-- Each role's bits are in the union.
le-unite :
    (roles : Map Text RoleDef) (i : ℕ) (p : Permissions) (r : Text) (rs : List Text)
    → elem r rs ≡ true
    → bit (role_perms roles r) i ≤ bit (unite roles p rs) i
le-unite roles i p r [] m = absurd (ground arith)
le-unite roles i p r (q ∷ rs) m = elim (Bool-cases (q == r)) [
  | inl e ↦
      let same : q ≡ r = (text_key.beq_iff q r).0 e in
      rw (← same) (
        omega (
          arith,
          bit-union p (role_perms roles q) i,
          le-unite_start roles i (union p (role_perms roles q)) rs,
        ))
  | inr e ↦ le-unite roles i (union p (role_perms roles q)) r rs (ground arith)
]

-- What bounds the default role and every role held bounds what they grant together.
pub base_of-le :
    (s : GroupState) (held : Set Text) (i b : ℕ)
    → bit (role_perms s.roles default_role) i ≤ b
    → ((r : Text) → elem r held ≡ true → bit (role_perms s.roles r) i ≤ b)
    → bit (base_of s held) i ≤ b
unfolding base_of
base_of-le s held i b d h = omega (
  arith,
  bit-sanitized (unite s.roles none_at_all (default_role ∷ held)) i,
  unite-le s.roles i b (union none_at_all (role_perms s.roles default_role)) held
      (omega (arith, bit-union none_at_all (role_perms s.roles default_role) i, zero_bits i)) h,
)

-- A role grants only what is defined.
pub role_perms-Within :
    (s : GroupState) → IsSound s → (r : Text) → Within (role_perms s.roles r) all
unfolding role_perms
role_perms-Within s h r i = elim (Option-cases (get r s.roles)) [
  | inl e ↦ rw (e, role_perms) (omega (arith, zero_bits i))
  | inr (d, e) ↦ rw (e, role_perms) (h.perms_defined r d e i)
]

-- A role that is held, or the default one, is in what is granted.
pub le-base_of :
    (s : GroupState) (held : Set Text) (r : Text) (i : ℕ)
    → IsSound s
    → elem r (default_role ∷ held) ≡ true
    → bit (role_perms s.roles r) i ≤ bit (base_of s held) i
unfolding base_of
le-base_of s held r i h m = omega (
  arith,
  bit-sanitized (unite s.roles none_at_all (default_role ∷ held)) i,
  role_perms-Within s h r i,
  le-unite s.roles i none_at_all r (default_role ∷ held) m,
)

pub base-owner : (s : GroupState) (p : PublicKey) → is_owner s p ≡ true → base s p ≡ all
unfolding base
base-owner s p e = rw e

pub base-member :
    (s : GroupState) (p : PublicKey) (held : Set Text)
    → is_owner s p ≡ false
    → get p s.members ≡ some held
    → base s p ≡ base_of s held
unfolding base
base-member s p held o e = rw (o, e)

pub base-stranger :
    (s : GroupState) (p : PublicKey)
    → is_owner s p ≡ false
    → get p s.members ≡ none
    → base s p ≡ none_at_all
unfolding base
base-stranger s p o e = rw (o, e)

-- Every member holds what the default role grants.
pub default-le-base :
    (s : GroupState) (p : PublicKey) (i : ℕ)
    → IsSound s
    → is_member s p ≡ true
    → bit (role_perms s.roles default_role) i ≤ bit (base s p) i
unfolding is_member contains_key text_beq
default-le-base s p i h m = elim (Bool-cases (is_owner s p)) [
  | inl o ↦ rw (base-owner s p o) (role_perms-Within s h default_role i)
  | inr o ↦ elim (Option-cases (get p s.members)) [
    | inl e ↦ absurd (ground arith)
    | inr (held, e) ↦ rw (base-member s p held o e) (le-base_of s held default_role i h refl)
  ]
]

-- What may be granted is held.
pub can_grant-Within :
    (s : GroupState) (actor : PublicKey) (granting : Permissions)
    → Within granting all
    → can_grant s actor granting ≡ true
    → Within granting (base s actor)
unfolding can_grant
can_grant-Within s actor granting defined e =
    (beyond-is_empty_iff granting (base s actor) (omega (arith, Within-le granting all defined))).0
      e

pub is_owner-eq :
    (s t : GroupState) (p : PublicKey) → t.owner ≡ s.owner → is_owner t p ≡ is_owner s p
unfolding is_owner
is_owner-eq s t p o = rw o

base_of-eq :
    (s t : GroupState) (held : Set Text) → t.roles ≡ s.roles → base_of t held ≡ base_of s held
unfolding base_of
base_of-eq s t held r = ap (λ roles. sanitized (unite roles none_at_all (default_role ∷ held))) r

-- `base` reads the owner, the roles and one member.
pub base-eq :
    (s t : GroupState) (p : PublicKey)
    → t.owner ≡ s.owner
    → t.roles ≡ s.roles
    → get p t.members ≡ get p s.members
    → base t p ≡ base s p
unfolding base
base-eq s t p o r m = elim (Option-cases (get p s.members)) [
  | inl e ↦ ground (arith, is_owner-eq s t p o)
  | inr (held, e) ↦ ground (arith, is_owner-eq s t p o, base_of-eq s t held r)
]
