-- ===== src/Group/Apply/Grants.antt =====
-- The permissions that a `9000` of crates/hit-group/src/state.rs gives.
use hit_enter.Base.{
  ℕ, ◌≤◌, max, true, false, Option, List, [], ◌∷◌, Text, ◌==◌, nat_key, text_key, ◌≡◌, ap, arith,
  ok, ◌∙◌, Bool-cases, Option-cases, Result-cases, inl, inr, if◌then◌else◌, ◌⊎◌,
}
use hit_enter.Base.Lists.{elem}
use hit_enter.Base.Maps.{
  Set, get, insert, delete, get-insert, get-insert_self, elem-every, symmetric_difference,
  elem-symmetric_difference, same_elements,
}
use hit_enter.Base.Words.{bit, zero_bits}
use hit_enter.Event.{PublicKey, Timestamp}
use hit_enter.Event.Rows.{default_role}
use hit_enter.Perm.{Permissions, all, none_at_all, union}
use hit_enter.Perm.Bits.{Within, Within-refl, bit-union}
use hit_enter.Group.{GroupState, role_perms, base, is_owner, is_member, require_member}
use hit_enter.Group.Powers.{
  base_of-le, le-base_of, role_perms-Within, base-member, default-le-base, can_grant-Within,
  base-eq, is_owner-eq,
}
use hit_enter.Group.Soundness.{IsSound}
use hit_enter.Group.Apply.{granted, check_roles, check_change, put, let_back_in, or_empty}

-- One round of the loop over the roles.
pub granted_round :
    (s : GroupState) (actor : PublicKey) (wanted : Set Text) (r : Text) (rs : List Text)
    (p q : Permissions)
    → granted s actor wanted (r ∷ rs) p ≡ ok q
    → granted s actor wanted rs (if elem r wanted then union p (role_perms s.roles r) else p) ≡ ok q
unfolding granted role_perms
granted_round s actor wanted r rs p q e = elim (Option-cases (get r s.roles)) [
  | inl absent ↦ absurd (ground arith)
  | inr (d, found) ↦ ground arith
]

-- The loop adds up defined bits only, and drops none.
granted_grows :
    (s : GroupState) (actor : PublicKey) (wanted : Set Text) (rs : List Text) (p q : Permissions)
    → IsSound s
    → granted s actor wanted rs p ≡ ok q
    → Within p all
    → Within q all × Within p q
unfolding granted
granted_grows s actor wanted [] p q h e w =
    let same : p ≡ q = ground arith in rw (← same) (w, Within-refl p)
granted_grows s actor wanted (r ∷ rs) p q h e w =
    let rest = granted_round s actor wanted r rs p q e in
    elim (Bool-cases (elem r wanted)) [
      | inl given ↦
          let (defined, grown) =
            granted_grows s actor wanted rs (union p (role_perms s.roles r)) q h (rw given at rest)
              (λ i.
                omega
                  (arith, bit-union p (role_perms s.roles r) i, w i, role_perms-Within s h r i)) in
          (defined, λ i. omega (arith, grown i, bit-union p (role_perms s.roles r) i))
      | inr taken ↦ granted_grows s actor wanted rs p q h (rw taken at rest) w
    ]

abbrev next : GroupState → Set Text → Permissions → Text → Permissions
next s wanted p r = if elem r wanted then union p (role_perms s.roles r) else p

next-Within :
    (s : GroupState) (wanted : Set Text) (p : Permissions) (r : Text)
    → IsSound s
    → Within p all
    → Within (next s wanted p r) all
next-Within s wanted p r h w i = elim (Bool-cases (elem r wanted)) [
  | inl given ↦
      rw given (omega (arith, bit-union p (role_perms s.roles r) i, w i, role_perms-Within s h r i))
  | inr taken ↦ rw taken (w i)
]

next-union :
    (s : GroupState) (wanted : Set Text) (p : Permissions) (r : Text) (i : ℕ)
    → elem r wanted ≡ true
    → bit (role_perms s.roles r) i ≤ bit (next s wanted p r) i
next-union s wanted p r i given = rw given (omega (arith, bit-union p (role_perms s.roles r) i))

-- Every role that is given is in the sum.
granted_holds :
    (s : GroupState) (actor : PublicKey) (wanted : Set Text) (rs : List Text) (p q : Permissions)
    (r : Text)
    → IsSound s
    → granted s actor wanted rs p ≡ ok q
    → Within p all
    → elem r rs ≡ true
    → elem r wanted ≡ true
    → Within (role_perms s.roles r) q
unfolding granted
granted_holds s actor wanted [] p q r h e w m given = absurd (ground arith)
granted_holds s actor wanted (x ∷ rs) p q r h e w m given =
    let rest = granted_round s actor wanted x rs p q e in
    let defined = next-Within s wanted p x h w in
    elim (Bool-cases (x == r)) [
      | inl here ↦
          let same : x ≡ r = (text_key.beq_iff x r).0 here in
          let grown = (granted_grows s actor wanted rs (next s wanted p x) q h rest defined).1 in
          λ i. omega (
            arith,
            grown i,
            ap (λ y. bit (next s wanted p y) i) same,
            ap (λ y. bit (role_perms s.roles y) i) same,
            next-union s wanted p r i given,
          )
      | inr there ↦
          granted_holds s actor wanted rs (next s wanted p x) q r h rest defined (ground arith)
            given
    ]

-- What an applied `9000` has done.
pub put-applied :
    (s t : GroupState) (actor : PublicKey) (at : Timestamp) (target : PublicKey) (roles : Set Text)
    → put s actor at target roles ≡ ok t
    → let wanted = delete default_role roles in
      (is_member s actor ≡ true)
      × (is_owner s target ≡ false)
      × (t.roles ≡ s.roles)
      × (t.owner ≡ s.owner)
      × (t.members ≡ insert target wanted s.members)
      × (check_change s actor target (get target s.members) wanted ≡ ok tt)
unfolding put let_back_in require_member
put-applied s t actor at target roles e = ground arith

nothing-Within : Within none_at_all all
nothing-Within i = omega (arith, zero_bits i)

-- What a change of roles that is allowed gives, its author holds.
check_roles_held :
    (s : GroupState) (actor target : PublicKey) (current : Option (Set Text)) (wanted : Set Text)
    (r : Text)
    → IsSound s
    → check_roles s actor target current wanted ≡ ok tt
    → elem r wanted ≡ true
    → elem r (or_empty current) ≡ false
    → Within (role_perms s.roles r) (base s actor)
unfolding check_roles
check_roles_held s actor target current wanted r h e given fresh i =
    let changed = symmetric_difference wanted (or_empty current) in
    elim (Result-cases (granted s actor wanted changed none_at_all)) [
      | inl (q, sum) ↦
          let defined =
            (granted_grows s actor wanted changed none_at_all q h sum nothing-Within).0 in
          omega (
            arith,
            granted_holds s actor wanted changed none_at_all q r h sum nothing-Within
                (ground (arith, elem-symmetric_difference r wanted (or_empty current))) given i,
            can_grant-Within s actor q defined (ground arith) i,
          )
      | inr (x, failed) ↦ absurd (ground arith)
    ]

-- A role that is wanted is held already, or its bits are the author's.
wanted_bits :
    (s : GroupState) (actor target : PublicKey) (current : Option (Set Text)) (wanted : Set Text)
    (r : Text)
    → IsSound s
    → check_change s actor target current wanted ≡ ok tt
    → elem r wanted ≡ true
    → (elem r (or_empty current) ≡ true) ⊎ Within (role_perms s.roles r) (base s actor)
unfolding check_change
wanted_bits s actor target current wanted r h e given =
    elim (Bool-cases (same_elements wanted (or_empty current))) [
      | inl same ↦ inl (elem-every r wanted (or_empty current) (ground arith) given)
      | inr changed ↦ elim (Bool-cases (elem r (or_empty current))) [
        | inl old ↦ inl old
        | inr fresh ↦
            inr (check_roles_held s actor target current wanted r h (ground arith) given fresh)
      ]
    ]

held_bits :
    (s : GroupState) (target : PublicKey) (r : Text) (i : ℕ)
    → IsSound s
    → is_owner s target ≡ false
    → elem r (or_empty (get target s.members)) ≡ true
    → bit (role_perms s.roles r) i ≤ bit (base s target) i
held_bits s target r i h other m = elim (Option-cases (get target s.members)) [
  | inl absent ↦ absurd (ground arith)
  | inr (held, found) ↦
      rw (base-member s target held other found) (le-base_of s held r i h (ground arith))
]

target-le :
    (s t : GroupState) (actor target : PublicKey) (wanted : Set Text)
    → IsSound s
    → is_member s actor ≡ true
    → is_owner s target ≡ false
    → t.roles ≡ s.roles
    → t.owner ≡ s.owner
    → t.members ≡ insert target wanted s.members
    → check_change s actor target (get target s.members) wanted ≡ ok tt
    → (i : ℕ) → bit (base t target) i ≤ max (bit (base s target) i) (bit (base s actor) i)
target-le s t actor target wanted h member other r o m checked i =
    rw
      (base-member t target wanted (is_owner-eq s t target o ∙ other)
        (rw m (get-insert_self target wanted s.members)))
      (base_of-le t wanted i (max (bit (base s target) i) (bit (base s actor) i))
        (rw r (omega (arith, default-le-base s actor i h member)))
        (λ q given.
          rw r (elim (wanted_bits s actor target (get target s.members) wanted q h checked given) [
            | inl old ↦ omega (arith, held_bits s target q i h other old)
            | inr new ↦ omega (arith, new i)
          ])))

-- An applied `9000` leaves everybody's permissions within what they had and what its author has.
pub base-put-le :
    (s t : GroupState) (actor : PublicKey) (at : Timestamp) (target : PublicKey) (roles : Set Text)
    → IsSound s
    → put s actor at target roles ≡ ok t
    → (p : PublicKey) (i : ℕ) → bit (base t p) i ≤ max (bit (base s p) i) (bit (base s actor) i)
base-put-le s t actor at target roles h e p i =
    let (member, other, r, o, m, checked) = put-applied s t actor at target roles e in
    let wanted = delete default_role roles in
    elim (Bool-cases (target == p)) [
      | inl here ↦
          let same : target ≡ p = (nat_key.beq_iff target p).0 here in
          rw (← same) (target-le s t actor target wanted h member other r o m checked i)
      | inr there ↦ omega (
        arith,
        ap (λ q. bit q i)
            (base-eq s t p o r (rw m (get-insert target p wanted s.members ∙ rw there))),
      )
    ]
