-- ===== src/Group/Apply/Ranks.antt =====
-- The ranks that a `9000` of crates/hit-group/src/state.rs is held to.
use hit_enter.Base.{
  true, false, not, Option, some, List, [], ◌∷◌, Text, ◌==◌, nat_key, text_key, ◌≡◌, ◌⊎◌, arith, ok,
  Bool-cases, Option-cases, Result-cases, inl, inr, is_some,
}
use hit_enter.Base.Lists.{elem}
use hit_enter.Base.Maps.{
  Set, get, contains_key, delete, same_elements, symmetric_difference, elem-symmetric_difference,
  elem-every, get-insert_self,
}
use hit_enter.Event.{PublicKey, Timestamp}
use hit_enter.Event.Rows.{RoleDef, default_role}
use hit_enter.Perm.{Permissions, manage_roles, none_at_all, contains}
use hit_enter.Group.{GroupState, is_member, base, require, outranks, outranks_role}
use hit_enter.Group.Apply.{put, or_empty, granted, check_roles, check_change}
use hit_enter.Group.Apply.Grants.{put-applied, granted_round}

-- A role that is defined and below `actor`.
abbrev pub Below : GroupState → PublicKey → Text → Type 0
Below s actor r = (d : RoleDef) × (get r s.roles ≡ some d) × (outranks_role s actor d ≡ true)

granted_first :
    (s : GroupState) (actor : PublicKey) (wanted : Set Text) (r : Text) (rs : List Text)
    (p q : Permissions)
    → granted s actor wanted (r ∷ rs) p ≡ ok q
    → Below s actor r
unfolding granted
granted_first s actor wanted r rs p q e = elim (Option-cases (get r s.roles)) [
  | inl absent ↦ absurd (ground arith)
  | inr (d, found) ↦ (d, found, ground arith)
]

-- Every role that the loop goes over is below the author.
granted-Below :
    (s : GroupState) (actor : PublicKey) (wanted : Set Text) (rs : List Text) (p q : Permissions)
    (r : Text)
    → granted s actor wanted rs p ≡ ok q
    → elem r rs ≡ true
    → Below s actor r
granted-Below s actor wanted [] p q r e m = absurd (ground arith)
granted-Below s actor wanted (x ∷ rs) p q r e m = elim (Bool-cases (x == r)) [
  | inl here ↦
      let same : x ≡ r = (text_key.beq_iff x r).0 here in
      rw (← same) (granted_first s actor wanted x rs p q e)
  | inr there ↦
      granted-Below s actor wanted rs _ q r (granted_round s actor wanted x rs p q e) (ground arith)
]

same_elements-elem : (a b : Set Text) (r : Text) → same_elements a b ≡ true → elem r a ≡ elem r b
same_elements-elem a b r h = ground (arith, elem-every r a b, elem-every r b a)

changed-Below :
    (s : GroupState) (actor target : PublicKey) (current : Option (Set Text)) (wanted : Set Text)
    (r : Text)
    → check_roles s actor target current wanted ≡ ok tt
    → elem r wanted ≡ not (elem r (or_empty current))
    → Below s actor r
      × (contains (base s actor) manage_roles ≡ true)
      × ((is_some current ≡ false) ⊎ (outranks s actor target ≡ true))
unfolding check_roles require
changed-Below s actor target current wanted r e differs =
    let changed = symmetric_difference wanted (or_empty current) in
    elim (Result-cases (granted s actor wanted changed none_at_all)) [
      | inl (q, sum) ↦ (
        granted-Below s actor wanted changed none_at_all q r sum
            (ground (arith, elem-symmetric_difference r wanted (or_empty current))),
        ground arith,
        ground arith,
      )
      | inr (x, failed) ↦ absurd (ground arith)
    ]

-- If an applied `9000` gives its target a role or takes one, the role is defined and below the
-- author, who may manage roles, and outranks the target if the target was a member.
pub put-Below :
    (s t : GroupState) (actor : PublicKey) (at : Timestamp) (target : PublicKey) (roles : Set Text)
    (r : Text)
    → put s actor at target roles ≡ ok t
    → elem r (or_empty (get target t.members)) ≡ not (elem r (or_empty (get target s.members)))
    → Below s actor r
      × (contains (base s actor) manage_roles ≡ true)
      × ((is_member s target ≡ false) ⊎ (outranks s actor target ≡ true))
unfolding check_change is_member contains_key
put-Below s t actor at target roles r e differs =
    let wanted = delete default_role roles in
    let (_, _, _, _, m, checked) = put-applied s t actor at target roles e in
    let current = get target s.members in
    let moved : elem r wanted ≡ not (elem r (or_empty current)) =
      rw (m, get-insert_self target wanted s.members) at differs in
    elim (Bool-cases (same_elements wanted (or_empty current))) [
      | inl same ↦
          let equal = same_elements-elem wanted (or_empty current) r same in absurd (ground arith)
      | inr changed ↦ changed-Below s actor target current wanted r (ground arith) moved
    ]
