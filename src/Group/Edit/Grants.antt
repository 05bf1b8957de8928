-- ===== src/Group/Edit/Grants.antt =====
-- The permissions that a `9002` of crates/hit-group/src/state.rs gives, every edit of it together.
use hit_enter.Base.{
  ℕ, ◌≤◌, max, true, some, List, [], ◌∷◌, Text, ◌==◌, nat_key, text_key, ◌≡◌, refl, ◌∙◌, arith, ok,
  bind-ok, Bool-cases, Option-cases, inl, inr,
}
use hit_enter.Base.Lists.{elem}
use hit_enter.Base.Maps.{
  Map, Set, get, insert, remove, delete, get-insert, get-remove, get-map_values, elem-delete,
}
use hit_enter.Base.Words.{bit, zero_bits}
use hit_enter.Event.{PublicKey}
use hit_enter.Event.Edits
use hit_enter.Event.Edits.{Edit}
use hit_enter.Event.Rows.{RoleDef, default_role}
use hit_enter.Perm.{sanitized}
use hit_enter.Perm.Bits.{sanitized-Within}
use hit_enter.Group.{GroupState, role_perms, base, is_owner}
use hit_enter.Group.Powers.{
  base_of-le, le-base_of, base-owner, base-member, base-stranger, can_grant-Within, is_owner-eq,
}
use hit_enter.Group.Soundness.{IsSound, Keeps}
use hit_enter.Group.Edit.{edit_one, edit_all, edit_role, edit_role_delete}
use hit_enter.Group.Edit.Sound.{
  role-applied, role_delete-applied, name-Keeps, public-Keeps, newcomer_wait-Keeps, about-Keeps,
  channel-Keeps, channel_delete-Keeps, override-Keeps,
}

-- How a state within a batch stands to the one before it: a role grants what it did or what the
-- author held, and nobody holds a new role.
record Derived (before s : GroupState) (actor : PublicKey) : Type 0 where
  same_owner : s.owner ≡ before.owner
  bounded :
      (r : Text) (i : ℕ)
      → bit (role_perms s.roles r) i
        ≤ max (bit (role_perms before.roles r) i) (bit (base before actor) i)
  fewer :
      (p : PublicKey) (held : Set Text)
      → get p s.members ≡ some held
      → (old : Set Text) × (get p before.members ≡ some old)
        × ((r : Text) → elem r held ≡ true → elem r old ≡ true)

Derived-refl : (s : GroupState) (actor : PublicKey) → Derived s s actor
Derived-refl s actor = record {
  same_owner = refl;
  bounded = λ r i. omega arith;
  fewer = λ p held e. (held, e, λ r m. m);
}

Keeps-Derived :
    (before s t : GroupState) (actor : PublicKey)
    → Keeps s t
    → Derived before s actor
    → Derived before t actor
Keeps-Derived before s t actor (r, m, o, j) d = record {
  same_owner = o ∙ d.same_owner;
  bounded = λ q i. rw r (d.bounded q i);
  fewer = λ p held e. d.fewer p held (rw m at e);
}

role_perms-insert :
    (r q : Text) (d : RoleDef) (roles : Map Text RoleDef) (i b : ℕ)
    → bit d.perms i ≤ b
    → bit (role_perms roles q) i ≤ b
    → bit (role_perms (insert r d roles) q) i ≤ b
unfolding role_perms
role_perms-insert r q d roles i b h k = elim (Bool-cases (r == q)) [
  | inl e ↦ rw (get-insert r q d roles, role_perms, e) h
  | inr e ↦ rw (get-insert r q d roles, role_perms, e) k
]

role-Derived :
    (before s t : GroupState) (actor : PublicKey) (r : RoleDef)
    → edit_role before s actor r ≡ ok t
    → Derived before s actor
    → Derived before t actor
role-Derived before s t actor r e d =
    let (eq, _, can, _) = role-applied before s actor r e in
    rw eq (record {
      same_owner = d.same_owner;
      bounded = λ q i.
          role_perms-insert r.id q (record r { perms = sanitized r.perms }) s.roles i _
            (omega (
              arith,
              can_grant-Within before actor (sanitized r.perms) (sanitized-Within r.perms) can i,
            ))
            (d.bounded q i);
      fewer = d.fewer;
    })

role_perms-remove :
    (r q : Text) (roles : Map Text RoleDef) (i : ℕ)
    → bit (role_perms (remove r roles) q) i ≤ bit (role_perms roles q) i
unfolding role_perms
role_perms-remove r q roles i = elim (Bool-cases (r == q)) [
  | inl e ↦ rw (get-remove r q roles, role_perms, e) (omega (arith, zero_bits i))
  | inr e ↦ rw (get-remove r q roles, role_perms, e) (omega arith)
]

role_delete-Derived :
    (before s t : GroupState) (actor : PublicKey) (id : Text)
    → edit_role_delete before s actor id ≡ ok t
    → Derived before s actor
    → Derived before t actor
role_delete-Derived before s t actor id e d =
    let (r, m, o, j, _) = role_delete-applied before s actor id e in
    record {
      same_owner = o ∙ d.same_owner;
      bounded = λ q i. rw r (omega (arith, role_perms-remove id q s.roles i, d.bounded q i));
      fewer = λ p held found. elim (Option-cases (get p s.members)) [
        | inl absent ↦
            absurd
              (let gone = rw m at found in ground (arith, get-map_values (delete id) p s.members))
        | inr (held', old) ↦
            let (oldest, there, more) = d.fewer p held' old in
            let now = rw m at found in
            (
              oldest,
              there,
              λ q given.
                  more q (
                    ground (arith, get-map_values (delete id) p s.members, elem-delete id q held')),
            )
      ];
    }

edit_one-Derived :
    (before s t : GroupState) (actor : PublicKey) (e : Edit)
    → edit_one before s actor e ≡ ok t
    → Derived before s actor
    → Derived before t actor
unfolding edit_one
edit_one-Derived before s t actor (Edits.name n) e =
    Keeps-Derived before s t actor (name-Keeps before s actor n e)
edit_one-Derived before s t actor (Edits.public b) e =
    Keeps-Derived before s t actor (public-Keeps before s actor b e)
edit_one-Derived before s t actor (Edits.newcomer_wait w) e =
    Keeps-Derived before s t actor (newcomer_wait-Keeps before s actor w e)
edit_one-Derived before s t actor (Edits.about a) e =
    Keeps-Derived before s t actor (about-Keeps before s actor a e)
edit_one-Derived before s t actor (Edits.channel c) e =
    Keeps-Derived before s t actor (channel-Keeps before s actor c e)
edit_one-Derived before s t actor (Edits.channel_delete id) e =
    Keeps-Derived before s t actor (channel_delete-Keeps before s actor id e)
edit_one-Derived before s t actor (Edits.override o) e =
    Keeps-Derived before s t actor (override-Keeps before s actor o e)
edit_one-Derived before s t actor (Edits.role r) e = role-Derived before s t actor r e
edit_one-Derived before s t actor (Edits.role_delete id) e =
    role_delete-Derived before s t actor id e

edit_all-Derived :
    (before s t : GroupState) (actor : PublicKey) (es : List Edit)
    → edit_all before s actor es ≡ ok t
    → Derived before s actor
    → Derived before t actor
unfolding edit_all
edit_all-Derived before s t actor [] e d = let same : s ≡ t = ground arith in rw (← same) d
edit_all-Derived before s t actor (x ∷ es) e d =
    let (next, first, rest) =
      bind-ok (edit_one before s actor x) (λ next. edit_all before next actor es) e in
    edit_all-Derived before next t actor es rest (edit_one-Derived before s next actor x first d)

Derived-le :
    (before s : GroupState) (actor p : PublicKey) (i : ℕ)
    → IsSound before
    → Derived before s actor
    → bit (base s p) i ≤ max (bit (base before p) i) (bit (base before actor) i)
Derived-le before s actor p i h d = elim (Bool-cases (is_owner before p)) [
  | inl o ↦
      rw (base-owner before p o, base-owner s p (is_owner-eq before s p d.same_owner ∙ o))
        (omega arith)
  | inr o ↦
      let o' = is_owner-eq before s p d.same_owner ∙ o in
      elim (Option-cases (get p s.members)) [
        | inl absent ↦ rw (base-stranger s p o' absent) (omega (arith, zero_bits i))
        | inr (held, found) ↦
            let (old, there, more) = d.fewer p held found in
            rw (base-member s p held o' found, base-member before p old o there)
              (base_of-le s held i _
                (omega (
                  arith,
                  d.bounded default_role i,
                  le-base_of before old default_role i h
                      (ground (arith, text_key.beq_iff default_role default_role)),
                ))
                (λ r given. omega (
                  arith,
                  d.bounded r i,
                  le-base_of before old r i h (let kept = more r given in ground arith),
                )))
      ]
]

-- An applied `9002` leaves everybody's permissions within what they had and what its author had
-- before the first edit: one edit of it cannot grant what the next one needs.
pub base-edit_all-le :
    (s t : GroupState) (actor : PublicKey) (es : List Edit)
    → IsSound s
    → edit_all s s actor es ≡ ok t
    → (p : PublicKey) (i : ℕ) → bit (base t p) i ≤ max (bit (base s p) i) (bit (base s actor) i)
base-edit_all-le s t actor es h e p i =
    Derived-le s t actor p i h (edit_all-Derived s s t actor es e (Derived-refl s actor))
