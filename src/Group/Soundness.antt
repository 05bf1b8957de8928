-- ===== src/Group/Soundness.antt =====
-- What holds of the roles, members, owner and newcomers of a group between two actions, for
-- crates/hit-group/src/state.rs; and that each kind of change to them keeps it.
use hit_enter.Base.{
  true, false, Option, none, some, Text, ◌==◌, nat_key, text_key, ◌≡◌, arith, Option-cases, ◌⊎◌,
  inl, inr, subst,
}
use hit_enter.Base.Lists.{elem}
use hit_enter.Base.Maps.{
  Map, Set, get, contains_key, insert, remove, delete, map_values, get-insert, get-remove,
  get-map_values, elem-delete,
}
use hit_enter.Event.{PublicKey, Timestamp}
use hit_enter.Event.Rows.{RoleDef, default_role, owner_mark}
use hit_enter.Perm.{all}
use hit_enter.Perm.Bits.{Within}
use hit_enter.Group.{GroupState, names_key}

-- The default role is defined and the owner's mark is not; roles grant defined bits only; members
-- hold defined roles, beside the default one; the owner is a member, and so is every newcomer.
pub record Sound (roles : Map Text RoleDef) (members : Map PublicKey (Set Text))
    (owner : Option PublicKey) (joined : Map PublicKey Timestamp) : Type 0 where
  pub default_defined : contains_key default_role roles ≡ true
  pub mark_undefined : get owner_mark roles ≡ none
  pub perms_defined : (r : Text) (d : RoleDef) → get r roles ≡ some d → Within d.perms all
  pub held_defined :
      (p : PublicKey) (held : Set Text) (r : Text)
      → get p members ≡ some held
      → elem r held ≡ true
      → (contains_key r roles ≡ true) × ((r == default_role) ≡ false)
  pub owner_seated : (o : PublicKey) → owner ≡ some o → contains_key o members ≡ true
  pub newcomers_seated :
      (p : PublicKey) → contains_key p joined ≡ true → contains_key p members ≡ true

get-insert_cases :
    (r q : Text) (d e : RoleDef) (roles : Map Text RoleDef)
    → get q (insert r d roles) ≡ some e
    → (d ≡ e) ⊎ (get q roles ≡ some e)
get-insert_cases r q d e roles h = ground (arith, get-insert r q d roles)

abbrev pub IsSound : GroupState → Type 0
IsSound s = Sound s.roles s.members s.owner s.joined

module _ {roles : Map Text RoleDef} {members : Map PublicKey (Set Text)} {owner : Option PublicKey}
    {joined : Map PublicKey Timestamp} (h : Sound roles members owner joined) where
  -- A member is seated, or their roles change.
  pub seat-Sound :
      (p : PublicKey) (held : Set Text)
      → ((r : Text)
          → elem r held ≡ true
          → (contains_key r roles ≡ true) × ((r == default_role) ≡ false))
      → Sound roles (insert p held members) owner joined
  unfolding contains_key
  seat-Sound p held known = record {
    default_defined = h.default_defined;
    mark_undefined = h.mark_undefined;
    perms_defined = h.perms_defined;
    held_defined = λ q other r e m.
        ground (arith, get-insert p q held members, known r, h.held_defined q other r);
    owner_seated = λ o e. ground (arith, get-insert p o held members, h.owner_seated o e);
    newcomers_seated = λ q e. ground (arith, get-insert p q held members, h.newcomers_seated q e);
  }

  -- A seated member is noted as a newcomer.
  pub note-Sound :
      (p : PublicKey) (at : Timestamp)
      → contains_key p members ≡ true
      → Sound roles members owner (insert p at joined)
  unfolding contains_key
  note-Sound p at seated = record {
    default_defined = h.default_defined;
    mark_undefined = h.mark_undefined;
    perms_defined = h.perms_defined;
    held_defined = h.held_defined;
    owner_seated = h.owner_seated;
    newcomers_seated =
        λ q e. ground (arith, nat_key.beq_iff p q, get-insert p q at joined, h.newcomers_seated q);
  }

  -- A member who is not the owner goes.
  pub drop-Sound :
      (p : PublicKey)
      → names_key owner p ≡ false
      → Sound roles (remove p members) owner (remove p joined)
  unfolding contains_key names_key
  drop-Sound p other = record {
    default_defined = h.default_defined;
    mark_undefined = h.mark_undefined;
    perms_defined = h.perms_defined;
    held_defined = λ q held r e m. ground (arith, get-remove p q members, h.held_defined q held r);
    owner_seated =
        λ o e. ground (arith, nat_key.beq_iff p o, get-remove p o members, h.owner_seated o e);
    newcomers_seated =
        λ q e. ground (arith, get-remove p q members, get-remove p q joined, h.newcomers_seated q);
  }

  -- A role is defined, or defined anew.
  pub define-Sound :
      (r : Text) (d : RoleDef)
      → (r == owner_mark) ≡ false
      → Within d.perms all
      → Sound (insert r d roles) members owner joined
  unfolding contains_key
  define-Sound r d plain within = record {
    default_defined = ground (arith, get-insert r default_role d roles, h.default_defined);
    mark_undefined = ground (arith, get-insert r owner_mark d roles, h.mark_undefined);
    perms_defined = λ q e eq. elim (get-insert_cases r q d e roles eq) [
      | inl new ↦ subst (λ x. Within (RoleDef.perms x) all) new within
      | inr old ↦ h.perms_defined q e old
    ];
    held_defined =
        λ p held q e m. ground (arith, get-insert r q d roles, h.held_defined p held q e m);
    owner_seated = h.owner_seated;
    newcomers_seated = h.newcomers_seated;
  }

  -- A role other than the default one goes, and nobody holds it any more.
  pub undefine-Sound :
      (r : Text)
      → (r == default_role) ≡ false
      → Sound (remove r roles) (map_values (delete r) members) owner joined
  unfolding contains_key
  undefine-Sound r plain = record {
    default_defined = ground (arith, get-remove r default_role roles, h.default_defined);
    mark_undefined = ground (arith, get-remove r owner_mark roles, h.mark_undefined);
    perms_defined = λ q e eq. h.perms_defined q e (ground (arith, get-remove r q roles));
    held_defined = λ p held q e m. elim (Option-cases (get p members)) [
      | inl absent ↦ absurd (ground (arith, get-map_values (delete r) p members))
      | inr (held', old) ↦ ground (
        arith,
        get-map_values (delete r) p members,
        elem-delete r q held',
        h.held_defined p held' q old,
        get-remove r q roles,
        text_key.beq_iff q r,
        text_key.beq_iff r q,
      )
    ];
    owner_seated = λ o e. ground (arith, get-map_values (delete r) o members, h.owner_seated o e);
    newcomers_seated =
        λ p e. ground (arith, get-map_values (delete r) p members, h.newcomers_seated p e);
  }

-- What soundness is about is the same in both.
abbrev pub Keeps : GroupState → GroupState → Type 0
Keeps s t =
    (t.roles ≡ s.roles) × (t.members ≡ s.members) × (t.owner ≡ s.owner) × (t.joined ≡ s.joined)

pub Keeps-IsSound : (s t : GroupState) → Keeps s t → IsSound s → IsSound t
Keeps-IsSound s t (r, m, o, j) h = rw (r, m, o, j) h
