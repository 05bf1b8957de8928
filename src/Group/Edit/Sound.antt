-- ===== src/Group/Edit/Sound.antt =====
-- Soundness across the edits of crates/hit-group/src/state.rs.
use hit_enter.Base.{
  ℕ, Bool, true, false, List, [], ◌∷◌, Text, ◌==◌, nat_key, text_key, ◌≡◌, arith, ok, bind-ok,
}
use hit_enter.Base.Maps.{insert, remove, delete, map_values}
use hit_enter.Event.{PublicKey}
use hit_enter.Event.Edits
use hit_enter.Event.Edits.{Edit}
use hit_enter.Event.Rows.{Channel, Override, RoleDef, default_role, owner_mark}
use hit_enter.Perm.{sanitized}
use hit_enter.Perm.Bits.{sanitized-Within}
use hit_enter.Group.{GroupState, can_grant}
use hit_enter.Group.Soundness.{IsSound, Keeps, Keeps-IsSound, define-Sound, undefine-Sound}
use hit_enter.Group.Edit.{
  edit_name, edit_public, edit_newcomer_wait, edit_about, edit_channel, edit_channel_delete,
  edit_override, place_role, edit_role, edit_role_delete, edit_one, edit_all,
}

module _ (before s : GroupState) (actor : PublicKey) {t : GroupState} where
  pub name-Keeps : (n : Text) → edit_name before s actor n ≡ ok t → Keeps s t
  unfolding edit_name
  name-Keeps n e = ground arith

  pub public-Keeps : (b : Bool) → edit_public before s actor b ≡ ok t → Keeps s t
  unfolding edit_public
  public-Keeps b e = ground arith

  pub newcomer_wait-Keeps : (w : ℕ) → edit_newcomer_wait before s actor w ≡ ok t → Keeps s t
  unfolding edit_newcomer_wait
  newcomer_wait-Keeps w e = ground arith

  pub about-Keeps : (a : Text) → edit_about before s actor a ≡ ok t → Keeps s t
  unfolding edit_about
  about-Keeps a e = ground arith

  pub channel-Keeps : (c : Channel) → edit_channel before s actor c ≡ ok t → Keeps s t
  unfolding edit_channel
  channel-Keeps c e = ground arith

  pub channel_delete-Keeps : (id : Text) → edit_channel_delete before s actor id ≡ ok t → Keeps s t
  unfolding edit_channel_delete
  channel_delete-Keeps id e = ground arith

  pub override-Keeps : (o : Override) → edit_override before s actor o ≡ ok t → Keeps s t
  unfolding edit_override
  override-Keeps o e = ground arith

  -- What an applied role edit has done, and what it was held to.
  pub role-applied :
      (r : RoleDef)
      → edit_role before s actor r ≡ ok t
      → let cut : RoleDef = record r { perms = sanitized r.perms } in
        (t ≡ record s { roles = insert r.id cut s.roles })
        × ((r.id == owner_mark) ≡ false)
        × (can_grant before actor cut.perms ≡ true)
        × (place_role before actor cut ≡ ok tt)
  unfolding edit_role
  role-applied r e = ground arith

  pub role_delete-applied :
      (id : Text)
      → edit_role_delete before s actor id ≡ ok t
      → (t.roles ≡ remove id s.roles)
        × (t.members ≡ map_values (delete id) s.members)
        × (t.owner ≡ s.owner)
        × (t.joined ≡ s.joined)
        × ((id == default_role) ≡ false)
  unfolding edit_role_delete
  role_delete-applied id e = ground arith

role-IsSound :
    (before s t : GroupState) (actor : PublicKey) (r : RoleDef)
    → edit_role before s actor r ≡ ok t
    → IsSound s
    → IsSound t
role-IsSound before s t actor r e h =
    let (eq, plain, _, _) = role-applied before s actor r e in
    rw eq (
      define-Sound h r.id (record r { perms = sanitized r.perms }) plain (sanitized-Within r.perms))

role_delete-IsSound :
    (before s t : GroupState) (actor : PublicKey) (id : Text)
    → edit_role_delete before s actor id ≡ ok t
    → IsSound s
    → IsSound t
role_delete-IsSound before s t actor id e h =
    let (r, m, o, j, plain) = role_delete-applied before s actor id e in
    rw (r, m, o, j) (undefine-Sound h id plain)

pub edit_one-IsSound :
    (before s t : GroupState) (actor : PublicKey) (e : Edit)
    → edit_one before s actor e ≡ ok t
    → IsSound s
    → IsSound t
unfolding edit_one
edit_one-IsSound before s t actor (Edits.name n) e =
    Keeps-IsSound s t (name-Keeps before s actor n e)
edit_one-IsSound before s t actor (Edits.public b) e =
    Keeps-IsSound s t (public-Keeps before s actor b e)
edit_one-IsSound before s t actor (Edits.newcomer_wait w) e =
    Keeps-IsSound s t (newcomer_wait-Keeps before s actor w e)
edit_one-IsSound before s t actor (Edits.about a) e =
    Keeps-IsSound s t (about-Keeps before s actor a e)
edit_one-IsSound before s t actor (Edits.channel c) e =
    Keeps-IsSound s t (channel-Keeps before s actor c e)
edit_one-IsSound before s t actor (Edits.channel_delete id) e =
    Keeps-IsSound s t (channel_delete-Keeps before s actor id e)
edit_one-IsSound before s t actor (Edits.override o) e =
    Keeps-IsSound s t (override-Keeps before s actor o e)
edit_one-IsSound before s t actor (Edits.role r) e = role-IsSound before s t actor r e
edit_one-IsSound before s t actor (Edits.role_delete id) e =
    role_delete-IsSound before s t actor id e

pub edit_all-IsSound :
    (before s t : GroupState) (actor : PublicKey) (es : List Edit)
    → edit_all before s actor es ≡ ok t
    → IsSound s
    → IsSound t
unfolding edit_all
edit_all-IsSound before s t actor [] e h = ground (arith, h)
edit_all-IsSound before s t actor (x ∷ es) e h =
    let (next, first, rest) = bind-ok (edit_one before s actor x) _ e in
    edit_all-IsSound before next t actor es rest (edit_one-IsSound before s next actor x first h)
