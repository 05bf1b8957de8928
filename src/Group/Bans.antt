-- ===== src/Group/Bans.antt =====
-- Who is kept out: the bans of crates/hit-group/src/state.rs, across one action.
pub mod Kept
pub mod Lifts
use hit_enter.Base.{
  true, false, Option, List, [], ◌∷◌, Text, ◌==◌, nat_key, text_key, ◌≡◌, refl, ◌⊎◌, ◌∙◌, ap,
  Result-cases, arith, ok, bind-ok, Bool-cases, inl, inr, ◌>>◌,
}
use hit_enter.Base.Lists.{elem}
use hit_enter.Base.Maps.{
  Set, contains_key, insert, remove, add, delete, map_values, get-insert, get-remove,
  get-map_values, elem-add, elem-delete,
}
use hit_enter.Event.{PublicKey, Timestamp}
use hit_enter.Event.Actions
use hit_enter.Event.Actions.{Action}
use hit_enter.Event.Rows.{default_role}
use hit_enter.Event.Edits
use hit_enter.Event.Edits.{Edit}
use hit_enter.Perm.{ban_members, contains}
use hit_enter.Group.{GroupState, is_member, base, require, require_member}
use hit_enter.Group.Edit.{
  edit_name, edit_public, edit_newcomer_wait, edit_about, edit_channel, edit_channel_delete,
  edit_override, edit_role, edit_role_delete, edit_one, edit_all,
}
use hit_enter.Group.Apply.Sound.{settled}
use hit_enter.Group.Apply.{
  silence, let_back_in, put, check_newcomer, drop_member, ban, remove_member, unban, mute, set_mute,
  settle, join, leave, perform,
}

-- Nobody who is banned is a member.
abbrev pub IsApart : GroupState → Type 0
IsApart s = (p : PublicKey) → elem p s.bans ≡ true → contains_key p s.members ≡ false

-- The bans are as they were, and who is a member now was one, or is not banned.
pub record Admits (s t : GroupState) : Type 0 where
  pub same_bans : t.bans ≡ s.bans
  admitted :
      (p : PublicKey)
      → contains_key p t.members ≡ true
      → (contains_key p s.members ≡ true) ⊎ (elem p s.bans ≡ false)

Admits-refl : (s : GroupState) → Admits s s
Admits-refl s = record { same_bans = refl; admitted = λ p m. inl m }

Admits-trans : (s t u : GroupState) → Admits s t → Admits t u → Admits s u
Admits-trans s t u h k = record {
  same_bans = k.same_bans ∙ h.same_bans;
  admitted = λ p m. elim (k.admitted p m) [
    | inl earlier ↦ h.admitted p earlier
    | inr free ↦ inr (rw (← h.same_bans) free)
  ];
}

pub Admits-IsApart : (s t : GroupState) → Admits s t → IsApart s → IsApart t
Admits-IsApart s t h apart p e =
    let banned : elem p s.bans ≡ true = rw (← h.same_bans) e in
    elim (Bool-cases (contains_key p t.members)) [
      | inl m ↦ elim (h.admitted p m) [
        | inl old ↦ absurd (ground (arith, apart p banned))
        | inr free ↦ absurd (ground arith)
      ]
      | inr out ↦ out
    ]

pub alike-Admits : (s t : GroupState) → (t.bans ≡ s.bans) × (t.members ≡ s.members) → Admits s t
alike-Admits s t (b, m) = record { same_bans = b; admitted = λ p h. inl (rw (← m) h) }

pub insert-Admits :
    (s t : GroupState) (q : PublicKey) (held : Set Text)
    → (t.bans ≡ s.bans)
      × (t.members ≡ insert q held s.members)
      × ((contains_key q s.members ≡ true) ⊎ (elem q s.bans ≡ false))
    → Admits s t
unfolding contains_key
insert-Admits s t q held (b, m, either) = record {
  same_bans = b;
  admitted = λ p h. elim (Bool-cases (q == p)) [
    | inl here ↦ let same : q ≡ p = (nat_key.beq_iff q p).0 here in rw (← same) either
    | inr there ↦ inl (ground (arith, get-insert q p held s.members))
  ];
}

pub remove-Admits :
    (s t : GroupState) (q : PublicKey)
    → (t.bans ≡ s.bans) × (t.members ≡ remove q s.members)
    → Admits s t
unfolding contains_key
remove-Admits s t q (b, m) = record {
  same_bans = b;
  admitted = λ p h. inl (ground (arith, get-remove q p s.members));
}

map-Admits :
    (s t : GroupState) (f : Set Text → Set Text)
    → (t.bans ≡ s.bans) × (t.members ≡ map_values f s.members)
    → Admits s t
unfolding contains_key
map-Admits s t f (b, m) = record {
  same_bans = b;
  admitted = λ p h. inl (ground (arith, get-map_values f p s.members));
}

module _ (before s : GroupState) (actor : PublicKey) {t : GroupState} where
  -- An edit but the deletion of a role leaves members and bans.
  edit_one-alike :
      (e : Edit)
      → edit_one before s actor e ≡ ok t
      → ((t.bans ≡ s.bans) × (t.members ≡ s.members))
        ⊎ ((id : Text) × ((t.bans ≡ s.bans) × (t.members ≡ map_values (delete id) s.members)))
  unfolding edit_one edit_name edit_public edit_newcomer_wait edit_about edit_channel
      edit_channel_delete edit_override edit_role edit_role_delete
  edit_one-alike (Edits.name n) e = inl (ground arith)
  edit_one-alike (Edits.public b) e = inl (ground arith)
  edit_one-alike (Edits.newcomer_wait w) e = inl (ground arith)
  edit_one-alike (Edits.about a) e = inl (ground arith)
  edit_one-alike (Edits.channel c) e = inl (ground arith)
  edit_one-alike (Edits.channel_delete id) e = inl (ground arith)
  edit_one-alike (Edits.override o) e = inl (ground arith)
  edit_one-alike (Edits.role r) e = inl (ground arith)
  edit_one-alike (Edits.role_delete id) e = inr (id, ground arith)

edit_one-Admits :
    (before s t : GroupState) (actor : PublicKey) (e : Edit)
    → edit_one before s actor e ≡ ok t
    → Admits s t
edit_one-Admits before s t actor e h = elim (edit_one-alike before s actor e h) [
  | inl same ↦ alike-Admits s t same
  | inr (id, same) ↦ map-Admits s t (delete id) same
]

pub edit_all-Admits :
    (before s t : GroupState) (actor : PublicKey) (es : List Edit)
    → edit_all before s actor es ≡ ok t
    → Admits s t
unfolding edit_all
edit_all-Admits before s t actor [] h =
    let same : s ≡ t = ground arith in rw (← same) (Admits-refl s)
edit_all-Admits before s t actor (e ∷ es) h =
    let (next, first, rest) =
      bind-ok (edit_one before s actor e) (λ u. edit_all before u actor es) h in
    Admits-trans s next t (edit_one-Admits before s next actor e first)
      (edit_all-Admits before next t actor es rest)

module _ (s : GroupState) (actor : PublicKey) (at : Timestamp) {t : GroupState} where
  pub put-seats :
      (target : PublicKey) (roles : Set Text)
      → put s actor at target roles ≡ ok t
      → (t.bans ≡ s.bans)
        × (t.members ≡ insert target (delete default_role roles) s.members)
        × ((contains_key target s.members ≡ true) ⊎ (elem target s.bans ≡ false))
  unfolding put let_back_in contains_key check_newcomer
  put-seats target roles e = ground arith

  pub join-seats :
      (code : Option Text)
      → join s actor at code ≡ ok t
      → (t.bans ≡ s.bans)
        × (t.members ≡ insert actor [] s.members)
        × ((contains_key actor s.members ≡ true) ⊎ (elem actor s.bans ≡ false))
  unfolding join let_back_in
  join-seats code e = ground arith

  pub leave-goes :
      leave s actor at ≡ ok t → (t.bans ≡ s.bans) × (t.members ≡ remove actor s.members)
  unfolding leave drop_member silence
  leave-goes e = ground arith

  pub kick-goes :
      (target : PublicKey)
      → remove_member s actor at target false ≡ ok t
      → (t.bans ≡ s.bans) × (t.members ≡ remove target s.members)
  unfolding remove_member drop_member silence is_member
  kick-goes target e = ground arith

  pub ban-goes :
      (target : PublicKey)
      → remove_member s actor at target true ≡ ok t
      → (t.bans ≡ add target s.bans)
        × ((t.members ≡ remove target s.members)
            ⊎ (t.members ≡ s.members) × (contains_key target s.members ≡ false))
  unfolding remove_member drop_member ban silence is_member
  ban-goes target e = ground arith

  pub unban-lifts :
      (target : PublicKey)
      → unban s actor target ≡ ok t
      → (t.bans ≡ delete target s.bans)
        × (t.members ≡ s.members)
        × (is_member s actor ≡ true)
        × (contains (base s actor) ban_members ≡ true)
  unfolding unban require require_member
  unban-lifts target e = ground arith

pub mute-alike :
    (s : GroupState) (actor : PublicKey) (at : Timestamp) (target : PublicKey)
    (until : Option Timestamp)
    → let t = (mute s actor at target until).0 in (t.bans ≡ s.bans) × (t.members ≡ s.members)
unfolding mute set_mute silence
mute-alike s actor at target until = ground arith
