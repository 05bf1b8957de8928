-- ===== src/Group/Edit.antt =====
-- `GroupState::edit` of crates/hit-group/src/state.rs: one edit of a `9002`, checked against
-- `before`, the state that the whole batch is judged by, and applied to `s`.
pub mod Sound
pub mod Grants
use hit_enter.Base.{
  ℕ, ltb, leb, Bool, true, false, ◌&&◌, ◌||◌, not, Option, none, some, List, [], ◌∷◌, ◌++◌, Text,
  ◌==◌, nat_key, text_key, if◌then◌else◌, is_some, Result, ok, err, ◌>>=◌, ◌>>◌, ok_or, ensure, ℤ,
  pos, negsuc, ltb_ℤ,
}
use hit_enter.Base.Lists.{any, retain, length}
use hit_enter.Base.Maps.{get, insert, remove, delete, map_values}
use hit_enter.Base.Texts.{trim}
use hit_enter.Event.{PublicKey}
use hit_enter.Event.Kinds.{max_newcomer_wait, max_about, max_slowmode}
use hit_enter.Event.Rows.{Channel, Override, RoleDef, default_role, owner_mark}
use hit_enter.Event.Edits
use hit_enter.Event.Edits.{Edit}
use hit_enter.Perm.{
  Permissions, manage_group, manage_channels, manage_roles, channel_scoped, sanitized, intersection,
  beyond, is_empty,
}
use hit_enter.Group.{
  GroupState, Refusal, bad_edit, not_the_owner, no_such_channel, unknown_role, outranked,
  cannot_grant, max_label, is_owner, require, outranks_role, can_grant, effective,
}

abbrev pub Outcome : Type 0
Outcome = Result Refusal GroupState

-- The closure `label`.
unfoldable pub label : Text → Result Refusal (Unit {0})
label s = let n = length (trim s) in ensure (not (n == 0 || ltb max_label n)) bad_edit

unfoldable pub edit_name : GroupState → GroupState → PublicKey → Text → Outcome
unfolding label
edit_name before s actor n = do
  require before actor manage_group
  label n
  ok (record s { name = trim n })

unfoldable pub edit_public : GroupState → GroupState → PublicKey → Bool → Outcome
edit_public before s actor public = do
  ensure (is_owner before actor) not_the_owner
  ok (record s { public = public })

unfoldable pub edit_newcomer_wait : GroupState → GroupState → PublicKey → ℕ → Outcome
edit_newcomer_wait before s actor secs = do
  require before actor manage_channels
  ensure (leb secs max_newcomer_wait) bad_edit
  ok (record s { newcomer_wait = secs })

unfoldable pub edit_about : GroupState → GroupState → PublicKey → Text → Outcome
edit_about before s actor a = do
  require before actor manage_group
  ensure (leb (length (trim a)) max_about) bad_edit
  ok (record s { about = trim a })

-- Replaces the first channel of that id, or adds one.
unfoldable pub put_channel : Channel → List Channel → List Channel
put_channel c [] = c ∷ []
put_channel c (x ∷ xs) = if x.id == c.id then c ∷ xs else x ∷ put_channel c xs

unfoldable pub edit_channel : GroupState → GroupState → PublicKey → Channel → Outcome
unfolding label put_channel
edit_channel before s actor c = do
  require before actor manage_channels
  label c.id
  label c.name
  ensure (leb c.slowmode max_slowmode) bad_edit
  ok (record s { channels = put_channel c s.channels })

unfoldable pub edit_channel_delete : GroupState → GroupState → PublicKey → Text → Outcome
edit_channel_delete before s actor id = do
  require before actor manage_channels
  ensure (any (λ c. c.id == id) s.channels) no_such_channel
  ok (record s {
    channels = retain (λ c. not (c.id == id)) s.channels;
    overrides = retain (λ o. not (o.channel == id)) s.overrides;
  })

-- Only what a channel can change survives.
unfoldable pub scoped : Permissions → Permissions
unfolding sanitized intersection
scoped bits = intersection (sanitized bits) channel_scoped

-- An override that neither allows nor denies is none.
unfoldable pub put_override : Override → List Override → List Override
put_override o os =
    let others = retain (λ x. not (x.channel == o.channel && x.role == o.role)) os in
    if not (o.allow == 0) || not (o.deny == 0) then others ++ o ∷ [] else others

unfoldable pub edit_override : GroupState → GroupState → PublicKey → Override → Outcome
unfolding put_override
edit_override before s actor o = do
  require before actor manage_roles
  ensure (any (λ c. c.id == o.channel) s.channels) no_such_channel
  role ← ok_or (get o.role before.roles) unknown_role
  ensure (outranks_role before actor role) outranked
  let cut : Override = record o { allow = scoped o.allow; deny = scoped o.deny }
  ensure (is_empty (beyond cut.allow (effective before actor o.channel))) cannot_grant
  ok (record s { overrides = put_override cut s.overrides })

-- `position <= 0`.
abbrev not_positive : ℤ → Bool
not_positive (pos n) = n == 0
not_positive (negsuc n) = true

abbrev is_zero : ℤ → Bool
is_zero (pos n) = n == 0
is_zero (negsuc n) = false

-- Where the default role stands: only the owner changes it, and it stays at the bottom.
unfoldable pub place_default : GroupState → PublicKey → RoleDef → Result Refusal (Unit {0})
place_default before actor r = do
  ensure (is_owner before actor) not_the_owner
  ensure (is_zero r.position) bad_edit

-- Where any other role stands: below its editor, before and after.
unfoldable pub place_other : GroupState → PublicKey → RoleDef → Result Refusal (Unit {0})
place_other before actor r = do
  ensure (not (not_positive r.position)) bad_edit
  ensure (elim (get r.id before.roles) [ none ↦ true | some old ↦ outranks_role before actor old ])
      outranked
  ensure (outranks_role before actor r) outranked

unfoldable pub place_role : GroupState → PublicKey → RoleDef → Result Refusal (Unit {0})
place_role before actor r =
    if r.id == default_role then place_default before actor r else place_other before actor r

unfoldable pub edit_role : GroupState → GroupState → PublicKey → RoleDef → Outcome
unfolding label
edit_role before s actor r = do
  require before actor manage_roles
  label r.id
  label r.name
  ensure (not (r.id == owner_mark)) bad_edit
  let cut : RoleDef = record r { perms = sanitized r.perms }
  place_role before actor cut
  ensure (can_grant before actor cut.perms) cannot_grant
  ok (record s { roles = insert r.id cut s.roles })

unfoldable pub edit_role_delete : GroupState → GroupState → PublicKey → Text → Outcome
edit_role_delete before s actor id = do
  require before actor manage_roles
  ensure (not (id == default_role)) bad_edit
  role ← ok_or (get id before.roles) unknown_role
  ensure (outranks_role before actor role) outranked
  ok (record s {
    roles = remove id s.roles;
    members = map_values (delete id) s.members;
    overrides = retain (λ o. not (o.role == id)) s.overrides;
  })

unfoldable pub edit_one : GroupState → GroupState → PublicKey → Edit → Outcome
edit_one before s actor (Edits.name n) = edit_name before s actor n
edit_one before s actor (Edits.public b) = edit_public before s actor b
edit_one before s actor (Edits.newcomer_wait w) = edit_newcomer_wait before s actor w
edit_one before s actor (Edits.about a) = edit_about before s actor a
edit_one before s actor (Edits.channel c) = edit_channel before s actor c
edit_one before s actor (Edits.channel_delete id) = edit_channel_delete before s actor id
edit_one before s actor (Edits.override o) = edit_override before s actor o
edit_one before s actor (Edits.role r) = edit_role before s actor r
edit_one before s actor (Edits.role_delete id) = edit_role_delete before s actor id

-- The loop of `Action::Edit`: every edit, or none.
unfoldable pub edit_all : GroupState → GroupState → PublicKey → List Edit → Outcome
edit_all before s actor [] = ok s
edit_all before s actor (e ∷ es) = do
  next ← edit_one before s actor e
  edit_all before next actor es
