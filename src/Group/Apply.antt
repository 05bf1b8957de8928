-- ===== src/Group/Apply.antt =====
-- `GroupState::apply` of crates/hit-group/src/state.rs: one action on a state, its tests first
-- and then its changes at once. The state comes back with the outcome: a mute that is refused may have
-- ended a span of silence before.
pub mod Sound
pub mod Grants
pub mod Refused
pub mod Ranks
use hit_enter.Base.{
  ℕ, ltb, leb, Bool, true, false, ◌&&◌, ◌||◌, not, Option, none, some, List, [], ◌∷◌, ◌++◌, map,
  Text, ◌==◌, nat_key, text_key, if◌then◌else◌, is_some, Result, ok, err, ◌>>=◌, ◌>>◌, ok_or,
  ensure, is_ok,
}
use hit_enter.Base.Lists.{any, elem, retain}
use hit_enter.Base.Maps.{
  Set, get, contains_key, insert, remove, delete, add, same_elements, symmetric_difference,
}
use hit_enter.Event.{Event, Nostr, PublicKey, Timestamp}
use hit_enter.Event.Actions
use hit_enter.Event.Actions.{Action, parse_action}
use hit_enter.Event.Rows.{default_role, owner_mark}
use hit_enter.Perm.{
  Permissions, none_at_all, create_invite, manage_roles, ban_members, kick_members, mute_members,
  contains, union,
}
use hit_enter.Group.{
  GroupState, Silence, Invite, Refusal, not_a_member, already_a_member, malformed, the_owner,
  outranked, cannot_grant, unknown_role, no_such_invite, banned, not_banned, not_muted, covers,
  is_owner, is_member, base, outranks, outranks_role, can_grant, require, require_member,
}
use hit_enter.Group.Edit.{Outcome, edit_all}

unfoldable pub silence : GroupState → PublicKey → Timestamp → Option Timestamp → Bool → GroupState
silence s who from until mute = record s {
  silences = s.silences ++ record { who = who; from = from; until = until; mute = mute } ∷ [];
}

-- `who` is a member again from `at`: their open removal span ends.
unfoldable pub end_removal : PublicKey → Timestamp → Silence → Silence
end_removal who at x =
    if x.who == who && not x.mute && not (is_some x.until) then record x { until = some at } else x

unfoldable pub let_back_in : GroupState → PublicKey → Timestamp → GroupState
let_back_in s who at = record s { silences = map (end_removal who at) s.silences }

abbrev pub or_empty : Option (Set Text) → Set Text
or_empty none = []
or_empty (some held) = held

-- The loop over the roles that are given or taken: the permissions that are given.
unfoldable pub granted :
    GroupState → PublicKey → Set Text → List Text → Permissions → Result Refusal Permissions
granted s actor wanted [] granting = ok granting
granted s actor wanted (r ∷ rs) granting = do
  role ← ok_or (get r s.roles) unknown_role
  ensure (outranks_role s actor role) outranked
  granted s actor wanted rs (if elem r wanted then union granting role.perms else granting)

-- The checks of a `9000` that changes the target's roles.
unfoldable pub check_roles :
    GroupState → PublicKey → PublicKey → Option (Set Text) → Set Text → Result Refusal (Unit {0})
check_roles s actor target current wanted = do
  require s actor manage_roles
  ensure (not (is_some current) || outranks s actor target) outranked
  granting ← granted s actor wanted (symmetric_difference wanted (or_empty current)) none_at_all
  ensure (can_grant s actor granting) cannot_grant

unfoldable pub check_change :
    GroupState → PublicKey → PublicKey → Option (Set Text) → Set Text → Result Refusal (Unit {0})
check_change s actor target current wanted =
    if same_elements wanted (or_empty current)
    then ok tt
    else check_roles s actor target current wanted

-- The checks of a `9000` that brings somebody in.
unfoldable pub check_newcomer :
    GroupState → PublicKey → PublicKey → Option (Set Text) → Result Refusal (Unit {0})
check_newcomer s actor target (some held) = ok tt
check_newcomer s actor target none = do
  ensure (not (elem target s.bans)) banned
  require s actor create_invite

unfoldable pub put : GroupState → PublicKey → Timestamp → PublicKey → Set Text → Outcome
put s actor at target roles = do
  require_member s actor
  ensure (not (is_owner s target)) the_owner
  let wanted = delete default_role roles
  ensure (not (any (λ r. r == owner_mark || not (contains_key r s.roles)) wanted)) unknown_role
  let current = get target s.members
  check_newcomer s actor target current
  check_change s actor target current wanted
  let back = if is_some current then s else let_back_in s target at
  ok (record back { members = insert target wanted back.members })

-- What leaves with a member.
unfoldable pub drop_member : GroupState → PublicKey → GroupState
drop_member s p = record s {
  members = remove p s.members;
  mutes = remove p s.mutes;
  joined = remove p s.joined;
}

unfoldable pub ban : GroupState → PublicKey → GroupState
ban s p = record s { bans = add p s.bans }

unfoldable pub remove_member : GroupState → PublicKey → Timestamp → PublicKey → Bool → Outcome
remove_member s actor at target with_ban = do
  require_member s actor
  ensure (not (is_owner s target)) the_owner
  let member = is_member s target
  ensure (member || with_ban) not_a_member
  require s actor (if with_ban then ban_members else kick_members)
  ensure (outranks s actor target) outranked
  let gone = if member then drop_member s target else s
  let quiet = if member || with_ban then silence gone target at none false else gone
  ok (if with_ban then ban quiet target else quiet)

unfoldable pub unban : GroupState → PublicKey → PublicKey → Outcome
unban s actor target = do
  require_member s actor
  require s actor ban_members
  ensure (elem target s.bans) not_banned
  ok (record s { bans = delete target s.bans })

-- Ends the mutes of `who` that cover `at`.
unfoldable pub end_mute : PublicKey → Timestamp → Silence → Silence
unfolding covers
end_mute who at x =
    if x.who == who && x.mute && covers x at then record x { until = some at } else x

unfoldable pub check_mute : GroupState → PublicKey → PublicKey → Result Refusal (Unit {0})
check_mute s actor target = do
  require_member s actor
  ensure (not (is_owner s target)) the_owner
  ensure (is_member s target) not_a_member
  require s actor mute_members
  ensure (outranks s actor target) outranked

-- The `match` on the time, after the open spans are ended.
unfoldable pub set_mute : GroupState → Timestamp → PublicKey → Option Timestamp → Outcome
unfolding silence
set_mute s at target (some u) =
    if ltb at u
    then ok (silence (record s { mutes = insert target u s.mutes }) target at (some u) true)
    else err malformed
set_mute s at target none =
    if contains_key target s.mutes
    then ok (record s { mutes = remove target s.mutes })
    else err not_muted

abbrev pub Step : Type 0
Step = GroupState × Result Refusal (Unit {0})

-- An action done whole or not at all.
abbrev pub settle : GroupState → Outcome → Step
settle s (ok t) = (t, ok tt)
settle s (err e) = (s, err e)

unfoldable pub mute : GroupState → PublicKey → Timestamp → PublicKey → Option Timestamp → Step
unfolding end_mute
mute s actor at target until = elim (check_mute s actor target) [
  | err e ↦ (s, err e)
  | ok _ ↦
      let ended = record s { silences = map (end_mute target at) s.silences } in
      settle ended (set_mute ended at target until)
]

-- Does an invite let somebody in at `at`?
unfoldable pub honours : GroupState → Timestamp → Invite → Bool
honours s at i =
    leb i.created_at at
    && elim i.expires [ none ↦ true | some e ↦ leb at e ]
    && contains (base s i.author) create_invite

unfoldable pub honoured : GroupState → Timestamp → Option Text → Bool
honoured s at none = s.public
honoured s at (some code) = elim (get code s.invites) [
  | none ↦ false
  | some is ↦ any (honours s at) is
]

unfoldable pub join : GroupState → PublicKey → Timestamp → Option Text → Outcome
join s actor at code = do
  ensure (not (is_member s actor)) already_a_member
  ensure (honoured s at code) no_such_invite
  ensure (not (elem actor s.bans)) banned
  let back = let_back_in s actor at
  ok (record back { members = insert actor [] back.members; joined = insert actor at back.joined })

unfoldable pub leave : GroupState → PublicKey → Timestamp → Outcome
leave s actor at = do
  ensure (not (is_owner s actor)) the_owner
  ensure (is_member s actor) not_a_member
  ok (silence (drop_member s actor) actor at none false)

-- The `match` on the action.
unfoldable pub perform : GroupState → PublicKey → Timestamp → Action → Step
perform s actor at (Actions.put target roles) = settle s (put s actor at target roles)
perform s actor at (Actions.remove target with_ban) =
    settle s (remove_member s actor at target with_ban)
perform s actor at (Actions.unban target) = settle s (unban s actor target)
perform s actor at (Actions.mute target until) = mute s actor at target until
perform s actor at (Actions.edit edits) =
    settle s (require_member s actor >> edit_all s s actor edits)
perform s actor at (Actions.join code) = settle s (join s actor at code)
perform s actor at Actions.leave = settle s (leave s actor at)
perform s actor at (Actions.invite code expires) = (s, err malformed)
