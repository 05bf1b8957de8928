-- ===== src/Group/Execute.antt =====
-- `GroupState::apply` of crates/hit-group/src/state.rs statement by statement: each test and each change
-- of `self` in the source's order, so that a refusal keeps the changes made before it.
pub mod Whole
pub mod Refused
use hit_enter.Base.{
  ltb, Bool, true, false, ◌||◌, not, Option, none, some, Text, ◌==◌, nat_key, text_key,
  if◌then◌else◌, is_some, Result, ok, err, ensure, map, List, [],
}
use hit_enter.Base.Lists.{any, elem}
use hit_enter.Base.Maps.{Set, get, contains_key, insert, remove, delete}
use hit_enter.Event.{Event, Nostr, PublicKey, Timestamp}
use hit_enter.Event.Actions
use hit_enter.Event.Actions.{Action, parse_action}
use hit_enter.Event.Edits.{Edit}
use hit_enter.Event.Rows.{default_role, owner_mark}
use hit_enter.Perm.{ban_members, kick_members}
use hit_enter.Group.{
  GroupState, Refusal, not_a_member, already_a_member, malformed, the_owner, outranked,
  unknown_role, no_such_invite, banned, not_banned, not_muted, is_owner, is_member, outranks,
  require, require_member,
}
use hit_enter.Group.Edit.{edit_all}
use hit_enter.Group.Apply.{
  Step, silence, let_back_in, check_newcomer, check_change, drop_member, ban, check_mute, end_mute,
  honoured,
}

-- Statements: they find the state, and leave a state and say whether the action is refused.
abbrev pub Act : Type 0
Act = GroupState → Step

abbrev pub continue : Step → Act → Step
continue (s, ok _) k = k s
continue (s, err e) k = (s, err e)

infixr 4 ◌▷◌
-- The statements after one whose refusal `?` returns.
abbrev pub ◌▷◌ : Act → Act → Act
(a ▷ b) s = continue (a s) b

abbrev pub test : (GroupState → Result Refusal (Unit {0})) → Act
test c s = (s, c s)

abbrev pub set : (GroupState → GroupState) → Act
set f s = (f s, ok tt)

-- A change under an `if`.
abbrev pub set_if : Bool → (GroupState → GroupState) → Act
set_if true f s = (f s, ok tt)
set_if false f s = (s, ok tt)

unfoldable pub run_put : PublicKey → Timestamp → PublicKey → Set Text → Act
run_put actor at target roles =
    test (λ s. require_member s actor)
    ▷ test (λ s. ensure (not (is_owner s target)) the_owner)
    ▷ λ s.
        let wanted = delete default_role roles in
        let current = get target s.members in
        (test (λ s.
              ensure (not (any (λ r. r == owner_mark || not (contains_key r s.roles)) wanted))
                unknown_role)
            ▷ test (λ s. check_newcomer s actor target current)
            ▷ test (λ s. check_change s actor target current wanted)
            ▷ set_if (not (is_some current)) (λ s. let_back_in s target at)
            ▷ set (λ s. record s { members = insert target wanted s.members }))
          s

unfoldable pub run_remove : PublicKey → Timestamp → PublicKey → Bool → Act
run_remove actor at target with_ban =
    test (λ s. require_member s actor)
    ▷ test (λ s. ensure (not (is_owner s target)) the_owner)
    ▷ λ s.
        let member = is_member s target in
        (test (λ s. ensure (member || with_ban) not_a_member)
            ▷ test (λ s. require s actor (if with_ban then ban_members else kick_members))
            ▷ test (λ s. ensure (outranks s actor target) outranked)
            ▷ set_if member (λ s. drop_member s target)
            ▷ set_if (member || with_ban) (λ s. silence s target at none false)
            ▷ set_if with_ban (λ s. ban s target))
          s

-- `bans.remove` takes the ban away and says whether there was one.
unfoldable pub run_unban : PublicKey → PublicKey → Act
run_unban actor target =
    test (λ s. require_member s actor) ▷ test (λ s. require s actor ban_members) ▷ λ s.
    (record s { bans = delete target s.bans }, ensure (elem target s.bans) not_banned)

-- The `match` on the time of a mute.
unfoldable pub run_until : Timestamp → PublicKey → Option Timestamp → Act
run_until at target (some u) =
    if ltb at u
    then set (λ s. record s { mutes = insert target u s.mutes })
      ▷ set (λ s. silence s target at (some u) true)
    else λ s. (s, err malformed)
run_until at target none = λ s.
    (record s { mutes = remove target s.mutes }, ensure (contains_key target s.mutes) not_muted)

unfoldable pub run_mute : PublicKey → Timestamp → PublicKey → Option Timestamp → Act
unfolding run_until
run_mute actor at target until =
    test (λ s. check_mute s actor target)
    ▷ set (λ s. record s { silences = map (end_mute target at) s.silences })
    ▷ run_until at target until

-- The edits are made on a copy, which takes the state's place when all are.
unfoldable pub run_edits : PublicKey → List Edit → Act
run_edits actor edits = test (λ s. require_member s actor) ▷ λ s. elim (edit_all s s actor edits) [
  | ok next ↦ (next, ok tt)
  | err e ↦ (s, err e)
]

unfoldable pub run_join : PublicKey → Timestamp → Option Text → Act
run_join actor at code =
    test (λ s. ensure (not (is_member s actor)) already_a_member)
    ▷ test (λ s. ensure (honoured s at code) no_such_invite)
    ▷ test (λ s. ensure (not (elem actor s.bans)) banned)
    ▷ set (λ s. let_back_in s actor at)
    ▷ set (λ s. record s { members = insert actor [] s.members })
    ▷ set (λ s. record s { joined = insert actor at s.joined })

-- `members.remove` says whether there was a member.
unfoldable pub run_leave : PublicKey → Timestamp → Act
run_leave actor at =
    test (λ s. ensure (not (is_owner s actor)) the_owner)
    ▷ (λ s.
        (record s { members = remove actor s.members }, ensure (is_member s actor) not_a_member))
    ▷ set (λ s. record s { mutes = remove actor s.mutes })
    ▷ set (λ s. record s { joined = remove actor s.joined })
    ▷ set (λ s. silence s actor at none false)

-- The `match` on the action.
unfoldable pub execute : PublicKey → Timestamp → Action → Act
unfolding run_put run_remove run_unban run_mute run_edits run_join run_leave
execute actor at (Actions.put target roles) = run_put actor at target roles
execute actor at (Actions.remove target with_ban) = run_remove actor at target with_ban
execute actor at (Actions.unban target) = run_unban actor target
execute actor at (Actions.mute target until) = run_mute actor at target until
execute actor at (Actions.edit edits) = run_edits actor edits
execute actor at (Actions.join code) = run_join actor at code
execute actor at Actions.leave = run_leave actor at
execute actor at (Actions.invite code expires) = λ s. (s, err malformed)

unfoldable pub apply : Nostr → GroupState → Event → Step
unfolding execute
apply n s ev = elim (parse_action n ev) [
  | none ↦ (s, err malformed)
  | some (_, action) ↦ execute ev.pubkey ev.created_at action s
]
