-- ===== src/Tests/Node.antt =====
-- What a node that carries one club stores, shows and gossips, for crates/hit-group/src/lib.rs.
use hit_enter.Base.{ℕ, ◌+◌, ◌≤◌, true, false, some, [], ◌∷◌, ◌≡◌, refl, ok, ◌==◌, nat_key}
use hit_enter.Base.Lists.{elem}
use hit_enter.Base.Maps.{get}
use hit_enter.Event.{Event}
use hit_enter.Event.Kinds
use hit_enter.Event.Attachments.{attachments_of}
use hit_enter.Event.Tags.{group_of, channel_of}
use hit_enter.Perm.{contains, sanitized, union, without, intersection}
use hit_enter.Group.{
  GroupState, names_key, is_owner, is_member, role_perms, base_of, applies_in, allowed, denied,
  effective_of, effective, require_member, channel_named, posts_from, silence_at,
}
use hit_enter.Group.Judge.{judge_message, judge_in_channel, judge_silence, judge_wait}
use hit_enter.Group.Read.{is_folded, in_a_channel, everyone_can_view}
use hit_enter.Groups
use hit_enter.Groups.{
  Groups, is_personal, judge_group, judge_with, judge, store, fold_with, state_of, carry,
  is_carried, set_state, drop_group, gossip_group, max_clock_skew,
}
use hit_enter.Groups.Guards.{judge_chat, judge_action}
use hit_enter.Groups.Gossip.{gossip_group-may_read}
use hit_enter.Tests.Samples.{demo, event, h, club, hello, hello_placed}

abbrev node : Groups
node = record { me = 1; inboxes = []; carried = (9, some club) ∷ [] }

hello_stored : judge demo node hello 300 ≡ ok store
unfolding judge is_personal judge_group group_of judge_with judge_message attachments_of
    judge_in_channel judge_silence judge_wait silence_at posts_from applies_in allowed denied get
    channel_of channel_named require_member is_member contains effective is_owner names_key
    effective_of sanitized union without base_of role_perms intersection
hello_stored = refl

judge_chat_example :
    (store ≡ store)
    × (hello.created_at ≤ 300 + max_clock_skew)
    × ((group : ℕ) × (s : GroupState) × (group_of demo hello ≡ some group)
        × (state_of node group ≡ some s)
        × (judge_message s hello ≡ ok tt))
judge_chat_example = judge_chat demo node hello 300 refl hello_stored

abbrev knock : Event
knock = event 20 5 300 Kinds.join (h ∷ [])

knock_folded : judge demo node knock 300 ≡ ok (fold_with 9)
unfolding judge is_personal judge_group group_of get judge_with is_folded
knock_folded = refl

judge_action_example :
    (elem knock.kind Kinds.action_kinds ≡ true)
    × ((knock.kind == Kinds.create_invite) ≡ false)
    × (knock.created_at ≤ 300 + max_clock_skew)
    × (group_of demo knock ≡ some 9)
    × ((s : GroupState) × (state_of node 9 ≡ some s) × (s.cutoff ≤ knock.created_at))
judge_action_example = judge_action demo node knock 300 knock_folded

hello_gossiped :
    (gossip_group demo node hello ≡ some 9)
    × (state_of node 9 ≡ some club)
    × (is_member club 4 ≡ true)
unfolding gossip_group group_of state_of everyone_can_view applies_in allowed denied get
    in_a_channel channel_of is_member contains effective is_owner names_key effective_of sanitized
    union without base_of role_perms intersection
hello_gossiped = (refl, refl, refl)

gossip_group-may_read_example : Groups.may_read demo node 4 hello 300 ≡ true
gossip_group-may_read_example =
    gossip_group-may_read demo node hello 300 9 4 club hello_gossiped.0 hello_gossiped.1
      hello_placed hello_gossiped.2
