-- ===== src/Groups.antt =====
-- crates/hit-group/src/lib.rs: the groups a node carries, and what a node asks about an event or a
-- peer: may it be stored, may this person read it, which gossip carries it, in which order a batch
-- is applied.
pub mod Guards
pub mod Gossip
use hit_enter.Base.{
  ℕ, ◌+◌, ◌*◌, ltb, leb, Bool, true, false, ◌&&◌, ◌||◌, not, Option, none, some, List, [], ◌∷◌,
  ◌++◌, Text, ◌==◌, nat_key, if◌then◌else◌, and_then, is_some, Result, ok, err, ◌>>=◌, ◌>>◌, ok_or,
  ensure,
}
use hit_enter.Base.Lists.{elem, any, retain, filter_map, fold}
use hit_enter.Base.Maps.{Map, Set, get, contains_key, insert, remove, keys, values, from_list}
use hit_enter.Base.Texts.{byte_length}
use hit_enter.Event.{Event, Nostr, PublicKey, Timestamp}
use hit_enter.Event.Kinds
use hit_enter.Event.Kinds.{Kind}
use hit_enter.Event.States.{parse_state}
use hit_enter.Event.Tags.{group_of, channel_of}
use hit_enter.Group.{
  GroupState, Refusal, kind_not_carried, from_the_future, too_large, malformed, stale, not_ours,
  not_a_member, group_not_carried, not_signed_by_group, no_state, not_the_owner, folded, lacks,
  names_key, is_member, base,
}
use hit_enter.Group.Judge.{
  Verdict, judge_message, judge_voice, judge_removal, judge_reaction, judge_zap, judge_deletion,
}
use hit_enter.Group.Read
use hit_enter.Group.Read.{is_folded, everyone_can_view, in_a_channel}
use hit_enter.Perm.{create_invite, contains}

abbrev pub carried_kinds : List Kind
carried_kinds =
    Kinds.device_binding ∷ Kinds.profile ∷ Kinds.inbox_list ∷ Kinds.gift_wrap ∷ Kinds.voice_presence
    ∷ Kinds.chat_message ∷ Kinds.reaction ∷ Kinds.zap_carrier ∷ Kinds.deletion ∷ Kinds.presence
    ∷ Kinds.create_group ∷ Kinds.put_user ∷ Kinds.remove_user ∷ Kinds.edit_metadata
    ∷ Kinds.mute_user ∷ Kinds.create_invite ∷ Kinds.join ∷ Kinds.leave ∷ Kinds.delete_event
    ∷ Kinds.group_metadata ∷ Kinds.group_admins ∷ Kinds.group_members ∷ Kinds.group_roles ∷ []

abbrev pub max_clock_skew : ℕ
max_clock_skew = 600

abbrev pub presence_max_age : ℕ
presence_max_age = 120

abbrev pub max_wrap_bytes : ℕ
max_wrap_bytes = 64 * 1024

-- Of crates/hit-event/src/dm.rs.
abbrev pub inbox_keep_secs : ℕ
inbox_keep_secs = 7 * 24 * 60 * 60

pub data Judgement : Type 0 where
  store : Judgement
  fold_with : PublicKey → Judgement

pub record Groups : Type 0 where
  pub me : PublicKey
  pub inboxes : Map PublicKey (Set PublicKey)
  -- No state while a join is on its way.
  pub carried : Map PublicKey (Option GroupState)

unfoldable pub new : PublicKey → Groups
new me = record { me = me; inboxes = []; carried = [] }

abbrev no_anchors : Set PublicKey → Bool
no_anchors [] = true
no_anchors (a ∷ more) = false

unfoldable pub set_inboxes : Groups → PublicKey → Set PublicKey → Groups
set_inboxes g person anchors =
    if no_anchors anchors
    then record g { inboxes = remove person g.inboxes }
    else record g { inboxes = insert person anchors g.inboxes }

unfoldable pub served_by : Groups → PublicKey → List PublicKey
served_by g anchor = keys (retain (λ e. elem anchor e.1) g.inboxes)

-- May `reader` hold a DM wrapped to `recipient`?
unfoldable pub keeps_dms_for : Groups → PublicKey → PublicKey → Bool
keeps_dms_for g reader recipient =
    reader == recipient || elim (get recipient g.inboxes) [ none ↦ false | some a ↦ elem reader a ]

unfoldable pub carry : Groups → PublicKey → Groups
carry g group =
    if contains_key group g.carried then g else record g { carried = insert group none g.carried }

unfoldable pub drop_group : Groups → PublicKey → Groups
drop_group g group = record g { carried = remove group g.carried }

unfoldable pub set_state : Groups → PublicKey → Option GroupState → Groups
set_state g group state =
    if contains_key group g.carried then record g { carried = insert group state g.carried } else g

unfoldable pub is_carried : Groups → PublicKey → Bool
is_carried g group = contains_key group g.carried

unfoldable pub state_of : Groups → PublicKey → Option GroupState
state_of g group = and_then (get group g.carried) (λ s. s)

-- The states that there are.
abbrev states : Groups → List GroupState
states g = filter_map (λ s. s) (values g.carried)

unfoldable pub groups_of : Groups → PublicKey → List GroupState
groups_of g p = retain (λ s. is_member s p) (states g)

unfoldable pub public_profile : Groups → Event → Bool
public_profile g ev =
    ev.kind == Kinds.profile && any (λ s. s.public && is_member s ev.pubkey) (states g)

unfoldable pub share_a_group : Groups → PublicKey → PublicKey → Bool
unfolding groups_of
share_a_group g a b = any (λ s. is_member s b) (groups_of g a)

unfoldable pub peers : Groups → Set PublicKey
unfolding groups_of from_list
peers g =
    from_list
      (retain (λ p. not (p == g.me)) (fold (λ ps s. ps ++ keys s.members) [] (groups_of g g.me)))

unfoldable pub is_personal : Kind → Bool
is_personal k = k == Kinds.device_binding || k == Kinds.profile || k == Kinds.inbox_list

-- `recipient_of` of crates/hit-event/src/dm.rs: the one `p`.
unfoldable pub recipient_of : Nostr → Event → Option PublicKey
recipient_of n wrap = elim (n.public_keys wrap.tags) [ p ∷ [] ↦ some p | _ ↦ none ]

abbrev pub Judged : Type 0
Judged = Result Refusal Judgement

abbrev stored : Verdict → Judged
stored v = v >>= λ _. ok store

unfoldable pub judge_wrap : Nostr → Groups → Event → Timestamp → Judged
unfolding recipient_of
judge_wrap n g ev now = do
  ensure (leb (byte_length ev.content) max_wrap_bytes) too_large
  to ← ok_or (recipient_of n ev) malformed
  ensure (to == g.me || leb now (ev.created_at + inbox_keep_secs)) stale
  ensure (keeps_dms_for g g.me to) not_ours
  ok store

unfoldable pub judge_personal : Groups → Event → Judged
judge_personal g ev = do
  ensure (ev.pubkey == g.me || share_a_group g g.me ev.pubkey || public_profile g ev) not_a_member
  ok store

unfoldable pub judge_invite : Nostr → GroupState → Event → Timestamp → Judged
judge_invite n s ev now = do
  ensure (not (is_folded n s ev now)) folded
  ensure (contains (base s ev.pubkey) create_invite) (lacks create_invite)
  ok store

unfoldable pub judge_presence : GroupState → Event → Timestamp → Judged
judge_presence s ev now = do
  ensure (leb now (ev.created_at + presence_max_age)) stale
  ensure (is_member s ev.pubkey) not_a_member
  ok store

unfoldable pub judge_voice_presence : GroupState → Event → Timestamp → Judged
judge_voice_presence s ev now = do
  ensure (leb now (ev.created_at + presence_max_age)) stale
  stored (judge_voice s ev)

-- An event of a group that has a state.
unfoldable pub judge_with : Nostr → PublicKey → GroupState → Event → Timestamp → Judged
judge_with n group s ev now =
    if ev.kind == Kinds.create_group
    then (ensure (names_key s.named_owner ev.pubkey) not_the_owner >> ok store)
    else if ev.kind == Kinds.create_invite
    then judge_invite n s ev now
    else if elem ev.kind Kinds.action_kinds
    then (ensure (not (is_folded n s ev now)) folded >> ok (fold_with group))
    else if ev.kind == Kinds.presence
    then judge_presence s ev now
    else if ev.kind == Kinds.voice_presence
    then judge_voice_presence s ev now
    else if ev.kind == Kinds.reaction
    then stored (judge_reaction n s ev)
    else if ev.kind == Kinds.zap_carrier
    then stored (judge_zap n s ev)
    else if ev.kind == Kinds.deletion
    then stored (judge_deletion n s ev)
    else if ev.kind == Kinds.delete_event
    then stored (judge_removal n s ev)
    else stored (judge_message s ev)

unfoldable pub judge_group : Nostr → Groups → Event → Timestamp → Judged
judge_group n g ev now = do
  group ← ok_or (group_of n ev) malformed
  slot ← ok_or (get group g.carried) group_not_carried
  (if elem ev.kind Kinds.state_kinds
      then (ensure (is_some (parse_state n ev)) not_signed_by_group >> ok store)
      else (ok_or slot no_state >>= λ s. judge_with n group s ev now))

-- May an event be stored and forwarded, whoever delivered it?
unfoldable pub judge : Nostr → Groups → Event → Timestamp → Judged
judge n g ev now = do
  ensure (elem ev.kind carried_kinds) (kind_not_carried ev.kind)
  ensure (leb ev.created_at (now + max_clock_skew)) from_the_future
  (if ev.kind == Kinds.gift_wrap
      then judge_wrap n g ev now
      else if is_personal ev.kind
      then judge_personal g ev
      else judge_group n g ev now)

unfoldable pub may_read : Nostr → Groups → PublicKey → Event → Timestamp → Bool
may_read n g reader ev now =
    if ev.kind == Kinds.gift_wrap
    then elim (recipient_of n ev) [ none ↦ false | some to ↦ keeps_dms_for g reader to ]
    else if is_personal ev.kind
    then ev.pubkey == reader || share_a_group g reader ev.pubkey || public_profile g ev
    else elim (and_then (group_of n ev) (state_of g)) [
      | none ↦ false
      | some s ↦ Read.may_read n s reader ev now
    ]

-- Does the gossip of a group with this state carry the event?
unfoldable pub gossips : GroupState → Event → Bool
gossips s ev =
    if in_a_channel ev
    then elim (channel_of ev) [ none ↦ false | some c ↦ everyone_can_view s c ]
    else elem ev.kind Kinds.state_kinds
      || ev.kind == Kinds.presence
      || elem ev.kind Kinds.action_kinds
      || ev.kind == Kinds.create_group

unfoldable pub gossip_group : Nostr → Groups → Event → Option PublicKey
unfolding gossips
gossip_group n g ev =
    and_then (group_of n ev)
      λ group. and_then (state_of g group) λ s. if gossips s ev then some group else none

-- What authorises an event comes before it.
order_class : Kind → ℕ
unfolding is_personal
order_class k =
    if elem k Kinds.state_kinds
    then 0
    else if k == Kinds.create_group
    then 1
    else if elem k Kinds.action_kinds
    then 2
    else if is_personal k
    then 3
    else if k == Kinds.deletion || k == Kinds.delete_event
    then 5
    else 4

-- The order a batch of fetched events is applied in.
unfoldable pub apply_order : Event → ℕ × Timestamp
unfolding order_class
apply_order ev = (order_class ev.kind, ev.created_at)
