-- ===== src/Group/Read.antt =====
-- What crates/hit-group/src/state.rs lets a reader see, and what it folds away.
pub mod Views
use hit_enter.Base.{
  ℕ, ◌+◌, ltb, Bool, true, false, ◌&&◌, ◌||◌, not, Option, none, some, List, [], ◌∷◌, map, Text,
  ◌==◌, nat_key, text_key, if◌then◌else◌, is_some,
}
use hit_enter.Base.Lists.{elem, every, retain, length}
use hit_enter.Base.Maps.{Map, Set, keys, values}
use hit_enter.Event.{Event, Nostr, PublicKey, Timestamp}
use hit_enter.Event.Actions
use hit_enter.Event.Actions.{parse_action}
use hit_enter.Event.Snapshots.{Snapshot}
use hit_enter.Event.Kinds
use hit_enter.Event.Rows.{Channel, Override, RoleDef}
use hit_enter.Event.Tags.{channel_of}
use hit_enter.Perm.{view_channel, contains}
use hit_enter.Group.{GroupState, is_member, effective, effective_of, channel_named}

-- An action that the snapshot has folded, or an invite that expired before it.
unfoldable pub is_folded : Nostr → GroupState → Event → Timestamp → Bool
is_folded n s ev now =
    if ev.kind == Kinds.create_invite
    then elim (parse_action n ev) [
      | some (_, Actions.invite code (some e)) ↦ ltb e now && ltb e s.cutoff
      | _ ↦ false
    ]
    else elem ev.kind Kinds.action_kinds && ltb ev.created_at s.cutoff

unfoldable pub open_to_readers : GroupState → Text → Bool
open_to_readers s channel =
    s.public
    && is_some (channel_named s channel)
    && contains (effective_of s [] channel) view_channel

-- Posted in a channel, or a presence in a voice channel.
unfoldable pub in_a_channel : Event → Bool
in_a_channel ev = elem ev.kind Kinds.channel_kinds || ev.kind == Kinds.voice_presence

-- The one action that a removed person may read: the one that removed them.
unfoldable pub removes : Nostr → Event → PublicKey → Bool
removes n ev reader = elim (parse_action n ev) [
  | some (_, Actions.remove target with_ban) ↦ target == reader
  | _ ↦ false
]

-- `is_some_and` on the channel.
abbrev in_channel : Option Text → (Text → Bool) → Bool
in_channel none f = false
in_channel (some c) f = f c

unfoldable pub may_read_outside : Nostr → GroupState → Event → Timestamp → Bool
may_read_outside n s ev now =
    if not s.public || is_folded n s ev now
    then false
    else if in_a_channel ev
    then in_channel (channel_of ev) (open_to_readers s)
    else true

unfoldable pub may_read_inside : Nostr → GroupState → PublicKey → Event → Timestamp → Bool
may_read_inside n s reader ev now =
    if is_folded n s ev now
    then false
    else if in_a_channel ev
    then in_channel (channel_of ev) (λ c. contains (effective s reader c) view_channel)
    else true

unfoldable pub may_read : Nostr → GroupState → PublicKey → Event → Timestamp → Bool
unfolding removes may_read_outside may_read_inside in_a_channel
may_read n s reader ev now =
    if not (is_member s reader)
    then if removes n ev reader then true else may_read_outside n s ev now
    else may_read_inside n s reader ev now

unfoldable pub everyone_can_view : GroupState → Text → Bool
everyone_can_view s channel =
    every (λ p. contains (effective s p channel) view_channel) (keys s.members)

unfoldable pub live_actions : GroupState → ℕ
live_actions s = length s.applied

unfoldable pub holders_of : GroupState → Text → List PublicKey
holders_of s role = keys (retain (λ e. elem role e.1) s.members)

unfoldable pub to_snapshot : GroupState → Snapshot
to_snapshot s = record {
  seq = s.seq + 1;
  name = s.name;
  public = s.public;
  newcomer_wait = s.newcomer_wait;
  about = s.about;
  channels = s.channels;
  overrides = s.overrides;
  roles = values s.roles;
  owner = s.owner;
  members = s.members;
  bans = s.bans;
  mutes = s.mutes;
}
