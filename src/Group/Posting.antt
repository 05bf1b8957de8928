-- ===== src/Group/Posting.antt =====
-- Who may post what, and when: `judge_message` of crates/hit-group/src/state.rs.
pub mod Times
use mathlib.Core.List.{Memᴰ}
use mathlib.Core.List.Memᴰ.{head, tail}
use hit_enter.Base.{
  ℕ, ◌+◌, max, ltb, if◌then◌else◌, Option, ◌≤◌, Bool, true, false, none, some, List, [], ◌∷◌, Text,
  ◌<◌, ◌≢◌, ◌≡◌, is_ok, ◌⊎◌, nat_key, is_some,
}
use hit_enter.Base.Maps.{get}
use hit_enter.Base.Lists.{find}
use hit_enter.Event.{Event, PublicKey, Timestamp}
use hit_enter.Event.Attachments.{attachments_of}
use hit_enter.Event.Kinds
use hit_enter.Event.Kinds.{public_newcomer_floor}
use hit_enter.Event.Tags.{channel_of}
use hit_enter.Event.Rows.{Channel}
use hit_enter.Perm.{view_channel, send_messages, union, contains}
use hit_enter.Group.{
  GroupState, Silence, is_member, effective, channel_named, silence_at, posts_from,
  newcomer_wait_of, covers,
}
use hit_enter.Group.Posting.Times.{IsHeard, HasWaited}

-- What a message that passes has: a channel of the group, an author who is a member and may view
-- and post there, no silence at its time, no wait left, and attachments within the limits.
pub record MayPost (s : GroupState) (msg : Event) : Type 0 where
  pub channel : Channel
  pub listed : Memᴰ channel s.channels
  pub placed : channel_of msg ≡ some channel.id
  pub member : is_member s msg.pubkey ≡ true
  pub views : contains (effective s msg.pubkey channel.id) view_channel ≡ true
  pub sends : contains (effective s msg.pubkey channel.id) send_messages ≡ true
  pub heard : IsHeard s.silences msg.pubkey msg.created_at
  pub waited : HasWaited s msg.pubkey msg.created_at
  pub files : (msg.kind ≢ Kinds.chat_message) ⊎ (is_ok (attachments_of msg) ≡ true)

-- The guards of a message that passes.
record Passes (s : GroupState) (msg : Event) (id : Text) : Type 0 where
  placed : channel_of msg ≡ some id
  there : is_some (channel_named s id) ≡ true
  member : is_member s msg.pubkey ≡ true
  allowed : contains (effective s msg.pubkey id) (union view_channel send_messages) ≡ true
  heard : silence_at s msg.pubkey msg.created_at ≡ none
  waited : posts_from s msg.pubkey msg.created_at ≡ none
  files : (msg.kind ≢ Kinds.chat_message) ⊎ (is_ok (attachments_of msg) ≡ true)
