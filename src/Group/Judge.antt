-- ===== src/Group/Judge.antt =====
-- The judgements of crates/hit-group/src/state.rs: may an event of the group be stored and shown?
use hit_enter.Base.{
  ◌-◌, ◌^◌, min, ltb, Bool, true, false, ◌&&◌, ◌||◌, not, none, some, ◌==◌, nat_key, if◌then◌else◌,
  is_ok, Result, ok, err, ◌>>=◌, ◌>>◌, ok_or, ensure,
}
use hit_enter.Base.Lists.{length}
use hit_enter.Event.{Event, Nostr}
use hit_enter.Event.Attachments.{attachments_of}
use hit_enter.Event.Kinds
use hit_enter.Event.Rows
use hit_enter.Event.Rows.{ChannelKind}
use hit_enter.Event.Tags.{channel_of, targets_of}
use hit_enter.Event.Zaps
use hit_enter.Event.Zaps.{ZapError, Zap, carried}
use hit_enter.Perm.{Permissions, view_channel, send_messages, manage_messages, contains, union}
use hit_enter.Group.{
  GroupState, Refusal, malformed, no_such_channel, lacks, muted, not_a_member, newcomer, too_large,
  channel_named, require_member, effective, silence_at, posts_from,
}

abbrev pub Verdict : Type 0
Verdict = Result Refusal (Unit {0})

unfoldable pub judge_in_channel : GroupState → Event → Permissions → Verdict
judge_in_channel s ev needed = do
  channel ← ok_or (channel_of ev) malformed
  c ← ok_or (channel_named s channel) no_such_channel
  require_member s ev.pubkey
  ensure (contains (effective s ev.pubkey channel) needed) (lacks needed)

-- A message dated inside a silence of its author.
unfoldable pub judge_silence : GroupState → Event → Verdict
judge_silence s msg = elim (silence_at s msg.pubkey msg.created_at) [
  | none ↦ ok tt
  | some x ↦ err (if x.mute then muted else not_a_member)
]

-- A newcomer's message dated inside their wait; the seconds left are cut to a `u32`.
unfoldable pub judge_wait : GroupState → Event → Verdict
judge_wait s msg = elim (posts_from s msg.pubkey msg.created_at) [
  | none ↦ ok tt
  | some from ↦ err (newcomer (min (from - msg.created_at) (2 ^ 32 - 1)))
]

unfoldable pub judge_message : GroupState → Event → Verdict
unfolding union
judge_message s msg = do
  ensure (not (msg.kind == Kinds.chat_message && not (is_ok (attachments_of msg)))) malformed
  judge_in_channel s msg (union view_channel send_messages)
  judge_silence s msg
  judge_wait s msg

abbrev is_voice : ChannelKind → Bool
is_voice k = elim k [ Rows.voice ↦ true | Rows.text ↦ false ]

unfoldable pub judge_voice : GroupState → Event → Verdict
judge_voice s ev = do
  channel ← ok_or (channel_of ev) malformed
  c ← ok_or (channel_named s channel) no_such_channel
  ensure (is_voice c.kind) no_such_channel
  require_member s ev.pubkey
  ensure (contains (effective s ev.pubkey channel) view_channel) (lacks view_channel)

unfoldable pub judge_removal : Nostr → GroupState → Event → Verdict
unfolding union
judge_removal n s ev = do
  ensure (not (length (targets_of n ev) == 0)) malformed
  judge_in_channel s ev (union view_channel manage_messages)

unfoldable pub judge_reaction : Nostr → GroupState → Event → Verdict
judge_reaction n s ev = do
  let len = length ev.content
  ensure (not (not (length (targets_of n ev) == 1) || len == 0 || ltb Kinds.max_reaction len))
      malformed
  judge_message s ev

-- What an error of a carried receipt is to the group.
unfoldable pub zap_refusal : ZapError → Refusal
zap_refusal Zaps.too_large = too_large
zap_refusal Zaps.not_a_receipt = malformed
zap_refusal Zaps.bad_signature = malformed
zap_refusal Zaps.bad_request = malformed
zap_refusal Zaps.bad_invoice = malformed
zap_refusal Zaps.wrong_amount = malformed
zap_refusal Zaps.mismatch = malformed

unfoldable pub judge_zap : Nostr → GroupState → Event → Verdict
unfolding zap_refusal
judge_zap n s ev = elim (carried n ev) [
  | ok _ ↦ judge_in_channel s ev view_channel
  | err e ↦ err (zap_refusal e)
]

unfoldable pub judge_deletion : Nostr → GroupState → Event → Verdict
judge_deletion n s ev = do
  ensure (not (length (targets_of n ev) == 0)) malformed
  judge_in_channel s ev view_channel
