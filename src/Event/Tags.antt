-- ===== src/Event/Tags.antt =====
-- What an event's tags say of its group, channel, targets and number: `group_of`, `channel_of`,
-- `targets_of`, `seq_of` and `first_value` of crates/hit-event/src/group.rs.
use hit_enter.Base.{
  ℕ, ◌&&◌, not, Option, none, some, List, [], ◌∷◌, Text, ◌==◌, nat_key, text_key, text_beq,
  if◌then◌else◌, and_then,
}
use hit_enter.Base.Lists.{elem, find_map, filter_map}
use hit_enter.Base.Texts.{codes, parse_u64}
use hit_enter.Event.{Event, Nostr, PublicKey, EventId}
use hit_enter.Event.Kinds.{state_kinds, channel_kinds, voice_presence, is_group_kind}

-- The value of a row `[name, value, ..]`.
unfoldable pub value_of : Text → List Text → Option Text
unfolding text_beq
value_of name [] = none
value_of name (m ∷ []) = none
value_of name (m ∷ v ∷ rest) = if m == name then some v else none

unfoldable pub first_value : Event → Text → Option Text
unfolding value_of
first_value ev name = find_map (value_of name) ev.tags

unfoldable pub group_of : Nostr → Event → Option PublicKey
unfolding first_value is_group_kind
group_of n ev =
    if elem ev.kind state_kinds
    then and_then (n.identifier ev.tags) n.public_key
    else if not (is_group_kind ev.kind)
    then none
    else and_then (first_value ev (codes "h")) n.public_key

unfoldable pub channel_of : Event → Option Text
unfolding first_value
channel_of ev =
    if not (elem ev.kind channel_kinds) && not (ev.kind == voice_presence)
    then none
    else first_value ev (codes "channel")

unfoldable pub targets_of : Nostr → Event → List EventId
unfolding value_of
targets_of n ev = filter_map (λ t. and_then (value_of (codes "e") t) n.event_id) ev.tags

unfoldable pub seq_of : Event → Option ℕ
unfolding first_value parse_u64
seq_of ev = and_then (first_value ev (codes "seq")) parse_u64
