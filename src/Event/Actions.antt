-- ===== src/Event/Actions.antt =====
-- `Action` and `parse_action` of crates/hit-event/src/group.rs: what people sign.
pub mod Built
use hit_enter.Base.{
  ℕ, ltb, Bool, false, Option, none, some, List, [], ◌∷◌, Text, ◌==◌, nat_key, text_key, text_beq,
  if◌then◌else◌, and_then,
}
use hit_enter.Base.Lists.{any, find_map}
use hit_enter.Base.Maps.{Set, from_list}
use hit_enter.Base.Texts.{codes, parse_u64}
use hit_enter.Event.{Event, Nostr, PublicKey, Timestamp}
use hit_enter.Event.Kinds
use hit_enter.Event.Tags.{first_value, group_of}
use hit_enter.Event.Edits
use hit_enter.Event.Edits.{Edit}

pub data Action : Type 0 where
  -- Put `target` in the group with exactly `roles` beyond the default.
  put : PublicKey → Set Text → Action
  -- Remove `target`; with the flag, also keep them out.
  remove : PublicKey → Bool → Action
  unban : PublicKey → Action
  -- Mute `target` until a time, or lift a mute.
  mute : PublicKey → Option Timestamp → Action
  edit : List Edit → Action
  invite : Text → Option Timestamp → Action
  join : Option Text → Action
  leave : Action

target_of : Nostr → Event → Option PublicKey
unfolding first_value
target_of n ev = and_then (first_value ev (codes "p")) n.public_key

-- The roles of a row `["p", target, role..]`.
roles_row : List Text → Option (Set Text)
unfolding text_beq from_list
roles_row (m ∷ target ∷ rest) = if m == codes "p" then some (from_list rest) else none
roles_row _ = none

or_empty : Option (Set Text) → Set Text
or_empty none = []
or_empty (some s) = s

begins_with : Text → List Text → Bool
unfolding text_beq
begins_with f [] = false
begins_with f (m ∷ rest) = m == f

-- Does a tag begin with this word?
flag : Event → Text → Bool
unfolding begins_with
flag ev f = any (begins_with f) ev.tags

-- The time of a row `["p", target, until]`.
until_row : List Text → Option ℕ
unfolding text_beq parse_u64
until_row (m ∷ target ∷ until ∷ rest) = if m == codes "p" then parse_u64 until else none
until_row _ = none

-- An `expiration` that is not a number is malformed; an absent one is none.
expires_of : Option Text → Option (Option Timestamp)
unfolding parse_u64
expires_of none = some none
expires_of (some t) = and_then (parse_u64 t) (λ u. some (some u))

some_edits : List Edit → Option Action
some_edits [] = none
some_edits (e ∷ es) = some (edit (e ∷ es))

parse_put : Nostr → Event → Option Action
unfolding target_of roles_row or_empty
parse_put n ev =
    and_then (target_of n ev) λ target. some (put target (or_empty (find_map roles_row ev.tags)))

parse_remove : Nostr → Event → Option Action
unfolding target_of flag
parse_remove n ev =
    if flag ev (codes "unban")
    then and_then (target_of n ev) (λ t. some (unban t))
    else and_then (target_of n ev) (λ t. some (remove t (flag ev (codes "ban"))))

parse_mute : Nostr → Event → Option Action
unfolding target_of until_row
parse_mute n ev =
    and_then (find_map until_row ev.tags) λ until.
      and_then (target_of n ev) λ t. some (mute t (if ltb 0 until then some until else none))

parse_invite : Event → Option Action
unfolding first_value expires_of
parse_invite ev =
    and_then (first_value ev (codes "code"))
      λ code. and_then (expires_of (first_value ev (codes "expiration"))) λ e. some (invite code e)

-- The chain on the kind, without the group.
action_of : Nostr → Event → Option Action
unfolding parse_put parse_remove parse_mute parse_invite some_edits first_value Edits.parse_all
action_of n ev =
    if ev.kind == Kinds.put_user
    then parse_put n ev
    else if ev.kind == Kinds.remove_user
    then parse_remove n ev
    else if ev.kind == Kinds.mute_user
    then parse_mute n ev
    else if ev.kind == Kinds.edit_metadata
    then and_then (Edits.parse_all ev.tags) some_edits
    else if ev.kind == Kinds.create_invite
    then parse_invite ev
    else if ev.kind == Kinds.join
    then some (join (first_value ev (codes "code")))
    else if ev.kind == Kinds.leave
    then some leave
    else none

unfoldable pub parse_action : Nostr → Event → Option (PublicKey × Action)
unfolding group_of action_of
parse_action n ev = and_then (group_of n ev) λ g. and_then (action_of n ev) λ a. some (g, a)
