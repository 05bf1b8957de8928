-- ===== src/Event/Kinds.antt =====
-- The kinds of events: the constants of crates/hit-event/src/group.rs, and those of binding.rs,
-- dm.rs and zap.rs beside it that the rules of a group name.
use hit_enter.Base.{ℕ, ◌*◌, Bool, ◌||◌, List, [], ◌∷◌, ◌==◌, nat_key}
use hit_enter.Base.Lists.{elem}

abbrev pub Kind : Type 0
Kind = ℕ

abbrev pub chat_message : Kind
chat_message = 9

abbrev pub reaction : Kind
reaction = 7

abbrev pub deletion : Kind
deletion = 5

abbrev pub presence : Kind
presence = 20436

abbrev pub voice_presence : Kind
voice_presence = 20437

abbrev pub put_user : Kind
put_user = 9000

abbrev pub remove_user : Kind
remove_user = 9001

abbrev pub edit_metadata : Kind
edit_metadata = 9002

abbrev pub delete_event : Kind
delete_event = 9005

abbrev pub mute_user : Kind
mute_user = 9030

abbrev pub create_group : Kind
create_group = 9007

abbrev pub create_invite : Kind
create_invite = 9009

abbrev pub join : Kind
join = 9021

abbrev pub leave : Kind
leave = 9022

abbrev pub group_metadata : Kind
group_metadata = 39000

abbrev pub group_admins : Kind
group_admins = 39001

abbrev pub group_members : Kind
group_members = 39002

abbrev pub group_roles : Kind
group_roles = 39003

abbrev pub zap_carrier : Kind
zap_carrier = 9436

abbrev pub device_binding : Kind
device_binding = 30436

abbrev pub gift_wrap : Kind
gift_wrap = 1059

abbrev pub inbox_list : Kind
inbox_list = 10050

abbrev pub profile : Kind
profile = 0

abbrev pub channel_kinds : List Kind
channel_kinds = chat_message ∷ reaction ∷ deletion ∷ delete_event ∷ zap_carrier ∷ []

abbrev pub state_kinds : List Kind
state_kinds = group_metadata ∷ group_admins ∷ group_members ∷ group_roles ∷ []

abbrev pub action_kinds : List Kind
action_kinds =
    put_user ∷ remove_user ∷ edit_metadata ∷ mute_user ∷ create_invite ∷ join ∷ leave ∷ []

-- Does `kind` belong to a group?
unfoldable pub is_group_kind : Kind → Bool
is_group_kind k =
    elem k channel_kinds
    || k == presence
    || k == voice_presence
    || k == create_group
    || elem k state_kinds
    || elem k action_kinds

-- In seconds.
abbrev pub max_slowmode : ℕ
max_slowmode = 6 * 60 * 60

abbrev pub max_newcomer_wait : ℕ
max_newcomer_wait = 24 * 60 * 60

abbrev pub public_newcomer_floor : ℕ
public_newcomer_floor = 5 * 60

-- In characters.
abbrev pub max_about : ℕ
max_about = 280

abbrev pub max_reaction : ℕ
max_reaction = 32
