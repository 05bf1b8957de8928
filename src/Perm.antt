-- ===== src/Perm.antt =====
-- crates/hit-group/src/perm.rs: what a member may do, as the bits of a `u64`.
pub mod Bits
pub mod Names
use hit_enter.Base.{ℕ, ◌+◌, ◌-◌, ◌^◌, Bool, bit_and, bit_or, ◌==◌, nat_key}
use hit_enter.Base.Words.{complement}

-- `Permissions(pub u64)`.
abbrev pub Permissions : Type 0
Permissions = ℕ

abbrev pub view_channel : Permissions
view_channel = 2 ^ 0

abbrev pub send_messages : Permissions
send_messages = 2 ^ 1

abbrev pub manage_messages : Permissions
manage_messages = 2 ^ 2

abbrev pub manage_channels : Permissions
manage_channels = 2 ^ 3

abbrev pub create_invite : Permissions
create_invite = 2 ^ 4

abbrev pub manage_invites : Permissions
manage_invites = 2 ^ 5

abbrev pub kick_members : Permissions
kick_members = 2 ^ 6

abbrev pub ban_members : Permissions
ban_members = 2 ^ 7

abbrev pub mute_members : Permissions
mute_members = 2 ^ 8

abbrev pub manage_roles : Permissions
manage_roles = 2 ^ 9

abbrev pub manage_group : Permissions
manage_group = 2 ^ 10

abbrev pub attach_files : Permissions
attach_files = 2 ^ 11

abbrev pub max_bit : ℕ
max_bit = 11

abbrev pub all : Permissions
all = 2 ^ (max_bit + 1) - 1

abbrev pub none_at_all : Permissions
none_at_all = 0

unfoldable pub sanitized : Permissions → Permissions
sanitized p = bit_and p all

unfoldable pub contains : Permissions → Permissions → Bool
contains held needed = bit_and held needed == needed

unfoldable pub union : Permissions → Permissions → Permissions
union p q = bit_or p q

unfoldable pub without : Permissions → Permissions → Permissions
unfolding complement
without p q = bit_and p (complement 64 q)

unfoldable pub intersection : Permissions → Permissions → Permissions
intersection p q = bit_and p q

unfoldable pub is_empty : Permissions → Bool
is_empty p = p == 0

unfoldable pub beyond : Permissions → Permissions → Permissions
unfolding complement
beyond p q = bit_and p (complement 64 q)

abbrev pub channel_scoped : Permissions
channel_scoped = bit_or (bit_or (bit_or view_channel send_messages) manage_messages) attach_files

abbrev pub default_member : Permissions
default_member = bit_or (bit_or (bit_or view_channel send_messages) create_invite) attach_files

abbrev pub default_moderator : Permissions
default_moderator =
    bit_or (bit_or (bit_or (bit_or default_member manage_messages) kick_members) ban_members)
      mute_members

abbrev pub default_admin : Permissions
default_admin =
    bit_or (bit_or (bit_or default_moderator manage_channels) manage_invites) manage_roles
