-- ===== src/Event/Rows.antt =====
-- The parts of a group that a tag's row carries, in crates/hit-event/src/group.rs: channels,
-- channel overrides and role definitions, and how a row is read.
use hit_enter.Base.{
  ℕ, Option, none, some, List, [], ◌∷◌, Text, ◌==◌, text_key, text_beq, ℤ, if◌then◌else◌, and_then,
}
use hit_enter.Base.Texts.{codes, parse_u32, parse_u64, parse_i64}

pub data ChannelKind : Type 0 where
  text voice : ChannelKind

unfoldable pub parse_kind : Text → Option ChannelKind
unfolding text_beq
parse_kind s =
    if s == codes "text" then some text else if s == codes "voice" then some voice else none

pub record Channel : Type 0 where
  pub id : Text
  pub name : Text
  pub kind : ChannelKind
  -- Seconds a member must wait between messages here.
  pub slowmode : ℕ

-- One role's adjustment in one channel, as permission bits.
pub record Override : Type 0 where
  pub channel : Text
  pub role : Text
  pub allow : ℕ
  pub deny : ℕ

pub record RoleDef : Type 0 where
  pub id : Text
  pub name : Text
  pub perms : ℕ
  pub position : ℤ

-- The role every member holds.
abbrev pub default_role : Text
default_role = codes "member"

-- The marker on the owner's entry; no role may use it.
abbrev pub owner_mark : Text
owner_mark = codes "owner"

-- `slowmode`, absent in a row of three.
parse_slowmode : List Text → Option ℕ
unfolding parse_u32
parse_slowmode [] = some 0
parse_slowmode (s ∷ more) = parse_u32 s

unfoldable pub parse_channel : List Text → Option Channel
unfolding parse_kind parse_slowmode
parse_channel [] = none
parse_channel (id ∷ []) = none
parse_channel (id ∷ name ∷ []) = none
parse_channel (id ∷ name ∷ kind ∷ more) = and_then (parse_kind kind) λ k.
    and_then (parse_slowmode more)
      λ s. some (record { id = id; name = name; kind = k; slowmode = s })

-- The row behind the word `override`: a row that is too short is malformed.
unfoldable pub parse_override : List Text → Option Override
unfolding parse_u64
parse_override (channel ∷ role ∷ allow ∷ deny ∷ more) = and_then (parse_u64 allow) λ a.
    and_then (parse_u64 deny)
      λ d. some (record { channel = channel; role = role; allow = a; deny = d })
parse_override _ = none

-- The row behind the word `role`.
unfoldable pub parse_role : List Text → Option RoleDef
unfolding parse_u64 parse_i64
parse_role (id ∷ name ∷ perms ∷ position ∷ more) = and_then (parse_u64 perms) λ p.
    and_then (parse_i64 position)
      λ q. some (record { id = id; name = name; perms = p; position = q })
parse_role _ = none
