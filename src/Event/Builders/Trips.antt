-- ===== src/Event/Builders/Trips.antt =====
-- The rows that crates/hit-event/src/group.rs writes are read back as what they were written of.
use hit_enter.Base.{
  ◌<◌, ◌^◌, true, false, some, [], ◌∷◌, text_key, text_beq, nat_text, int_text, IsI64,
  parse_u32-nat_text, parse_u64-nat_text, parse_i64-int_text, ◌≡◌, refl,
}
use hit_enter.Event.Rows.{
  ChannelKind, text, voice, Channel, Override, RoleDef, parse_kind, parse_channel, parse_override,
  parse_role,
}
use hit_enter.Event.Edits.{
  Edit, name, public, newcomer_wait, about, channel, channel_delete, override, role, role_delete,
  parse,
}
use hit_enter.Event.Builders.{as_str, to_tag}

parse_kind-as_str : (k : ChannelKind) → parse_kind (as_str k) ≡ some k
unfolding parse_kind text_beq
parse_kind-as_str text = refl
parse_kind-as_str voice = refl

-- Numbers of their types.
abbrev pub FitsOverride : Override → Type 0
FitsOverride o = (o.allow < 2 ^ 64) × (o.deny < 2 ^ 64)

abbrev pub FitsRole : RoleDef → Type 0
FitsRole r = (r.perms < 2 ^ 64) × IsI64 r.position

pub parse_channel_tag :
    (c : Channel)
    → c.slowmode < 2 ^ 32
    → parse_channel (c.id ∷ c.name ∷ as_str c.kind ∷ nat_text c.slowmode ∷ []) ≡ some c
unfolding parse_channel
parse_channel_tag c h = rw (parse_kind-as_str c.kind, parse_u32-nat_text c.slowmode h) refl

pub parse_override_tag :
    (o : Override)
    → FitsOverride o
    → parse_override (o.channel ∷ o.role ∷ nat_text o.allow ∷ nat_text o.deny ∷ []) ≡ some o
unfolding parse_override
parse_override_tag o (h, k) = rw (parse_u64-nat_text o.allow h, parse_u64-nat_text o.deny k) refl

pub parse_role_tag :
    (r : RoleDef)
    → FitsRole r
    → parse_role (r.id ∷ r.name ∷ nat_text r.perms ∷ int_text r.position ∷ []) ≡ some r
unfolding parse_role
parse_role_tag r (h, k) = rw (parse_u64-nat_text r.perms h, parse_i64-int_text r.position k) refl

-- The numbers of an edit are those of their types.
abbrev pub FitsEdit : Edit → Type 0
FitsEdit (newcomer_wait s) = s < 2 ^ 32
FitsEdit (channel c) = c.slowmode < 2 ^ 32
FitsEdit (override o) = FitsOverride o
FitsEdit (role r) = FitsRole r
FitsEdit e = Unit {0}

pub parse-to_tag : (e : Edit) → FitsEdit e → parse (to_tag e) ≡ some (some e)
unfolding parse to_tag text_beq
parse-to_tag (name n) h = refl
parse-to_tag (public true) h = refl
parse-to_tag (public false) h = refl
parse-to_tag (newcomer_wait s) h = rw (parse_u32-nat_text s h) refl
parse-to_tag (about a) h = refl
parse-to_tag (channel c) h = rw (parse_channel_tag c h) refl
parse-to_tag (channel_delete id) h = refl
parse-to_tag (override o) h = rw (parse_override_tag o h) refl
parse-to_tag (role r) h = rw (parse_role_tag r h) refl
parse-to_tag (role_delete id) h = refl
