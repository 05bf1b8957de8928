-- ===== src/Event/Builders.antt =====
-- What crates/hit-event/src/group.rs hands over to be signed, and the rows that it writes: those of `Edit::to_tag`, which a snapshot shares.
pub mod Trips
pub mod Events
use hit_enter.Base.{ℕ, Bool, true, false, List, [], ◌∷◌, Text, nat_text, int_text}
use hit_enter.Base.Texts.{codes}
use hit_enter.Event.{Timestamp}
use hit_enter.Event.Rows.{ChannelKind, text, voice, Channel, Override, RoleDef}
use hit_enter.Event.Edits.{
  Edit, name, public, newcomer_wait, about, channel, channel_delete, override, role, role_delete,
}

-- What is handed over to be signed: an `EventBuilder` with its time of creation.
pub record Draft : Type 0 where
  pub kind : ℕ
  pub content : Text
  pub created_at : Timestamp
  pub tags : List (List Text)

-- `ChannelKind::as_str`.
abbrev pub as_str : ChannelKind → Text
as_str text = codes "text"
as_str voice = codes "voice"

unfoldable pub channel_tag : Channel → List Text
unfolding nat_text
channel_tag c = codes "channel" ∷ c.id ∷ c.name ∷ as_str c.kind ∷ nat_text c.slowmode ∷ []

unfoldable pub override_tag : Override → List Text
unfolding nat_text
override_tag o = codes "override" ∷ o.channel ∷ o.role ∷ nat_text o.allow ∷ nat_text o.deny ∷ []

unfoldable pub role_tag : RoleDef → List Text
unfolding nat_text int_text
role_tag r = codes "role" ∷ r.id ∷ r.name ∷ nat_text r.perms ∷ int_text r.position ∷ []

unfoldable pub visibility_tags : Bool → List (List Text)
visibility_tags true = (codes "public" ∷ []) ∷ (codes "open" ∷ []) ∷ []
visibility_tags false = (codes "private" ∷ []) ∷ (codes "closed" ∷ []) ∷ []

-- `Edit::to_tag`.
unfoldable pub to_tag : Edit → List Text
unfolding channel_tag override_tag role_tag nat_text
to_tag (name n) = codes "name" ∷ n ∷ []
to_tag (public true) = codes "public" ∷ []
to_tag (public false) = codes "private" ∷ []
to_tag (newcomer_wait s) = codes "newcomer_wait" ∷ nat_text s ∷ []
to_tag (about a) = codes "about" ∷ a ∷ []
to_tag (channel c) = channel_tag c
to_tag (channel_delete id) = codes "channel-delete" ∷ id ∷ []
to_tag (override o) = override_tag o
to_tag (role r) = role_tag r
to_tag (role_delete id) = codes "role-delete" ∷ id ∷ []
