-- ===== src/Event/Snapshots.antt =====
-- `Snapshot` of crates/hit-event/src/group.rs: what the group key states of a group, and the four events
-- that it signs.
use hit_enter.Base.{
  ℕ, ltb, Bool, Option, none, some, List, [], ◌∷◌, ◌++◌, map, Text, and_then, nat_text, nat_key,
  if◌then◌else◌,
}
use hit_enter.Base.Maps.{Map, Set, keys}
use hit_enter.Base.Texts.{codes}
use hit_enter.Event.{Event, PublicKey, Timestamp}
use hit_enter.Event.Kinds
use hit_enter.Event.Rows.{Channel, Override, RoleDef, owner_mark}
use hit_enter.Event.Builders.{Draft, channel_tag, override_tag, role_tag, visibility_tags}

pub record Snapshot : Type 0 where
  pub seq : ℕ
  pub name : Text
  pub public : Bool
  pub newcomer_wait : ℕ
  pub about : Text
  pub channels : List Channel
  pub overrides : List Override
  pub roles : List RoleDef
  pub owner : Option PublicKey
  pub members : Map PublicKey (Set Text)
  pub bans : Set PublicKey
  pub mutes : Map PublicKey Timestamp

-- A group's key: `GroupKey::public_key` and `GroupKey::sign`; and `PublicKey::to_hex`.
pub record GroupKey : Type 0 where
  pub public_key : PublicKey
  pub sign : Draft → Option Event
  pub to_hex : PublicKey → Text

abbrev pub wait_tags : ℕ → List (List Text)
wait_tags w = if ltb 0 w then (codes "newcomer_wait" ∷ nat_text w ∷ []) ∷ [] else []

abbrev pub about_tags : Text → List (List Text)
about_tags [] = []
about_tags (c ∷ s) = (codes "about" ∷ (c ∷ s) ∷ []) ∷ []

-- The rows of `39000` behind those of every state event.
unfoldable pub metadata_tags : Snapshot → List (List Text)
unfolding nat_text channel_tag override_tag visibility_tags
metadata_tags s =
    (codes "name" ∷ s.name ∷ []) ∷ visibility_tags s.public
    ++ (wait_tags s.newcomer_wait
        ++ (about_tags s.about ++ (map channel_tag s.channels ++ map override_tag s.overrides)))

module _ (key : GroupKey) where
  abbrev pub owner_tags : Option PublicKey → List (List Text)
  owner_tags none = []
  owner_tags (some p) = (codes "p" ∷ key.to_hex p ∷ owner_mark ∷ []) ∷ []

  -- Members without roles have no row.
  abbrev pub holder_tags : Map PublicKey (Set Text) → List (List Text)
  holder_tags [] = []
  holder_tags ((p, []) ∷ m) = holder_tags m
  holder_tags ((p, r ∷ rs) ∷ m) = (codes "p" ∷ key.to_hex p ∷ r ∷ rs) ∷ holder_tags m

  abbrev pub admin_tags : Snapshot → List (List Text)
  admin_tags s = owner_tags s.owner ++ holder_tags s.members

  unfoldable pub member_tags : Snapshot → List (List Text)
  unfolding nat_text
  member_tags s =
      map (λ p. codes "p" ∷ key.to_hex p ∷ []) (keys s.members)
      ++ (map (λ p. codes "ban" ∷ key.to_hex p ∷ []) s.bans
          ++ map (λ e. codes "mute" ∷ key.to_hex e.0 ∷ nat_text e.1 ∷ []) s.mutes)

  -- One state event: the group, the number, and its rows.
  unfoldable pub state_draft : Snapshot → Timestamp → ℕ → List (List Text) → Draft
  unfolding nat_text
  state_draft s at kind rows = record {
    kind = kind;
    content = [];
    created_at = at;
    tags =
        (codes "d" ∷ key.to_hex key.public_key ∷ []) ∷ (codes "seq" ∷ nat_text s.seq ∷ []) ∷ rows;
  }

  -- `Snapshot::sign`.
  unfoldable pub sign : Snapshot → Timestamp → Option (Event × Event × Event × Event)
  unfolding metadata_tags member_tags role_tag state_draft
  sign s at = and_then (key.sign (state_draft s at Kinds.group_metadata (metadata_tags s))) λ meta.
      and_then (key.sign (state_draft s at Kinds.group_admins (admin_tags s))) λ admins.
        and_then (key.sign (state_draft s at Kinds.group_members (member_tags s))) λ members.
          and_then (key.sign (state_draft s at Kinds.group_roles (map role_tag s.roles)))
            λ roles. some (meta, admins, members, roles)
