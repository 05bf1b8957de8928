-- ===== src/Event/Builders/Events.antt =====
-- The events that people sign, as crates/hit-event/src/group.rs builds them.
use hit_enter.Base.{
  ℕ, Bool, false, Option, none, some, List, [], ◌∷◌, ◌++◌, map, Text, nat_text, ◌==◌, text_key,
  text_beq, if◌then◌else◌,
}
use hit_enter.Base.Texts.{codes}
use hit_enter.Event.{Event, PublicKey, EventId, Timestamp}
use hit_enter.Event.Tags.{first_value}
use hit_enter.Event.Kinds
use hit_enter.Event.Attachments.{Attachment, attachment_tag}
use hit_enter.Event.Edits.{Edit}
use hit_enter.Event.Builders.{to_tag}

-- An `EventBuilder` whose time is set when it is signed.
pub record EventBuilder : Type 0 where
  pub kind : ℕ
  pub content : Text
  pub tags : List (List Text)

-- `PublicKey::to_hex` and `EventId::to_hex`.
pub record Hex : Type 0 where
  pub key_hex : PublicKey → Text
  pub id_hex : EventId → Text

-- A builder without content.
abbrev built : ℕ → List (List Text) → EventBuilder
built kind tags = record { kind = kind; content = []; tags = tags }

unfoldable pub voice_inside : Event → Bool
unfolding first_value text_beq
voice_inside ev = elim (first_value ev (codes "state")) [ none ↦ false | some v ↦ v == codes "in" ]

module _ (x : Hex) where
  unfoldable pub h : PublicKey → List Text
  h group = codes "h" ∷ x.key_hex group ∷ []

  abbrev in_channel : Text → List Text
  in_channel channel = codes "channel" ∷ channel ∷ []

  abbrev at_events : List EventId → List (List Text)
  at_events targets = map (λ t. codes "e" ∷ x.id_hex t ∷ []) targets

  unfoldable pub message : PublicKey → Text → Text → EventBuilder
  unfolding h
  message group channel text = record {
    kind = Kinds.chat_message;
    content = text;
    tags = h group ∷ in_channel channel ∷ [];
  }

  unfoldable pub message_with : PublicKey → Text → Text → List Attachment → EventBuilder
  unfolding message attachment_tag
  message_with group channel text attachments =
      let b = message group channel text in
      record b { tags = b.tags ++ map attachment_tag attachments }

  unfoldable pub reaction : PublicKey → Text → EventId → PublicKey → Text → EventBuilder
  unfolding h nat_text
  reaction group channel target author emoji = record {
    kind = Kinds.reaction;
    content = emoji;
    tags =
        h group
        ∷ in_channel channel
        ∷ (codes "e" ∷ x.id_hex target ∷ [])
        ∷ (codes "p" ∷ x.key_hex author ∷ [])
        ∷ (codes "k" ∷ nat_text Kinds.chat_message ∷ [])
        ∷ [];
  }

  unfoldable pub deletion : PublicKey → Text → List EventId → EventBuilder
  unfolding h
  deletion group channel targets =
      built Kinds.deletion (h group ∷ in_channel channel ∷ at_events targets)

  unfoldable pub delete_event : PublicKey → Text → List EventId → EventBuilder
  unfolding h
  delete_event group channel targets =
      built Kinds.delete_event (h group ∷ in_channel channel ∷ at_events targets)

  unfoldable pub voice_presence : PublicKey → Text → Bool → EventBuilder
  unfolding h
  voice_presence group channel inside = built Kinds.voice_presence (
      h group
      ∷ in_channel channel
      ∷ (codes "state" ∷ (if inside then codes "in" else codes "out") ∷ [])
      ∷ [])

  unfoldable pub presence : PublicKey → EventBuilder
  unfolding h
  presence group = built Kinds.presence (h group ∷ [])

  unfoldable pub create_group : PublicKey → EventBuilder
  unfolding h
  create_group group = built Kinds.create_group (h group ∷ [])

  unfoldable pub put_user : PublicKey → PublicKey → List Text → EventBuilder
  unfolding h
  put_user group target roles =
      built Kinds.put_user (h group ∷ (codes "p" ∷ x.key_hex target ∷ roles) ∷ [])

  unfoldable pub remove_user : PublicKey → PublicKey → EventBuilder
  unfolding h
  remove_user group target =
      built Kinds.remove_user (h group ∷ (codes "p" ∷ x.key_hex target ∷ []) ∷ [])

  unfoldable pub ban_user : PublicKey → PublicKey → EventBuilder
  unfolding remove_user
  ban_user group target =
      let b = remove_user group target in record b { tags = b.tags ++ (codes "ban" ∷ []) ∷ [] }

  unfoldable pub unban_user : PublicKey → PublicKey → EventBuilder
  unfolding remove_user
  unban_user group target =
      let b = remove_user group target in record b { tags = b.tags ++ (codes "unban" ∷ []) ∷ [] }

  abbrev until_secs : Option Timestamp → ℕ
  until_secs none = 0
  until_secs (some t) = t

  unfoldable pub mute_user : PublicKey → PublicKey → Option Timestamp → EventBuilder
  unfolding h nat_text
  mute_user group target until =
      built Kinds.mute_user
        (h group ∷ (codes "p" ∷ x.key_hex target ∷ nat_text (until_secs until) ∷ []) ∷ [])

  unfoldable pub edit_metadata : PublicKey → List Edit → EventBuilder
  unfolding h to_tag
  edit_metadata group edits = built Kinds.edit_metadata (h group ∷ map to_tag edits)

  abbrev expiry_tags : Option Timestamp → List (List Text)
  expiry_tags none = []
  expiry_tags (some t) = (codes "expiration" ∷ nat_text t ∷ []) ∷ []

  unfoldable pub create_invite : PublicKey → Text → Option Timestamp → EventBuilder
  unfolding h
  create_invite group code expires =
      built Kinds.create_invite (h group ∷ (codes "code" ∷ code ∷ []) ∷ expiry_tags expires)

  unfoldable pub join : PublicKey → Text → EventBuilder
  unfolding h
  join group code = built Kinds.join (h group ∷ (codes "code" ∷ code ∷ []) ∷ [])

  unfoldable pub join_public : PublicKey → EventBuilder
  unfolding h
  join_public group = built Kinds.join (h group ∷ [])

  unfoldable pub leave : PublicKey → EventBuilder
  unfolding h
  leave group = built Kinds.leave (h group ∷ [])
