-- ===== src/Tests/Snapshots.antt =====
-- A snapshot of the club, signed and read back, and the club's actions built and parsed, for
-- crates/hit-event/src/group.rs.
use hit_enter.Base.{
  ℕ, ◌+◌, ◌++◌, ok, true, Option, none, some, List, [], ◌∷◌, map, Text, text_beq, text_precedes,
  negsuc, ◌≡◌, refl, arith,
}
use hit_enter.Base.Rising.{is_rising, rises}
use hit_enter.Base.Texts.{codes}
use hit_enter.Event.{Event, Nostr, PublicKey}
use hit_enter.Event.Kinds
use hit_enter.Event.Actions
use hit_enter.Event.Actions.{Action, parse_action}
use hit_enter.Event.Actions.Built.{builder_of, parse_action-builder_of}
use hit_enter.Event.Builders.{role_tag}
use hit_enter.Event.Builders.Events
use hit_enter.Event.Attachments.{Attachment, is_valid, attachments_of}
use hit_enter.Event.Attachments.Sent.{attachments_of-message_with}
use hit_enter.Event.Tags.{channel_of}
use hit_enter.Event.Builders.Events.{
  EventBuilder, Hex, message_with, voice_presence, voice_inside, deletion,
}
use hit_enter.Event.Edits
use hit_enter.Event.Rows
use hit_enter.Event.Rows.{Channel, Override, RoleDef}
use hit_enter.Event.Snapshots.{
  Snapshot, GroupKey, metadata_tags, admin_tags, member_tags, state_draft, sign,
}
use hit_enter.Event.States.{parse_state, roles}
use hit_enter.Event.States.Signed.{
  FitsSnapshot, IsSigner, metadata_of, admins_of, members_of, parse_state-sign,
}
use hit_enter.Tests.Samples.{demo, event, word_value}

-- Keys by their code points, not only by digits.
abbrev pub key_code : Text → Option PublicKey
key_code (c ∷ []) = some c
key_code t = none

abbrev pub plain : Nostr
plain = record demo { public_key = key_code }

abbrev pub stamp_key : GroupKey
stamp_key = record {
  public_key = 9;
  sign = λ draft.
      some (event (draft.created_at + draft.kind) 9 draft.created_at draft.kind draft.tags);
  to_hex = λ p. p ∷ [];
}

abbrev small : Snapshot
small = record {
  seq = 12;
  name = codes "Club";
  public = true;
  newcomer_wait = 300;
  about = codes "us";
  channels = record { id = codes "hall"; name = codes "Hall"; kind = Rows.text; slowmode = 5 } ∷ [];
  overrides = record { channel = codes "hall"; role = codes "mod"; allow = 1; deny = 2 } ∷ [];
  roles = record { id = codes "mod"; name = codes "Mod"; perms = 7; position = negsuc 9 } ∷ [];
  owner = some 1;
  members = (1, []) ∷ (2, codes "mod" ∷ codes "vip" ∷ []) ∷ (3, []) ∷ [];
  bans = 4 ∷ 5 ∷ [];
  mutes = (3, 900) ∷ [];
}

small_fits : FitsSnapshot small
unfolding is_rising rises text_beq text_precedes
small_fits = record {
  seq = omega arith;
  wait = omega arith;
  channels = (omega arith, tt);
  overrides = ((omega arith, omega arith), tt);
  roles = ((omega arith, omega arith), tt);
  held = ((refl, refl), ((refl, refl), ((refl, refl), tt)));
  people = refl;
  holding = refl;
  banned = refl;
  muted = refl;
  until = (omega arith, tt);
}

pub stamp_signs : IsSigner plain stamp_key
unfolding word_value
stamp_signs = record {
  reads_key = λ p. refl;
  reads_identifier = λ t rest. refl;
  signs = λ draft ev e.
      let same : event (draft.created_at + draft.kind) 9 draft.created_at draft.kind draft.tags
          ≡ ev =
        cc e in
      rw (← same) (refl, refl, refl, refl);
}

abbrev drafted : ℕ → List (List Text) → Event
drafted kind rows = event (700 + kind) 9 700 kind (state_draft stamp_key small 700 kind rows).tags

small_signed :
    sign stamp_key small 700
    ≡ some (
      drafted Kinds.group_metadata (metadata_tags small),
      drafted Kinds.group_admins (admin_tags stamp_key small),
      drafted Kinds.group_members (member_tags stamp_key small),
      drafted Kinds.group_roles (map role_tag small.roles),
    )
unfolding sign
small_signed = refl

parse_state-sign_example :
    (parse_state plain (drafted Kinds.group_metadata (metadata_tags small))
      ≡ some (9, 12, metadata_of small))
    × (parse_state plain (drafted Kinds.group_admins (admin_tags stamp_key small))
        ≡ some (9, 12, admins_of small))
    × (parse_state plain (drafted Kinds.group_members (member_tags stamp_key small))
        ≡ some (9, 12, members_of small))
    × (parse_state plain (drafted Kinds.group_roles (map role_tag small.roles))
        ≡ some (9, 12, roles small.roles))
parse_state-sign_example =
    parse_state-sign plain stamp_key small small_fits stamp_signs 700
      (drafted Kinds.group_metadata (metadata_tags small))
      (drafted Kinds.group_admins (admin_tags stamp_key small))
      (drafted Kinds.group_members (member_tags stamp_key small))
      (drafted Kinds.group_roles (map role_tag small.roles)) small_signed

abbrev letters : Hex
letters = record { key_hex = λ p. p ∷ []; id_hex = λ i. i ∷ [] }

abbrev change : Action
change = Actions.edit (
    Edits.about (codes "all of us")
    ∷ Edits.override (record { channel = codes "hall"; role = codes "mod"; allow = 4; deny = 8 })
    ∷ Edits.role_delete (codes "vip")
    ∷ [])

abbrev changed : Event
changed = event 44 2 800 Kinds.edit_metadata (builder_of letters 9 change).tags

change_kind : changed.kind ≡ (builder_of letters 9 change).kind
unfolding Events.edit_metadata
change_kind = refl

parse_action-builder_of_example : parse_action plain changed ≡ some (9, change)
parse_action-builder_of_example =
    parse_action-builder_of plain letters (λ p. refl) changed 9 change
      ((λ e. absurd (cc e)), (tt, ((omega arith, omega arith), (tt, tt)))) change_kind refl

abbrev sixteen : Text → Text
sixteen t = t ++ (t ++ (t ++ t))

abbrev picture : Attachment
picture = record {
  hash = sixteen (codes "0123456789abcdef");
  sha256 = sixteen (codes "fedcba9876543210");
  size = 4096;
  mime = codes "image/png";
  name = codes "a cat.png";
}

picture_valid : is_valid picture ≡ true
unfolding is_valid text_beq
picture_valid = refl

abbrev sent : Event
sent =
    event 45 3 810 Kinds.chat_message
      (message_with letters 9 (codes "hall") (codes "look") (picture ∷ [])).tags

attachments_of-message_with_example : attachments_of sent ≡ ok (picture ∷ [])
attachments_of-message_with_example =
    attachments_of-message_with letters sent 9 (codes "hall") (codes "look") (picture ∷ [])
      (rw picture_valid refl) (omega arith) refl

entered :
    voice_inside
      (event 46 3 820 Kinds.voice_presence (voice_presence letters 9 (codes "den") true).tags)
    ≡ true
unfolding voice_inside voice_presence
entered = refl

posted :
    channel_of (event 47 3 830 Kinds.deletion (deletion letters 9 (codes "hall") (1 ∷ 2 ∷ [])).tags)
    ≡ some (codes "hall")
unfolding channel_of deletion
posted = refl
