-- ===== src/Tests/Samples.antt =====
-- A club of four: 1 owns it, 2 moderates, 3 is a member, and 4 has joined by the open door. Its
-- group key is 9. Keys are written as one decimal digit.
use hit_enter.Base.{
  ℕ, ◌-◌, true, Option, none, some, List, [], ◌∷◌, Text, pos, ◌≡◌, refl, nat_key, text_key,
  text_beq, text_precedes, ◌==◌, if◌then◌else◌,
}
use hit_enter.Base.Lists.{find_map, filter_map}
use hit_enter.Base.Maps.{get, insert, add}
use hit_enter.Base.Texts.{codes}
use hit_enter.Event.{Event, Nostr, PublicKey, EventId, Timestamp}
use hit_enter.Event.Kinds
use hit_enter.Event.Rows
use hit_enter.Event.Rows.{Channel, Override, RoleDef}
use hit_enter.Event.Tags.{group_of}
use hit_enter.Event.States.{parse_state}
use hit_enter.Event.Actions.{parse_action}
use hit_enter.Perm.{sanitized}
use hit_enter.Group.{GroupState, names_key, is_member}
use hit_enter.Group.Apply.{honoured, let_back_in}
use hit_enter.Group.Execute.{apply, execute, run_join}
use hit_enter.Group.Fold.{fold_group}
use hit_enter.Group.Fold.Sound.{fold_group-IsSound}
use hit_enter.Group.Read.{in_a_channel}
use hit_enter.Group.Soundness.{IsSound}

abbrev pub digit_key : Text → Option PublicKey
digit_key (c ∷ []) = some (c - b'0')
digit_key s = none

unfoldable pub word_value : Text → List Text → Option Text
unfolding text_beq
word_value w (m ∷ v ∷ rest) = if m == w then some v else none
word_value w t = none

unfoldable pub key_value : List Text → Option PublicKey
unfolding word_value
key_value t = elim (word_value (codes "p") t) [ none ↦ none | some v ↦ digit_key v ]

abbrev pub demo : Nostr
demo = record {
  public_key = digit_key;
  event_id = digit_key;
  identifier = λ tags. find_map (word_value (codes "d")) tags;
  public_keys = λ tags. filter_map key_value tags;
  from_json = λ s. none;
  verify = λ ev. true;
  invoice_amount = λ s. none;
}

abbrev pub event : EventId → PublicKey → Timestamp → ℕ → List (List Text) → Event
event id pubkey at kind tags = record {
  id = id;
  pubkey = pubkey;
  created_at = at;
  kind = kind;
  tags = tags;
  content = [];
}

abbrev pub h : List Text
h = codes "h" ∷ codes "9" ∷ []

abbrev d : List Text
d = codes "d" ∷ codes "9" ∷ []

abbrev seq : List Text
seq = codes "seq" ∷ codes "1" ∷ []

abbrev pub snapshot : List Event
snapshot =
    event 11 9 100 Kinds.group_metadata (
      d
      ∷ seq
      ∷ (codes "name" ∷ codes "Club" ∷ [])
      ∷ (codes "public" ∷ [])
      ∷ (codes "channel" ∷ codes "hall" ∷ codes "Hall" ∷ codes "text" ∷ [])
      ∷ (codes "channel" ∷ codes "mods" ∷ codes "Mods" ∷ codes "text" ∷ codes "0" ∷ [])
      ∷ (codes "override" ∷ codes "mods" ∷ codes "member" ∷ codes "0" ∷ codes "1" ∷ [])
      ∷ (codes "override" ∷ codes "mods" ∷ codes "mod" ∷ codes "1" ∷ codes "0" ∷ [])
      ∷ [])
    ∷ event 12 9 100 Kinds.group_admins (
        d
        ∷ seq
        ∷ (codes "p" ∷ codes "1" ∷ codes "owner" ∷ [])
        ∷ (codes "p" ∷ codes "2" ∷ codes "mod" ∷ codes "gone" ∷ [])
        ∷ [])
    ∷ event 13 9 100 Kinds.group_members (
        d
        ∷ seq
        ∷ (codes "p" ∷ codes "1" ∷ [])
        ∷ (codes "p" ∷ codes "2" ∷ [])
        ∷ (codes "p" ∷ codes "3" ∷ [])
        ∷ [])
    ∷ event 14 9 100 Kinds.group_roles (
        d
        ∷ seq
        ∷ (codes "role" ∷ codes "member" ∷ codes "Member" ∷ codes "2067" ∷ codes "0" ∷ [])
        ∷ (codes "role" ∷ codes "mod" ∷ codes "Mod" ∷ codes "3031" ∷ codes "10" ∷ [])
        ∷ [])
    ∷ event 15 1 99 Kinds.create_group (h ∷ [])
    ∷ []

abbrev pub hall : Channel
hall = record { id = codes "hall"; name = codes "Hall"; kind = Rows.text; slowmode = 0 }

abbrev pub mods : Channel
mods = record { id = codes "mods"; name = codes "Mods"; kind = Rows.text; slowmode = 0 }

abbrev pub member_role : RoleDef
member_role = record { id = codes "member"; name = codes "Member"; perms = 2067; position = pos 0 }

abbrev pub mod_role : RoleDef
mod_role = record { id = codes "mod"; name = codes "Mod"; perms = 3031; position = pos 10 }

-- The club as its events fold.
abbrev pub club : GroupState
club = record {
  id = 9;
  seq = 1;
  cutoff = 100;
  name = codes "Club";
  public = true;
  newcomer_wait = 0;
  about = [];
  joined = (4, 200) ∷ [];
  owner = some 1;
  named_owner = some 1;
  channels = hall ∷ mods ∷ [];
  overrides =
      record { channel = codes "mods"; role = codes "member"; allow = 0; deny = 1 }
      ∷ record { channel = codes "mods"; role = codes "mod"; allow = 1; deny = 0 }
      ∷ [];
  roles = (codes "member", member_role) ∷ (codes "mod", mod_role) ∷ [];
  members = (1, []) ∷ (2, codes "mod" ∷ []) ∷ (3, []) ∷ (4, []) ∷ [];
  invites = [];
  applied = 16 ∷ [];
  bans = [];
  mutes = [];
  silences = [];
}

abbrev pub club_events : List Event
club_events = event 16 4 200 Kinds.join (h ∷ []) ∷ snapshot

pub club_folded : fold_group demo 9 club_events ≡ some club
unfolding fold_group get names_key group_of word_value parse_state insert apply parse_action execute
    run_join is_member add honoured let_back_in text_precedes sanitized
club_folded = refl

pub club-IsSound : IsSound club
club-IsSound = fold_group-IsSound demo 9 club_events club_folded

abbrev pub mod_id : Text
mod_id = codes "mod"

-- A message of member 3 in the hall.
abbrev pub hello : Event
hello = event 30 3 300 Kinds.chat_message (h ∷ (codes "channel" ∷ codes "hall" ∷ []) ∷ [])

pub hello_placed : in_a_channel hello ≡ true
unfolding in_a_channel
hello_placed = refl

-- The club with member 3 a moderator.
abbrev pub promoted : GroupState
promoted = record club { members = (1, []) ∷ (2, mod_id ∷ []) ∷ (3, mod_id ∷ []) ∷ (4, []) ∷ [] }
