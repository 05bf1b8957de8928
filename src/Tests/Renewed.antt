-- ===== src/Tests/Renewed.antt =====
-- A group snapshotted, signed and folded again, for crates/hit-group/src/state.rs.
use hit_enter.Base.{
  ℕ, ◌+◌, true, some, List, [], ◌∷◌, map, Text, text_beq, text_precedes, negsuc, pos, ◌≡◌, refl,
  arith,
}
use hit_enter.Base.Maps.{get, contains_key}
use hit_enter.Base.Rising.{is_rising, rises}
use hit_enter.Base.Texts.{codes}
use hit_enter.Event.{Event}
use hit_enter.Event.Builders.{role_tag}
use hit_enter.Event.Kinds
use hit_enter.Event.Rows
use hit_enter.Event.Rows.{RoleDef}
use hit_enter.Event.Snapshots.{metadata_tags, admin_tags, member_tags, state_draft, sign}
use hit_enter.Event.Tags.{group_of}
use hit_enter.Group.{GroupState}
use hit_enter.Group.Fold.{fold_group}
use hit_enter.Group.Fold.Renewed.{IsWhole, renewed, fold_group-sign}
use hit_enter.Group.Read.{to_snapshot}
use hit_enter.Perm.{sanitized}
use hit_enter.Tests.Samples.{event}
use hit_enter.Tests.Snapshots.{plain, stamp_key, stamp_signs}

abbrev home : GroupState
home = record {
  id = 9;
  seq = 11;
  cutoff = 600;
  name = codes "Club";
  public = true;
  newcomer_wait = 300;
  about = codes "us";
  joined = (3, 650) ∷ [];
  owner = some 1;
  named_owner = some 1;
  channels = record { id = codes "hall"; name = codes "Hall"; kind = Rows.text; slowmode = 5 } ∷ [];
  overrides = record { channel = codes "hall"; role = codes "mod"; allow = 1; deny = 2 } ∷ [];
  roles =
      (
        codes "member",
        record { id = codes "member"; name = codes "Member"; perms = 3; position = pos 0 },
      )
      ∷ (
        codes "mod",
        record { id = codes "mod"; name = codes "Mod"; perms = 7; position = negsuc 9 },
      )
      ∷ [];
  members = (1, []) ∷ (2, codes "mod" ∷ []) ∷ (3, []) ∷ [];
  invites = [];
  applied = 40 ∷ [];
  bans = 4 ∷ 5 ∷ [];
  mutes = (3, 900) ∷ [];
  silences = [];
}

home-IsWhole : IsWhole home 1
unfolding is_rising rises text_beq text_precedes to_snapshot contains_key get sanitized
home-IsWhole = record {
  fits = record {
    seq = omega arith;
    wait = omega arith;
    channels = (omega arith, tt);
    overrides = ((omega arith, omega arith), tt);
    roles = ((omega arith, omega arith), ((omega arith, omega arith), tt));
    held = ((refl, refl), ((refl, refl), ((refl, refl), tt)));
    people = refl;
    holding = refl;
    banned = refl;
    muted = refl;
    until = (omega arith, tt);
  };
  ordered = refl;
  named = ((refl, refl, refl), ((refl, refl, refl), tt));
  default_defined = refl;
  seated = refl;
  know = (refl, (refl, (refl, tt)));
  owned = refl;
  plain_owner = refl;
}

abbrev stated : ℕ → List (List Text) → Event
stated kind rows =
    event (700 + kind) 9 700 kind (state_draft stamp_key (to_snapshot home) 700 kind rows).tags

abbrev meta : Event
meta = stated Kinds.group_metadata (metadata_tags (to_snapshot home))

abbrev held : Event
held = stated Kinds.group_admins (admin_tags stamp_key (to_snapshot home))

abbrev people : Event
people = stated Kinds.group_members (member_tags stamp_key (to_snapshot home))

abbrev defined : Event
defined = stated Kinds.group_roles (map role_tag (to_snapshot home).roles)

home_signed : sign stamp_key (to_snapshot home) 700 ≡ some (meta, held, people, defined)
unfolding sign
home_signed = refl

abbrev creation : Event
creation = event 1 1 10 Kinds.create_group ((codes "h" ∷ (9 ∷ []) ∷ []) ∷ [])

creation_of : group_of plain creation ≡ some 9
unfolding group_of text_beq
creation_of = refl

fold_group-sign_example :
    fold_group plain 9 (creation ∷ meta ∷ held ∷ people ∷ defined ∷ []) ≡ some (renewed home 700)
fold_group-sign_example =
    fold_group-sign plain stamp_key home 1 700 creation meta held people defined home-IsWhole
      stamp_signs refl home_signed creation_of refl refl
