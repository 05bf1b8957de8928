-- ===== src/Tests/Club.antt =====
-- The operations on one club, for crates/hit-group/src/state.rs.
use hit_enter.Base.{
  ◌≤◌, max, true, false, some, none, List, [], ◌∷◌, ◌≡◌, refl, ◌↔◌, ◌⊎◌, ok, err, arith, Text,
  is_some, pos, text_beq, text_precedes, nat_key, text_key,
}
use hit_enter.Base.Maps.{get, contains_key, insert, delete, add, symmetric_difference}
use hit_enter.Base.Texts.{codes, trim}
use hit_enter.Base.Words.{bit, complement}
use hit_enter.Event.Actions
use hit_enter.Event.Edits
use hit_enter.Event.Kinds
use hit_enter.Event.Rows.{default_role}
use hit_enter.Event.Tags.{group_of, channel_of}
use hit_enter.Event.Attachments.{attachments_of}
use hit_enter.Event.Actions.{parse_action}
use hit_enter.Perm.{
  contains, view_channel, channel_scoped, sanitized, union, without, intersection, beyond, is_empty,
}
use hit_enter.Group.{malformed}
use hit_enter.Group.{
  GroupState, names_key, rank, positions, highest, outranks_role, can_grant, require,
  require_member, applies_in, channel_named, posts_from, base, base_of, role_perms, allowed, denied,
  effective, effective_of, outranks, is_owner, is_member, silence_at, the_owner,
}
use hit_enter.Group.Soundness.{IsSound}
use hit_enter.Group.Grants.{base-perform-le}
use hit_enter.Group.Apply.{
  check_newcomer, check_change, check_roles, granted, put, remove_member, perform, let_back_in,
  silence, drop_member,
}
use hit_enter.Group.Apply.Grants.{base-put-le}
use hit_enter.Group.Apply.Sound.{perform-IsSound}
use hit_enter.Group.Apply.Refused.{Leaves}
use hit_enter.Group.Apply.{check_mute, end_mute}
use hit_enter.Group.Execute.{execute, run_leave, run_mute, run_until}
use hit_enter.Group.Execute.Refused.{execute_refused}
use hit_enter.Group.Execute.Whole.{execute-perform}
use hit_enter.Group.Edit.{edit_all, edit_one, edit_role, place_role, place_other}
use hit_enter.Group.Edit.Grants.{base-edit_all-le}
use hit_enter.Group.Fold.{rounds, pass}
use hit_enter.Group.Fold.Sound.{fold_group-IsSound}
use hit_enter.Group.Fold.Rounds.{rounds_end}
use hit_enter.Group.Judge.{judge_message, judge_in_channel, judge_silence, judge_wait}
use hit_enter.Group.Speech.{removal-silences}
use hit_enter.Group.Channels.{IsOverridden, effective_of_iff}
use hit_enter.Group.Order.{outranks_strict}
use hit_enter.Group.Read.{may_read, removes, is_folded, in_a_channel}
use hit_enter.Group.Read.Views.{may_read_channel}
use hit_enter.Tests.Samples.{
  demo, event, h, club, club_events, club_folded, club-IsSound, mod_role, hello, hello_placed,
  mod_id, promoted,
}

fold_group-IsSound_example : IsSound club
fold_group-IsSound_example = fold_group-IsSound demo 9 club_events club_folded

perform-IsSound_example : IsSound (perform club 1 300 (Actions.put 3 (mod_id ∷ []))).0
perform-IsSound_example = perform-IsSound club 1 300 (Actions.put 3 (mod_id ∷ [])) club-IsSound

base-perform-le_example :
    bit (base (perform club 1 300 (Actions.put 3 (mod_id ∷ []))).0 3) 5
    ≤ max
        (bit (base club 3) 5)
        (max (bit (base club 1) 5) (bit (role_perms club.roles default_role) 5))
base-perform-le_example = base-perform-le club 1 300 (Actions.put 3 (mod_id ∷ [])) club-IsSound 3 5

pub put-promoted : put club 1 300 3 (mod_id ∷ []) ≡ ok promoted
unfolding put require_member is_member get is_owner delete text_beq check_newcomer check_change
    check_roles require contains base outranks granted symmetric_difference outranks_role can_grant
    text_precedes add contains_key insert complement let_back_in base_of highest names_key positions
    rank role_perms beyond is_empty sanitized union
put-promoted = refl

base-put-le_example : bit (base promoted 3) 5 ≤ max (bit (base club 3) 5) (bit (base club 1) 5)
base-put-le_example = base-put-le club promoted 1 300 3 (mod_id ∷ []) club-IsSound put-promoted 3 5

abbrev stronger : GroupState
stronger = record club {
  roles =
      (
        default_role,
        (record { id = default_role; name = codes "Member"; perms = 2067; position = pos 0 }),
      )
      ∷ (mod_id, record mod_role { perms = 3039 })
      ∷ [];
}

abbrev strengthen : List Edits.Edit
strengthen = Edits.role (record mod_role { perms = 3039 }) ∷ []

edit_stronger : edit_all club club 1 strengthen ≡ ok stronger
unfolding edit_all edit_one edit_role require contains base is_owner names_key trim text_beq
    text_precedes insert place_role place_other get outranks_role can_grant sanitized is_empty
    beyond
edit_stronger = refl

base-edit_all-le_example : bit (base stronger 2) 3 ≤ max (bit (base club 2) 3) (bit (base club 1) 3)
base-edit_all-le_example =
    base-edit_all-le club stronger 1 strengthen club-IsSound edit_stronger 2 3

rounds_end_example :
    let (t, left) = rounds demo 2 club (event 20 5 300 Kinds.join (h ∷ []) ∷ []) in
    (left ≡ []) ⊎ ((u : GroupState) × (pass demo u left ≡ (t, left)))
rounds_end_example = rounds_end demo 2 club (event 20 5 300 Kinds.join (h ∷ []) ∷ []) (omega arith)

owner_refused : (execute 1 300 Actions.leave club).1 ≡ err the_owner
unfolding execute run_leave is_owner names_key
owner_refused = refl

execute_refused_example : Leaves club 300 Actions.leave (execute 1 300 Actions.leave club).0
execute_refused_example = execute_refused club 1 300 Actions.leave owner_refused

execute-perform_example :
    execute 2 300 (Actions.mute 3 (some 250)) club ≡ perform club 2 300 (Actions.mute 3 (some 250))
execute-perform_example = execute-perform club 2 300 (Actions.mute 3 (some 250))

-- Member 3 is muted until 500; a mute until 250 that is dated 300 is refused, and 3 may speak at 400.
abbrev hushed : GroupState
hushed = record club {
  silences = record { who = 3; from = 200; until = some 500; mute = true } ∷ [];
}

refused_mute_frees :
    (is_some (silence_at hushed 3 400) ≡ true)
    × ((execute 2 300 (Actions.mute 3 (some 250)) hushed).1 ≡ err malformed)
    × (silence_at (execute 2 300 (Actions.mute 3 (some 250)) hushed).0 3 400 ≡ none)
unfolding execute run_mute run_until end_mute silence_at check_mute require_member require is_owner
    names_key is_member contains base base_of sanitized union role_perms outranks rank positions
    highest get text_beq
refused_mute_frees = (refl, refl, refl)

-- The owner acts on the moderator, who acts on a member.
above : (outranks club 1 2 ≡ true) × (outranks club 2 3 ≡ true)
unfolding outranks is_owner names_key rank positions highest get text_beq
above = (refl, refl)

outranks_strict_example :
    (is_owner club 2 ≡ false)
    × (outranks club 2 1 ≡ false)
    × (outranks club 1 3 ≡ true)
    × (outranks club 1 1 ≡ false)
outranks_strict_example = outranks_strict club 1 2 3 above.0 above.1

-- A member's message in the hall passes.
hello_passes : judge_message club hello ≡ ok tt
unfolding judge_message attachments_of judge_in_channel judge_silence judge_wait silence_at
    posts_from channel_of channel_named require_member is_member contains effective is_owner
    names_key effective_of sanitized union without base_of role_perms intersection applies_in
    allowed denied get
hello_passes = refl

abbrev kicked : GroupState
kicked = silence (drop_member club 4) 4 300 none false

kick : remove_member club 2 300 4 false ≡ ok kicked
unfolding remove_member require_member require is_owner names_key is_member contains base base_of
    sanitized union role_perms outranks rank positions highest get text_beq
kick = refl

removal-silences_example :
    (is_some (silence_at kicked 4 310) ≡ true)
    × (is_some (silence_at (let_back_in kicked 4 320) 4 310) ≡ true)
removal-silences_example =
    removal-silences club kicked 2 300 4 false 320 310 kick (omega arith) (omega arith)

effective_of_iff_example : (bit (effective_of club [] (codes "mods")) 0 ≡ 1) ↔ (
    ((bit channel_scoped 0 ≡ 1) × IsOverridden club [] (codes "mods") (λ o. o.allow) 0)
    ⊎ ((bit (base_of club []) 0 ≡ 1)
        × ¬ ((bit channel_scoped 0 ≡ 1) × IsOverridden club [] (codes "mods") (λ o. o.deny) 0)))
effective_of_iff_example = effective_of_iff club [] (codes "mods") 0

hello_read : (removes demo hello 3 ≡ false) × (may_read demo club 3 hello 300 ≡ true)
unfolding removes may_read parse_action group_of is_folded in_a_channel channel_of is_member
    contains effective is_owner names_key effective_of sanitized union without base_of role_perms
    intersection applies_in allowed denied get
hello_read = (refl, refl)

may_read_channel_example :
    (c : Text) × (channel_of hello ≡ some c)
    × ((is_member club 3 ≡ true) × (contains (effective club 3 c) view_channel ≡ true)
        ⊎ (is_member club 3 ≡ false)
          × (club.public ≡ true)
          × (contains (effective_of club [] c) view_channel ≡ true))
may_read_channel_example =
    may_read_channel demo club 3 hello 300 hello_placed hello_read.0 hello_read.1
