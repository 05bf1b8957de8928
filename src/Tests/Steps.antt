-- ===== src/Tests/Steps.antt =====
-- Bans, ranks, owners and replacement at concrete inputs, for crates/hit-group/src/state.rs and
-- crates/hit-event/src/replace.rs.
use hit_enter.Base.{
  true, false, not, ◌+◌, some, [], ◌∷◌, ◌≡◌, refl, ◌⊎◌, arith, nat_key, text_key, text_beq,
}
use hit_enter.Base.Lists.{elem, any, retain}
use hit_enter.Base.Maps.{get, contains_key, delete}
use hit_enter.Base.Texts.{codes}
use hit_enter.Event.{Event, PublicKey}
use hit_enter.Event.Actions
use hit_enter.Event.Kinds
use hit_enter.Event.Tags.{seq_of}
use hit_enter.Event.Replaces.{replaces}
use hit_enter.Event.Replaces.Order.{replaces_strict}
use hit_enter.Perm.{all, ban_members, manage_roles, contains}
use hit_enter.Group.{
  GroupState, base, is_owner, is_member, names_key, outranks, require_member, require,
}
use hit_enter.Group.Execute.{apply}
use hit_enter.Group.Apply.{put, or_empty, perform, unban, check_newcomer}
use hit_enter.Group.Apply.Ranks.{Below, put-Below}
use hit_enter.Group.Bans.{IsApart}
use hit_enter.Group.Bans.Kept.{perform-IsApart}
use hit_enter.Group.Bans.Lifts.{perform-lifts}
use hit_enter.Group.Fold.{fold_group}
use hit_enter.Group.Fold.Ignored.{is_read, fold_group-retain}
use hit_enter.Group.Fold.Owner.{founds, fold_group-owner}
use hit_enter.Group.Reach.{unmoved, tried, Reaches-owner}
use hit_enter.Tests.Club.{put-promoted}
use hit_enter.Tests.Samples.{
  demo, event, hello, h, club, club_events, club_folded, club-IsSound, mod_id, promoted,
}

abbrev barred : GroupState
barred = record club { bans = 5 ∷ [] }

barred-IsApart : IsApart barred
unfolding get contains_key
barred-IsApart p e = let same : 5 ≡ p = (nat_key.beq_iff 5 p).0 (ground arith) in rw (← same) refl

-- The owner does not bring in who is banned.
still_barred : elem 5 (perform barred 1 300 (Actions.put 5 [])).0.bans ≡ true
unfolding perform put require_member is_member get is_owner names_key delete check_newcomer
still_barred = refl

perform-IsApart_example : contains_key 5 (perform barred 1 300 (Actions.put 5 [])).0.members ≡ false
perform-IsApart_example =
    perform-IsApart barred 1 300 (Actions.put 5 []) barred-IsApart 5 still_barred

freed : elem 5 (perform barred 1 300 (Actions.unban 5)).0.bans ≡ false
unfolding perform unban require_member require is_member get base contains is_owner names_key delete
freed = refl

perform-lifts_example :
    (Actions.unban 5 ≡ Actions.unban 5)
    × (is_member barred 1 ≡ true)
    × (contains (base barred 1) ban_members ≡ true)
perform-lifts_example = perform-lifts barred 1 300 (Actions.unban 5) 5 refl freed

abbrev knock : Event
knock = event 20 5 300 Kinds.join (h ∷ [])

Reaches-owner_example :
    ((apply demo club knock).0.owner ≡ some 1)
    × (contains_key 1 (apply demo club knock).0.members ≡ true)
    × (base (apply demo club knock).0 1 ≡ all)
    × (outranks (apply demo club knock).0 2 1 ≡ false)
Reaches-owner_example =
    Reaches-owner demo club (apply demo club knock).0 1 2 (tried knock unmoved) club-IsSound refl

fold_group-owner_example : (club.named_owner ≡ some 1) × (any (founds demo 9 1) club_events ≡ true)
fold_group-owner_example = fold_group-owner demo 9 1 club_events club_folded refl

put-moves :
    elem mod_id (or_empty (get 3 promoted.members))
    ≡ not (elem mod_id (or_empty (get 3 club.members)))
unfolding get text_beq
put-moves = refl

put-Below_example :
    Below club 1 mod_id
    × (contains (base club 1) manage_roles ≡ true)
    × ((is_member club 3 ≡ false) ⊎ (outranks club 1 3 ≡ true))
put-Below_example = put-Below club promoted 1 300 3 (mod_id ∷ []) mod_id put-promoted put-moves

abbrev numbered : PublicKey → PublicKey → Event
numbered id seq = event id 9 100 Kinds.group_metadata ((codes "seq" ∷ ((seq + 48) ∷ []) ∷ []) ∷ [])

numbers :
    (replaces (numbered 1 3) (numbered 2 2) ≡ true)
    × (replaces (numbered 2 2) (numbered 3 1) ≡ true)
unfolding replaces seq_of
numbers = (refl, refl)

replaces_strict_example :
    (replaces (numbered 2 2) (numbered 1 3) ≡ false)
    × (replaces (numbered 1 3) (numbered 3 1) ≡ true)
    × (replaces (numbered 1 3) (numbered 1 3) ≡ false)
replaces_strict_example =
    replaces_strict (numbered 1 3) (numbered 2 2) (numbered 3 1) refl refl numbers.0 numbers.1

abbrev twin : PublicKey → Event
twin author = event 30 author 300 Kinds.chat_message []

twins : (replaces (twin 3) (twin 4) ≡ false) × (replaces (twin 4) (twin 3) ≡ false)
unfolding replaces
twins = (refl, refl)

fold_group-retain_example :
    fold_group demo 9 (retain (is_read demo 9) (hello ∷ club_events))
    ≡ fold_group demo 9 (hello ∷ club_events)
fold_group-retain_example = fold_group-retain demo 9 (hello ∷ club_events)
