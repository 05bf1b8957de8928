-- ===== src/Group/Fold/Ignored.antt =====
-- What the fold of crates/hit-group/src/state.rs does not read.
use hit_enter.Base.{
  Bool, false, ◌&&◌, List, [], ◌∷◌, nat_key, ◌≡◌, refl, arith, Bool-cases, inl, inr,
}
use hit_enter.Base.Lists.{elem, fold, retain}
use hit_enter.Event.{Event, Nostr, PublicKey}
use hit_enter.Event.Tags.{group_of}
use hit_enter.Group.{names_key}
use hit_enter.Group.Fold.{Gathered, gather, gathered, fold_kinds, fold_group}

-- An event of the group, of a kind that the fold reads.
unfoldable pub is_read : Nostr → PublicKey → Event → Bool
is_read n group ev = names_key (group_of n ev) group && elem ev.kind fold_kinds

gather_unread :
    (n : Nostr) (group : PublicKey) (g : Gathered) (ev : Event)
    → is_read n group ev ≡ false
    → gather n group g ev ≡ g
unfolding is_read gather
gather_unread n group g ev h = ground arith

gathered_retain :
    (n : Nostr) (group : PublicKey) (g : Gathered) (events : List Event)
    → fold (gather n group) g (retain (is_read n group) events) ≡ fold (gather n group) g events
gathered_retain n group g [] = refl
gathered_retain n group g (ev ∷ events) = elim (Bool-cases (is_read n group ev)) [
  | inl used ↦ rw used (gathered_retain n group (gather n group g ev) events)
  | inr unread ↦ rw (unread, gather_unread n group g ev unread) (gathered_retain n group g events)
]

-- The fold of all the events that somebody holds is the fold of those that are of the group and of a
-- kind in `FOLD_KINDS`.
pub fold_group-retain :
    (n : Nostr) (group : PublicKey) (events : List Event)
    → fold_group n group (retain (is_read n group) events) ≡ fold_group n group events
unfolding fold_group gathered
fold_group-retain n group events =
    rw (gathered_retain n group (record { pieces = []; creators = []; actions = [] }) events) refl
