-- ===== src/Group/Apply/Refused.antt =====
-- What a refused action of crates/hit-group/src/state.rs leaves behind.
use hit_enter.Base.{
  Option, map, ◌≡◌, refl, arith, ok, err, Result, Result-cases, inl, inr, ◌⊎◌, ◌>>◌,
}
use hit_enter.Event.{PublicKey, Timestamp}
use hit_enter.Event.Actions
use hit_enter.Event.Actions.{Action}
use hit_enter.Group.{GroupState, Refusal, require_member}
use hit_enter.Group.Edit.{edit_all}
use hit_enter.Group.Apply.{
  settle, perform, mute, check_mute, set_mute, end_mute, put, remove_member, unban, join, leave,
}

-- The state is as it was, or the action is a mute and the target's mutes at its time are ended.
abbrev pub Leaves : GroupState → Timestamp → Action → GroupState → Type 0
Leaves s at a t =
    (t ≡ s)
    ⊎ ((target : PublicKey) × (until : Option Timestamp) × (a ≡ Actions.mute target until)
        × (t ≡ record s { silences = map (end_mute target at) s.silences }))

settle_refused :
    (s : GroupState) (r : Result Refusal GroupState) {x : Refusal}
    → (settle s r).1 ≡ err x
    → (settle s r).0 ≡ s
settle_refused s (ok t) e = absurd (ground arith)
settle_refused s (err y) e = refl

mute_refused :
    (s : GroupState) (actor : PublicKey) (at : Timestamp) (target : PublicKey)
    (until : Option Timestamp) {x : Refusal}
    → (mute s actor at target until).1 ≡ err x
    → Leaves s at (Actions.mute target until) (mute s actor at target until).0
unfolding mute
mute_refused s actor at target until e = elim (Result-cases (check_mute s actor target)) [
  | inl (done, checked) ↦
      let ended : GroupState = record s { silences = map (end_mute target at) s.silences } in
      rw (checked, mute)
        (inr (
          target,
          until,
          refl,
          settle_refused ended (set_mute ended at target until) (rw (checked, mute) at e),
        ))
  | inr (y, refused) ↦ rw (refused, mute) (inl refl)
]

pub perform_refused :
    (s : GroupState) (actor : PublicKey) (at : Timestamp) (a : Action) {x : Refusal}
    → (perform s actor at a).1 ≡ err x
    → Leaves s at a (perform s actor at a).0
unfolding perform
perform_refused s actor at (Actions.put target roles) e =
    inl (settle_refused s (put s actor at target roles) e)
perform_refused s actor at (Actions.remove target with_ban) e =
    inl (settle_refused s (remove_member s actor at target with_ban) e)
perform_refused s actor at (Actions.unban target) e =
    inl (settle_refused s (unban s actor target) e)
perform_refused s actor at (Actions.mute target until) e = mute_refused s actor at target until e
perform_refused s actor at (Actions.edit edits) e =
    inl (settle_refused s (require_member s actor >> edit_all s s actor edits) e)
perform_refused s actor at (Actions.join code) e = inl (settle_refused s (join s actor at code) e)
perform_refused s actor at Actions.leave e = inl (settle_refused s (leave s actor at) e)
perform_refused s actor at (Actions.invite code expires) e = inl refl
