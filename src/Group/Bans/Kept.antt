-- ===== src/Group/Bans/Kept.antt =====
-- Bans and membership across one action of crates/hit-group/src/state.rs.
use hit_enter.Base.{
  true, false, [], ◌==◌, nat_key, text_key, ◌≡◌, ◌⊎◌, arith, bind-ok, Bool-cases, inl, inr, ◌>>◌,
}
use hit_enter.Base.Maps.{contains_key, remove, add, delete, get-remove, elem-add, elem-delete}
use hit_enter.Event.{PublicKey, Timestamp}
use hit_enter.Event.Actions
use hit_enter.Event.Actions.{Action}
use hit_enter.Group.{GroupState, require_member}
use hit_enter.Group.Edit.{edit_all}
use hit_enter.Group.Apply.Sound.{settled}
use hit_enter.Group.Apply.{mute, perform}
use hit_enter.Group.Bans.{
  IsApart, Admits-IsApart, alike-Admits, insert-Admits, remove-Admits, edit_all-Admits, put-seats,
  join-seats, leave-goes, kick-goes, ban-goes, unban-lifts, mute-alike,
}

-- A ban or an applied unban keeps the banned out.
ban-IsApart :
    (s t : GroupState) (target : PublicKey)
    → (t.bans ≡ add target s.bans)
      × ((t.members ≡ remove target s.members)
          ⊎ (t.members ≡ s.members) × (contains_key target s.members ≡ false))
    → IsApart s
    → IsApart t
unfolding contains_key
ban-IsApart s t target (b, either) apart p e = elim (Bool-cases (target == p)) [
  | inl here ↦
      let same : target ≡ p = (nat_key.beq_iff target p).0 here in
      rw (← same)
        (ground (arith, get-remove target target s.members, nat_key.beq_iff target target))
  | inr there ↦ ground (arith, elem-add target p s.bans, get-remove target p s.members, apart p)
]

unban-IsApart :
    (s t : GroupState) (target : PublicKey)
    → (t.bans ≡ delete target s.bans) × (t.members ≡ s.members)
    → IsApart s
    → IsApart t
unban-IsApart s t target (b, m) apart p e =
    rw m (apart p (ground (arith, elem-delete target p s.bans)))

-- If nobody who is banned is a member, then so it is after any action, applied or refused.
pub perform-IsApart :
    (s : GroupState) (actor : PublicKey) (at : Timestamp) (a : Action)
    → IsApart s
    → IsApart (perform s actor at a).0
unfolding perform
perform-IsApart s actor at (Actions.put target roles) h =
    settled IsApart s _
      (λ t e.
        Admits-IsApart s t (insert-Admits s t target _ (put-seats s actor at target roles e)) h)
      h
perform-IsApart s actor at (Actions.remove target true) h =
    settled IsApart s _ (λ t e. ban-IsApart s t target (ban-goes s actor at target e) h) h
perform-IsApart s actor at (Actions.remove target false) h =
    settled IsApart s _
      (λ t e. Admits-IsApart s t (remove-Admits s t target (kick-goes s actor at target e)) h) h
perform-IsApart s actor at (Actions.unban target) h =
    settled IsApart s _
      (λ t e.
        let (b, m, _, _) = unban-lifts s actor at target e in unban-IsApart s t target (b, m) h)
      h
perform-IsApart s actor at (Actions.mute target until) h =
    Admits-IsApart s (mute s actor at target until).0
      (alike-Admits s (mute s actor at target until).0 (mute-alike s actor at target until)) h
perform-IsApart s actor at (Actions.edit edits) h =
    settled IsApart s (require_member s actor >> edit_all s s actor edits)
      (λ t e.
        Admits-IsApart s t
          (edit_all-Admits s s t actor edits
            ((bind-ok (require_member s actor) (λ _. edit_all s s actor edits) e).2))
          h)
      h
perform-IsApart s actor at (Actions.join code) h =
    settled IsApart s _
      (λ t e. Admits-IsApart s t (insert-Admits s t actor [] (join-seats s actor at code e)) h) h
perform-IsApart s actor at Actions.leave h =
    settled IsApart s _
      (λ t e. Admits-IsApart s t (remove-Admits s t actor (leave-goes s actor at e)) h) h
perform-IsApart s actor at (Actions.invite code expires) h = h
