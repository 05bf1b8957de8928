-- ===== src/Group/Bans/Lifts.antt =====
-- How a ban ends in crates/hit-group/src/state.rs.
use hit_enter.Base.{
  true, false, [], nat_key, text_key, ◌≡◌, ap, Result-cases, arith, bind-ok, inl, inr, ◌>>◌,
}
use hit_enter.Base.Lists.{elem}
use hit_enter.Base.Maps.{delete, elem-add, elem-delete}
use hit_enter.Event.{PublicKey, Timestamp}
use hit_enter.Event.Actions
use hit_enter.Event.Actions.{Action}
use hit_enter.Perm.{ban_members, contains}
use hit_enter.Group.{GroupState, is_member, base, require_member}
use hit_enter.Group.Edit.{edit_all}
use hit_enter.Group.Apply.Sound.{settled}
use hit_enter.Group.Apply.{unban, settle, perform}
use hit_enter.Group.Bans.{
  Admits, insert-Admits, remove-Admits, edit_all-Admits, put-seats, join-seats, leave-goes,
  kick-goes, ban-goes, unban-lifts, mute-alike,
}

-- Somebody is banned.
abbrev Banned : PublicKey → GroupState → Type 0
Banned p s = elem p s.bans ≡ true

Admits-Banned : (s t : GroupState) (p : PublicKey) → Admits s t → Banned p s → Banned p t
Admits-Banned s t p h b = rw h.same_bans b

-- An unban that takes `p` off the bans is one of `p`, and it is applied.
unban-lifted :
    (s : GroupState) (actor target p : PublicKey)
    → Banned p s
    → elem p (settle s (unban s actor target)).0.bans ≡ false
    → (target ≡ p) × (is_member s actor ≡ true) × (contains (base s actor) ban_members ≡ true)
unban-lifted s actor target p b off = elim (Result-cases (unban s actor target)) [
  | inl (t, e) ↦
      let (bans, _, member, may) = unban-lifts s actor 0 target e in
      let gone : elem p (delete target s.bans) ≡ false = rw (← bans) (rw e at off) in
      (
        (nat_key.beq_iff target p).0 (
            ground (
              arith,
              elem-delete target p s.bans,
              nat_key.beq_iff target p,
              nat_key.beq_iff p target,
            )),
        member,
        may,
      )
  | inr (x, e) ↦ let still : elem p s.bans ≡ false = rw e at off in absurd (ground arith)
]

-- Whoever was banned and is not after an action of `actor` was unbanned by it, and `actor` is a
-- member who may ban.
pub perform-lifts :
    (s : GroupState) (actor : PublicKey) (at : Timestamp) (a : Action) (p : PublicKey)
    → elem p s.bans ≡ true
    → elem p (perform s actor at a).0.bans ≡ false
    → (a ≡ Actions.unban p)
      × (is_member s actor ≡ true)
      × (contains (base s actor) ban_members ≡ true)
unfolding perform
perform-lifts s actor at (Actions.put target roles) p b off =
    let still =
      settled (Banned p) s _
        (λ t e.
          Admits-Banned s t p (insert-Admits s t target _ (put-seats s actor at target roles e)) b)
        b in
    absurd (ground arith)
perform-lifts s actor at (Actions.remove target true) p b off =
    let still =
      settled (Banned p) s _
        (λ t e.
          let (bans, _) = ban-goes s actor at target e in ground (arith, elem-add target p s.bans))
        b in
    absurd (ground arith)
perform-lifts s actor at (Actions.remove target false) p b off =
    let still =
      settled (Banned p) s _
        (λ t e. Admits-Banned s t p (remove-Admits s t target (kick-goes s actor at target e)) b)
        b in
    absurd (ground arith)
perform-lifts s actor at (Actions.unban target) p b off =
    let (same, member, may) = unban-lifted s actor target p b off in
    (ap Actions.unban same, member, may)
perform-lifts s actor at (Actions.mute target until) p b off =
    let (bans, _) = mute-alike s actor at target until in absurd (ground arith)
perform-lifts s actor at (Actions.edit edits) p b off =
    let still =
      settled (Banned p) s (require_member s actor >> edit_all s s actor edits)
        (λ t e.
          Admits-Banned s t p
            (edit_all-Admits s s t actor edits
              ((bind-ok (require_member s actor) (λ _. edit_all s s actor edits) e).2))
            b)
        b in
    absurd (ground arith)
perform-lifts s actor at (Actions.join code) p b off =
    let still =
      settled (Banned p) s _
        (λ t e. Admits-Banned s t p (insert-Admits s t actor [] (join-seats s actor at code e)) b)
        b in
    absurd (ground arith)
perform-lifts s actor at Actions.leave p b off =
    let still =
      settled (Banned p) s _
        (λ t e. Admits-Banned s t p (remove-Admits s t actor (leave-goes s actor at e)) b) b in
    absurd (ground arith)
perform-lifts s actor at (Actions.invite code expires) p b off = absurd (ground arith)
