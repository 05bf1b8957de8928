-- ===== src/Group/Grants.antt =====
-- The permissions that an action of crates/hit-group/src/state.rs gives, whichever it is.
use hit_enter.Base.{
  ℕ, ◌≤◌, max, true, false, [], ◌==◌, nat_key, ◌≡◌, refl, ap, ◌∙◌, arith, ok, err, Result, bind-ok,
  Bool-cases, inl, inr, ◌⊎◌, ◌>>◌,
}
use hit_enter.Base.Maps.{get, insert, remove, get-insert, get-insert_self, get-remove}
use hit_enter.Base.Words.{bit, zero_bits}
use hit_enter.Event.{PublicKey, Timestamp}
use hit_enter.Event.Actions
use hit_enter.Event.Actions.{Action}
use hit_enter.Event.Rows.{default_role}
use hit_enter.Group.{GroupState, Refusal, role_perms, base, is_owner, require_member}
use hit_enter.Group.Powers.{
  base_of-le, base-owner, base-member, base-stranger, base-eq, is_owner-eq,
}
use hit_enter.Group.Soundness.{IsSound, Keeps}
use hit_enter.Group.Apply.{settle, perform, mute, put}
use hit_enter.Group.Apply.Grants.{base-put-le}
use hit_enter.Group.Apply.Sound.{
  remove-applied, join-applied, leave-applied, unban-Keeps, mute-Keeps,
}
use hit_enter.Group.Edit.{edit_all}
use hit_enter.Group.Edit.Grants.{base-edit_all-le}

module _ (s : GroupState) (actor : PublicKey) where
  -- What `p` may do in `t` at place `i` was theirs, the author's, or every member's.
  abbrev Bounded : GroupState → Type 0
  Bounded t =
      (p : PublicKey) (i : ℕ)
      → bit (base t p) i
        ≤ max (bit (base s p) i)
            (max (bit (base s actor) i) (bit (role_perms s.roles default_role) i))

  settle-Bounded :
      (r : Result Refusal GroupState)
      → ((t : GroupState) → r ≡ ok t → Bounded t)
      → Bounded (settle s r).0
  settle-Bounded (ok t) h = h t refl
  settle-Bounded (err e) h = λ p i. omega arith

  Keeps-Bounded : (t : GroupState) → Keeps s t → Bounded t
  Keeps-Bounded t (r, m, o, j) p i =
      omega (arith, ap (λ q. bit q i) (base-eq s t p o r (ap (get p) m)))

  -- Somebody who is not the owner is gone.
  gone-Bounded :
      (t : GroupState) (q : PublicKey)
      → t.roles ≡ s.roles
      → t.owner ≡ s.owner
      → t.members ≡ remove q s.members
      → is_owner s q ≡ false
      → Bounded t
  gone-Bounded t q r o m other p i = elim (Bool-cases (q == p)) [
    | inl here ↦
        let same : q ≡ p = (nat_key.beq_iff q p).0 here in
        rw (← same) (
          rw
            (base-stranger t q (is_owner-eq s t q o ∙ other)
              (rw m (get-remove q q s.members ∙ rw ((nat_key.beq_iff q q).1 refl))))
            (omega (arith, zero_bits i)))
    | inr there ↦
        omega (
          arith,
          ap (λ b. bit b i) (base-eq s t p o r (rw m (get-remove q p s.members ∙ rw there))),
        )
  ]

  -- Somebody who is not the owner is in, with no roles.
  in-Bounded :
      (t : GroupState) (q : PublicKey)
      → t.roles ≡ s.roles
      → t.owner ≡ s.owner
      → t.members ≡ insert q [] s.members
      → Bounded t
  in-Bounded t q r o m p i = elim (Bool-cases (q == p)) [
    | inl here ↦
        let same : q ≡ p = (nat_key.beq_iff q p).0 here in
        rw (← same) (new_member (Bool-cases (is_owner s q)))
    | inr there ↦ omega (
      arith,
      ap (λ b. bit b i) (base-eq s t p o r (rw m (get-insert q p [] s.members ∙ rw there))),
    )
  ]
    where
      new_member :
          (is_owner s q ≡ true) ⊎ (is_owner s q ≡ false)
          → bit (base t q) i
            ≤ max
                (bit (base s q) i)
                (max (bit (base s actor) i) (bit (role_perms s.roles default_role) i))
      new_member (inl own) =
          rw (base-owner s q own, base-owner t q (is_owner-eq s t q o ∙ own)) (omega arith)
      new_member (inr other) =
          rw
            (base-member t q [] (is_owner-eq s t q o ∙ other)
              (rw m (get-insert_self q [] s.members)))
            (base_of-le t [] i _ (rw r (omega arith)) (λ x given. absurd (ground arith)))

-- After any action of `actor`, whether it was applied or refused, a permission that `p` holds was
-- held before by `p`, by `actor` or by every plain member.
pub base-perform-le :
    (s : GroupState) (actor : PublicKey) (at : Timestamp) (a : Action)
    → IsSound s
    → (p : PublicKey) (i : ℕ)
    → bit (base (perform s actor at a).0 p) i
      ≤ max
          (bit (base s p) i)
          (max (bit (base s actor) i) (bit (role_perms s.roles default_role) i))
unfolding perform is_owner
base-perform-le s actor at (Actions.put target roles) h =
    settle-Bounded s actor (put s actor at target roles)
      (λ t e p i. omega (arith, base-put-le s t actor at target roles h e p i))
base-perform-le s actor at (Actions.remove target with_ban) h = settle-Bounded s actor _ λ t e.
    let (other, r, o, either) = remove-applied s actor at target with_ban e in
    elim either [
      | inl (m, j) ↦ Keeps-Bounded s actor t (r, m, o, j)
      | inr (m, j) ↦ gone-Bounded s actor t target r o m other
    ]
base-perform-le s actor at (Actions.unban target) h =
    settle-Bounded s actor _ (λ t e. Keeps-Bounded s actor t (unban-Keeps s actor at target e))
base-perform-le s actor at (Actions.mute target until) h =
    Keeps-Bounded s actor (mute s actor at target until).0 (mute-Keeps s actor at target until)
base-perform-le s actor at (Actions.edit edits) h =
    settle-Bounded s actor (require_member s actor >> edit_all s s actor edits) λ t e p i. omega (
      arith,
      base-edit_all-le s t actor edits h
          ((bind-ok (require_member s actor) (λ _. edit_all s s actor edits) e).2) p i,
    )
base-perform-le s actor at (Actions.join code) h =
    settle-Bounded s actor _
      λ t e. let (r, m, o, j) = join-applied s actor at code e in in-Bounded s actor t actor r o m
base-perform-le s actor at Actions.leave h = settle-Bounded s actor _ λ t e.
    let (other, r, m, o, j) = leave-applied s actor at e in gone-Bounded s actor t actor r o m other
base-perform-le s actor at (Actions.invite code expires) h = λ p i. omega arith
