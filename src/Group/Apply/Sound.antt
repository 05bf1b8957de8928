-- ===== src/Group/Apply/Sound.antt =====
-- Soundness across one action of crates/hit-group/src/state.rs.
use hit_enter.Base.{
  Bool, true, false, not, ◌||◌, Option, [], ◌∷◌, Text, ◌==◌, nat_key, text_key, ◌≡◌, refl, ◌⊎◌,
  arith, ok, err, bind-ok, Result, Bool-cases, inl, inr, ◌>>◌,
}
use hit_enter.Base.Lists.{elem, any}
use hit_enter.Base.Maps.{Set, contains_key, insert, remove, delete, elem-delete, get-insert_self}
use hit_enter.Event.{PublicKey, Timestamp}
use hit_enter.Event.Actions
use hit_enter.Event.Actions.{Action, parse_action}
use hit_enter.Event.Rows.{default_role, owner_mark}
use hit_enter.Group.{GroupState, Refusal, is_owner, names_key, require_member}
use hit_enter.Group.Soundness.{IsSound, Keeps, Keeps-IsSound, seat-Sound, note-Sound, drop-Sound}
use hit_enter.Group.Edit.{edit_all}
use hit_enter.Group.Edit.Sound.{edit_all-IsSound}
use hit_enter.Group.Apply.{
  silence, let_back_in, put, drop_member, ban, remove_member, unban, mute, set_mute, settle, join,
  leave, perform,
}

module _ (s : GroupState) (actor : PublicKey) (at : Timestamp) {t : GroupState} where
  put-members :
      (target : PublicKey) (roles : Set Text)
      → put s actor at target roles ≡ ok t
      → (t.roles ≡ s.roles)
        × (t.members ≡ insert target (delete default_role roles) s.members)
        × (t.owner ≡ s.owner)
        × (t.joined ≡ s.joined)
        × (any (λ r. r == owner_mark || not (contains_key r s.roles)) (delete default_role roles)
            ≡ false)
  unfolding put let_back_in
  put-members target roles e = ground arith

  pub remove-applied :
      (target : PublicKey) (with_ban : Bool)
      → remove_member s actor at target with_ban ≡ ok t
      → (names_key s.owner target ≡ false)
        × (t.roles ≡ s.roles)
        × (t.owner ≡ s.owner)
        × ((t.members ≡ s.members) × (t.joined ≡ s.joined)
            ⊎ (t.members ≡ remove target s.members) × (t.joined ≡ remove target s.joined))
  unfolding remove_member drop_member ban silence is_owner
  remove-applied target with_ban e = ground arith

  pub unban-Keeps : (target : PublicKey) → unban s actor target ≡ ok t → Keeps s t
  unfolding unban
  unban-Keeps target e = ground arith

  pub join-applied :
      (code : Option Text)
      → join s actor at code ≡ ok t
      → (t.roles ≡ s.roles)
        × (t.members ≡ insert actor [] s.members)
        × (t.owner ≡ s.owner)
        × (t.joined ≡ insert actor at s.joined)
  unfolding join let_back_in
  join-applied code e = ground arith

  pub leave-applied :
      leave s actor at ≡ ok t
      → (names_key s.owner actor ≡ false)
        × (t.roles ≡ s.roles)
        × (t.members ≡ remove actor s.members)
        × (t.owner ≡ s.owner)
        × (t.joined ≡ remove actor s.joined)
  unfolding leave drop_member silence is_owner
  leave-applied e = ground arith

pub mute-Keeps :
    (s : GroupState) (actor : PublicKey) (at : Timestamp) (target : PublicKey)
    (until : Option Timestamp)
    → Keeps s (mute s actor at target until).0
unfolding mute set_mute silence
mute-Keeps s actor at target until = ground arith

-- The roles that a `9000` gives are defined, beside the default one.
wanted-defined :
    (s : GroupState) (r : Text) (roles : Set Text)
    → any (λ q. q == owner_mark || not (contains_key q s.roles)) roles ≡ false
    → elem r roles ≡ true
    → contains_key r s.roles ≡ true
wanted-defined s r [] h m = ground arith
wanted-defined s r (q ∷ roles) h m = elim (Bool-cases (q == r)) [
  | inl e ↦ let same : q ≡ r = (text_key.beq_iff q r).0 e in rw (← same) (ground arith)
  | inr e ↦ ground (arith, wanted-defined s r roles)
]

put-IsSound :
    (s t : GroupState) (actor : PublicKey) (at : Timestamp) (target : PublicKey) (roles : Set Text)
    → put s actor at target roles ≡ ok t
    → IsSound s
    → IsSound t
put-IsSound s t actor at target roles e h =
    let (r, m, o, j, known) = put-members s actor at target roles e in
    rw (r, m, o, j)
      (seat-Sound h target (delete default_role roles) (λ q held. (
        wanted-defined s q (delete default_role roles) known held,
        ground (arith, elem-delete default_role q roles),
      )))

remove-IsSound :
    (s t : GroupState) (actor : PublicKey) (at : Timestamp) (target : PublicKey) (with_ban : Bool)
    → remove_member s actor at target with_ban ≡ ok t
    → IsSound s
    → IsSound t
remove-IsSound s t actor at target with_ban e h =
    let (other, r, o, either) = remove-applied s actor at target with_ban e in
    elim either [
      | inl (m, j) ↦ rw (r, m, o, j) h
      | inr (m, j) ↦ rw (r, m, o, j) (drop-Sound h target other)
    ]

join-IsSound :
    (s t : GroupState) (actor : PublicKey) (at : Timestamp) (code : Option Text)
    → join s actor at code ≡ ok t
    → IsSound s
    → IsSound t
unfolding contains_key
join-IsSound s t actor at code e h =
    let (r, m, o, j) = join-applied s actor at code e in
    rw (r, m, o, j)
      (note-Sound (seat-Sound h actor [] (λ q held. absurd (ground arith))) actor at
        (rw (get-insert_self actor [] s.members)))

leave-IsSound :
    (s t : GroupState) (actor : PublicKey) (at : Timestamp)
    → leave s actor at ≡ ok t
    → IsSound s
    → IsSound t
leave-IsSound s t actor at e h =
    let (other, r, m, o, j) = leave-applied s actor at e in
    rw (r, m, o, j) (drop-Sound h actor other)

-- What holds of every outcome that is applied, and of the state before, holds once it is settled.
pub settled :
    (P : GroupState → Type 0) (s : GroupState) (r : Result Refusal GroupState)
    → ((t : GroupState) → r ≡ ok t → P t)
    → P s
    → P (settle s r).0
settled P s (ok t) applied before = applied t refl
settled P s (err e) applied before = before

-- Every action, applied or refused, keeps the group sound.
pub perform-IsSound :
    (s : GroupState) (actor : PublicKey) (at : Timestamp) (a : Action)
    → IsSound s
    → IsSound (perform s actor at a).0
unfolding perform
perform-IsSound s actor at (Actions.put target roles) h =
    settled IsSound s _ (λ t e. put-IsSound s t actor at target roles e h) h
perform-IsSound s actor at (Actions.remove target with_ban) h =
    settled IsSound s _ (λ t e. remove-IsSound s t actor at target with_ban e h) h
perform-IsSound s actor at (Actions.unban target) h =
    settled IsSound s _ (λ t e. Keeps-IsSound s t (unban-Keeps s actor at target e) h) h
perform-IsSound s actor at (Actions.mute target until) h =
    Keeps-IsSound s (mute s actor at target until).0 (mute-Keeps s actor at target until) h
perform-IsSound s actor at (Actions.edit edits) h =
    settled IsSound s (require_member s actor >> edit_all s s actor edits)
      (λ t e.
        edit_all-IsSound s s t actor edits
          ((bind-ok (require_member s actor) (λ _. edit_all s s actor edits) e).2) h)
      h
perform-IsSound s actor at (Actions.join code) h =
    settled IsSound s _ (λ t e. join-IsSound s t actor at code e h) h
perform-IsSound s actor at Actions.leave h =
    settled IsSound s _ (λ t e. leave-IsSound s t actor at e h) h
perform-IsSound s actor at (Actions.invite code expires) h = h
