-- ===== src/Group/Execute/Whole.antt =====
-- An action of crates/hit-group/src/state.rs is done whole or, but for a mute, not at all: its statements
-- one after another do what its tests and then its changes do.
use hit_enter.Base.{
  ltb, Bool, true, false, ◌||◌, not, Option, none, some, List, [], ◌∷◌, Text, ◌==◌, nat_key,
  text_key, if◌then◌else◌, Key, Result, ok, err, ensure, map, ◌≡◌, refl, ap, arith, ◌>>◌,
  Bool-cases, Option-cases, Result-cases, inl, inr,
}
use hit_enter.Base.Lists.{any, elem}
use hit_enter.Base.Maps.{Set, Map, get, contains_key, remove, delete}
use hit_enter.Event.{Event, Nostr, PublicKey, Timestamp}
use hit_enter.Event.Actions
use hit_enter.Event.Actions.{Action, parse_action}
use hit_enter.Event.Edits.{Edit}
use hit_enter.Event.Rows.{default_role, owner_mark}
use hit_enter.Perm.{ban_members, kick_members}
use hit_enter.Group.{
  GroupState, Refusal, not_a_member, already_a_member, malformed, the_owner, outranked,
  unknown_role, no_such_invite, banned, is_owner, is_member, outranks, require, require_member,
}
use hit_enter.Group.Edit.{Outcome, edit_all}
use hit_enter.Group.Apply.{
  silence, check_newcomer, check_change, drop_member, ban, check_mute, end_mute, honoured, settle,
  perform, put, remove_member, unban, mute, set_mute, join, leave,
}
use hit_enter.Group.Apply.Sound.{perform-IsSound}
use hit_enter.Group.Soundness.{IsSound}
use hit_enter.Group.Execute.{
  Act, continue, ◌▷◌, set_if, run_put, run_remove, run_unban, run_until, run_mute, run_edits,
  run_join, run_leave, execute, apply,
}

-- Without what is not there a set is itself, and so is a map.
delete_absent {ℓ} : {A : Type ℓ} ⦃k : Key A⦄ (a : A) (s : Set A) → elem a s ≡ false → delete a s ≡ s
unfolding delete
delete_absent a [] h = refl
delete_absent a (x ∷ s) h =
    let off : (x == a) ≡ false = ground arith in
    rw (delete, off) (ap (λ l. x ∷ l) (delete_absent a s (ground arith)))

remove_absent {ℓ κ} :
    {K : Type ℓ} {V : Type κ} ⦃k : Key K⦄ (a : K) (m : Map K V)
    → contains_key a m ≡ false
    → remove a m ≡ m
unfolding remove contains_key get
remove_absent a [] h = refl
remove_absent a ((x, v) ∷ m) h =
    let off : (x == a) ≡ false = ground arith in
    rw (remove, off) (ap (λ l. (x, v) ∷ l) (remove_absent a m (rw (off) at h)))

-- A test, and what follows it.
tested :
    (s : GroupState) (c : Result Refusal (Unit {0})) (k : Act) (r : Outcome)
    → k s ≡ settle s r
    → continue (s, c) k ≡ settle s (c >> r)
tested s (ok u) k r h = h
tested s (err e) k r h = refl

put_whole :
    (s : GroupState) (actor : PublicKey) (at : Timestamp) (target : PublicKey) (roles : Set Text)
    → run_put actor at target roles s ≡ settle s (put s actor at target roles)
unfolding run_put put
put_whole s actor at target roles =
    let wanted = delete default_role roles in
    let current = get target s.members in
    tested s (require_member s actor) _ _ (
      tested s (ensure (not (is_owner s target)) the_owner) _ _ (
        tested s
          (ensure (not (any (λ r. r == owner_mark || not (contains_key r s.roles)) wanted))
            unknown_role)
          _ _
          (tested s (check_newcomer s actor target current) _ _ (
            tested s (check_change s actor target current wanted) _ _
              (elim (Option-cases (get target s.members)) [
                | inl e ↦ rw e refl
                | inr (held, e) ↦ rw e refl
              ])))))

removed :
    (s : GroupState) (at : Timestamp) (target : PublicKey) (with_ban member : Bool)
    → (set_if member (λ s. drop_member s target)
          ▷ set_if (member || with_ban) (λ s. silence s target at none false)
          ▷ set_if with_ban (λ s. ban s target))
        s
      ≡ settle s (
          let gone = if member then drop_member s target else s in
          let quiet = if member || with_ban then silence gone target at none false else gone in
          ok (if with_ban then ban quiet target else quiet))
removed s at target true true = refl
removed s at target true false = refl
removed s at target false true = refl
removed s at target false false = refl

remove_whole :
    (s : GroupState) (actor : PublicKey) (at : Timestamp) (target : PublicKey) (with_ban : Bool)
    → run_remove actor at target with_ban s ≡ settle s (remove_member s actor at target with_ban)
unfolding run_remove remove_member
remove_whole s actor at target with_ban = tested s (require_member s actor) _ _ (
    tested s (ensure (not (is_owner s target)) the_owner) _ _ (
      tested s (ensure (is_member s target || with_ban) not_a_member) _ _ (
        tested s (require s actor (if with_ban then ban_members else kick_members)) _ _ (
          tested s (ensure (outranks s actor target) outranked) _ _
            (removed s at target with_ban (is_member s target))))))

unban_whole :
    (s : GroupState) (actor target : PublicKey)
    → run_unban actor target s ≡ settle s (unban s actor target)
unfolding run_unban unban
unban_whole s actor target = tested s (require_member s actor) _ _ (
    tested s (require s actor ban_members) _ _ (elim (Bool-cases (elem target s.bans)) [
      | inl e ↦ rw e refl
      | inr e ↦ rw (e, delete_absent target s.bans e) refl
    ]))

until_whole :
    (s : GroupState) (at : Timestamp) (target : PublicKey) (until : Option Timestamp)
    → run_until at target until s ≡ settle s (set_mute s at target until)
unfolding run_until set_mute
until_whole s at target (some u) = elim (Bool-cases (ltb at u)) [
  | inl e ↦ rw e refl
  | inr e ↦ rw e refl
]
until_whole s at target none = elim (Bool-cases (contains_key target s.mutes)) [
  | inl e ↦ rw e refl
  | inr e ↦ rw (e, remove_absent target s.mutes e) refl
]

mute_whole :
    (s : GroupState) (actor : PublicKey) (at : Timestamp) (target : PublicKey)
    (until : Option Timestamp)
    → run_mute actor at target until s ≡ mute s actor at target until
unfolding run_mute mute
mute_whole s actor at target until = elim (Result-cases (check_mute s actor target)) [
  | inr (e, c) ↦ rw (c, mute) refl
  | inl (u, c) ↦
      rw (c, mute)
        (until_whole (record s { silences = map (end_mute target at) s.silences }) at target until)
]

edits_whole :
    (s : GroupState) (actor : PublicKey) (edits : List Edit)
    → run_edits actor edits s ≡ settle s (require_member s actor >> edit_all s s actor edits)
unfolding run_edits
edits_whole s actor edits =
    tested s (require_member s actor) _ _ (elim (Result-cases (edit_all s s actor edits)) [
      | inl (t, e) ↦ rw e refl
      | inr (x, e) ↦ rw e refl
    ])

join_whole :
    (s : GroupState) (actor : PublicKey) (at : Timestamp) (code : Option Text)
    → run_join actor at code s ≡ settle s (join s actor at code)
unfolding run_join join
join_whole s actor at code = tested s (ensure (not (is_member s actor)) already_a_member) _ _ (
    tested s (ensure (honoured s at code) no_such_invite) _ _
      (tested s (ensure (not (elem actor s.bans)) banned) _ _ refl))

leave_whole :
    (s : GroupState) (actor : PublicKey) (at : Timestamp)
    → run_leave actor at s ≡ settle s (leave s actor at)
unfolding run_leave leave drop_member is_member
leave_whole s actor at =
    tested s (ensure (not (is_owner s actor)) the_owner) _ _
      (elim (Bool-cases (is_member s actor)) [
        | inl e ↦ rw e refl
        | inr e ↦ rw (e, remove_absent actor s.members e) refl
      ])

-- Run statement by statement, each change made in place as it comes, an action gives the state and the
-- outcome that it gives when its changes are made at once and only after all its tests have passed; a
-- mute's span that is ended before its last test excepted, in both.
pub execute-perform :
    (s : GroupState) (actor : PublicKey) (at : Timestamp) (a : Action)
    → execute actor at a s ≡ perform s actor at a
unfolding execute perform
execute-perform s actor at (Actions.put target roles) = put_whole s actor at target roles
execute-perform s actor at (Actions.remove target with_ban) =
    remove_whole s actor at target with_ban
execute-perform s actor at (Actions.unban target) = unban_whole s actor target
execute-perform s actor at (Actions.mute target until) = mute_whole s actor at target until
execute-perform s actor at (Actions.edit edits) = edits_whole s actor edits
execute-perform s actor at (Actions.join code) = join_whole s actor at code
execute-perform s actor at Actions.leave = leave_whole s actor at
execute-perform s actor at (Actions.invite code expires) = refl

pub apply_malformed :
    (n : Nostr) (s : GroupState) (ev : Event)
    → parse_action n ev ≡ none
    → apply n s ev ≡ (s, err malformed)
unfolding apply
apply_malformed n s ev e = rw (e, apply)

pub apply_parsed :
    (n : Nostr) (s : GroupState) (ev : Event) (g : PublicKey) (a : Action)
    → parse_action n ev ≡ some (g, a)
    → apply n s ev ≡ perform s ev.pubkey ev.created_at a
unfolding apply
apply_parsed n s ev g a e = rw (e, apply) (execute-perform s ev.pubkey ev.created_at a)

pub apply-IsSound : (n : Nostr) (s : GroupState) (ev : Event) → IsSound s → IsSound (apply n s ev).0
apply-IsSound n s ev h = elim (Option-cases (parse_action n ev)) [
  | inl e ↦ rw (apply_malformed n s ev e) h
  | inr ((g, a), e) ↦ rw (apply_parsed n s ev g a e) (perform-IsSound s ev.pubkey ev.created_at a h)
]
