-- ===== src/Groups/Guards.antt =====
-- What crates/hit-group/src/lib.rs lets be stored, and what its operations do to the groups carried.
use hit_enter.Base.{
  ◌+◌, ◌≤◌, true, false, Option, none, some, ◌≡◌, arith, ok, ◌==◌, nat_key, Option-cases, inl, inr,
  if◌then◌else◌,
}
use hit_enter.Base.Lists.{elem}
use hit_enter.Base.Maps.{contains_key, get-insert, get-remove}
use hit_enter.Event.{Event, Nostr, PublicKey, Timestamp}
use hit_enter.Event.Kinds
use hit_enter.Event.Tags.{group_of}
use hit_enter.Group.{GroupState}
use hit_enter.Group.Judge.{judge_message}
use hit_enter.Group.Read.{is_folded}
use hit_enter.Groups.{
  Groups, Judgement, store, fold_with, max_clock_skew, judge, judge_group, judge_with, judge_wrap,
  judge_personal, judge_invite, judge_presence, judge_voice_presence, is_personal, is_carried,
  state_of, carry, set_state, drop_group,
}

-- A chat message is stored only in a group that is carried and has a state, if it passes there, and
-- if it is not dated too far ahead.
pub judge_chat :
    (n : Nostr) (g : Groups) (ev : Event) (now : Timestamp) {j : Judgement}
    → ev.kind ≡ Kinds.chat_message
    → judge n g ev now ≡ ok j
    → (j ≡ store)
      × (ev.created_at ≤ now + max_clock_skew)
      × ((group : PublicKey) × (s : GroupState) × (group_of n ev ≡ some group)
          × (state_of g group ≡ some s)
          × (judge_message s ev ≡ ok tt))
unfolding judge judge_group judge_with state_of is_personal
judge_chat n g ev now k e = elim (Option-cases (group_of n ev)) [
  | inl nowhere ↦ absurd (ground arith)
  | inr (group, placed) ↦ elim (Option-cases (state_of g group)) [
    | inl stateless ↦ absurd (ground arith)
    | inr (s, there) ↦ (ground arith, ground arith, (group, s, placed, there, ground arith))
  ]
]

wrap_stores :
    (n : Nostr) (g : Groups) (ev : Event) (now : Timestamp) (j : Judgement)
    → judge_wrap n g ev now ≡ ok j
    → j ≡ store
unfolding judge_wrap
wrap_stores n g ev now j e = ground arith

personal_stores : (g : Groups) (ev : Event) (j : Judgement) → judge_personal g ev ≡ ok j → j ≡ store
unfolding judge_personal
personal_stores g ev j e = ground arith

-- In a group with a state, only its live actions wait for the fold.
judge_with_action :
    (n : Nostr) (group : PublicKey) (s : GroupState) (ev : Event) (now : Timestamp) {h : PublicKey}
    → judge_with n group s ev now ≡ ok (fold_with h)
    → (h ≡ group)
      × (elem ev.kind Kinds.action_kinds ≡ true)
      × ((ev.kind == Kinds.create_invite) ≡ false)
      × (is_folded n s ev now ≡ false)
unfolding judge_with judge_invite judge_presence judge_voice_presence
judge_with_action n group s ev now e = ground arith

judge_group_action :
    (n : Nostr) (g : Groups) (ev : Event) (now : Timestamp) {h : PublicKey}
    → judge_group n g ev now ≡ ok (fold_with h)
    → (s : GroupState) × (group_of n ev ≡ some h)
      × (state_of g h ≡ some s)
      × (judge_with n h s ev now ≡ ok (fold_with h))
unfolding judge_group state_of
judge_group_action n g ev now {h} e = elim (Option-cases (group_of n ev)) [
  | inl nowhere ↦ absurd (ground arith)
  | inr (group, placed) ↦ elim (Option-cases (state_of g group)) [
    | inl stateless ↦ absurd (ground arith)
    | inr (s, there) ↦
        let judged : judge_with n group s ev now ≡ ok (fold_with h) = ground arith in
        let same : h ≡ group = (judge_with_action n group s ev now judged).0 in
        (s, rw same placed, rw same there, rw same (rw same at judged))
  ]
]

not_folded :
    (n : Nostr) (s : GroupState) (ev : Event) (now : Timestamp)
    → elem ev.kind Kinds.action_kinds ≡ true
    → (ev.kind == Kinds.create_invite) ≡ false
    → is_folded n s ev now ≡ false
    → s.cutoff ≤ ev.created_at
unfolding is_folded
not_folded n s ev now a i f = ground arith

judge_passed :
    (n : Nostr) (g : Groups) (ev : Event) (now : Timestamp) {h : PublicKey}
    → judge n g ev now ≡ ok (fold_with h)
    → (ev.created_at ≤ now + max_clock_skew) × (judge_group n g ev now ≡ ok (fold_with h))
unfolding judge
judge_passed n g ev now {h} e =
    ground (arith, wrap_stores n g ev now (fold_with h), personal_stores g ev (fold_with h))

-- What waits for the fold is an action of a carried group with a state, of another kind than an
-- invite, dated at or after the snapshot and not too far ahead.
pub judge_action :
    (n : Nostr) (g : Groups) (ev : Event) (now : Timestamp) {group : PublicKey}
    → judge n g ev now ≡ ok (fold_with group)
    → (elem ev.kind Kinds.action_kinds ≡ true)
      × ((ev.kind == Kinds.create_invite) ≡ false)
      × (ev.created_at ≤ now + max_clock_skew)
      × (group_of n ev ≡ some group)
      × ((s : GroupState) × (state_of g group ≡ some s) × (s.cutoff ≤ ev.created_at))
judge_action n g ev now {group} e =
    let (dated, judged) = judge_passed n g ev now e in
    let (s, placed, there, within) = judge_group_action n g ev now judged in
    let (_, action, plain, live) = judge_with_action n group s ev now within in
    (action, plain, dated, placed, (s, there, not_folded n s ev now action plain live))

-- To carry a group keeps every state; to set a state changes that of one carried group only; to
-- drop one forgets it alone.
pub state_of_laws :
    (g : Groups) (a b : PublicKey) (s : Option GroupState)
    → (state_of (carry g a) b ≡ state_of g b)
      × (is_carried (carry g a) a ≡ true)
      × (state_of (set_state g a s) b
          ≡ (if a == b then (if is_carried g a then s else none) else state_of g b))
      × (state_of (drop_group g a) b ≡ (if a == b then none else state_of g b))
unfolding state_of carry is_carried set_state drop_group contains_key
state_of_laws g a b s = (
  ground (arith, get-insert a b none g.carried, nat_key.beq_iff a b),
  ground (arith, get-insert a a none g.carried, nat_key.beq_iff a a),
  ground (arith, get-insert a b s g.carried, nat_key.beq_iff a b),
  ground (arith, get-remove a b g.carried),
)
