-- ===== src/Group/Fold/Owner.antt =====
-- The owner of a group that `fold` of crates/hit-group/src/state.rs makes, and its actions as steps.
use hit_enter.Base.{
  ℕ, zero, suc, Bool, true, ◌&&◌, ◌||◌, Option, none, some, List, [], ◌∷◌, ◌++◌, ◌==◌, nat_key, ◌≡◌,
  refl, ◌⊎◌, ◌∙◌, sym, arith, Bool-cases, Option-cases, Result-cases, inl, inr,
}
use hit_enter.Base.Lists.{any, elem, fold, length, retain}
use hit_enter.Base.Maps.{Set, add, elem-add}
use hit_enter.Event.{Event, Nostr, PublicKey}
use hit_enter.Event.Kinds
use hit_enter.Event.Tags.{group_of}
use hit_enter.Group.{GroupState, names_key}
use hit_enter.Group.Execute.{apply}
use hit_enter.Group.Reach.{Reaches, unmoved, tried, noted, Reaches-Same}
use hit_enter.Group.Fold.{
  Gathered, gather, gathered, load, unloaded, proven, settle_snapshot, with_invites, start, pass,
  rounds, apply_second, ends_second, run_live, is_live, sort, fold_group,
}

pass-Reaches :
    (n : Nostr) (r s : GroupState) (pending : List Event)
    → Reaches n r s
    → Reaches n r (pass n s pending).0
unfolding pass
pass-Reaches n r s [] h = h
pass-Reaches n r s (ev ∷ evs) h = elim (Result-cases ((apply n s ev).1)) [
  | inl (done, e) ↦
      let after = (apply n s ev).0 in
      rw (pass, e)
        (pass-Reaches n r (record after { applied = add ev.id after.applied }) evs
          (noted ev (tried ev h)))
  | inr (x, e) ↦ rw (pass, e) (pass-Reaches n r (apply n s ev).0 evs (tried ev h))
]

rounds-Reaches :
    (n : Nostr) (r : GroupState) (fuel : ℕ) (s : GroupState) (pending : List Event)
    → Reaches n r s
    → Reaches n r (rounds n fuel s pending).0
unfolding rounds
rounds-Reaches n r zero s pending h = h
rounds-Reaches n r (suc fuel) s pending h =
    let round = pass n s pending in
    let steps = pass-Reaches n r s pending h in
    elim (Bool-cases (length round.1 == length pending || length round.1 == 0)) [
      | inl done ↦ rw (rounds, done) steps
      | inr more ↦ rw (rounds, more) (rounds-Reaches n r fuel round.0 round.1 steps)
    ]

run_live-Reaches :
    (n : Nostr) (r s : GroupState) (second evs : List Event)
    → Reaches n r s
    → Reaches n r (run_live n s second evs)
unfolding run_live apply_second
run_live-Reaches n r s second [] h = rounds-Reaches n r (length second) s second h
run_live-Reaches n r s second (ev ∷ evs) h = elim (Bool-cases (ends_second second ev)) [
  | inl over ↦
      rw (run_live, over)
        (run_live-Reaches n r (apply_second n s second) (ev ∷ []) evs
          (rounds-Reaches n r (length second) s second h))
  | inr open_yet ↦ rw (run_live, open_yet) (run_live-Reaches n r s (second ++ ev ∷ []) evs h)
]

-- A `9007` of the group, signed by `o`.
unfoldable pub founds : Nostr → PublicKey → PublicKey → Event → Bool
founds n group o ev =
    names_key (group_of n ev) group && ev.kind == Kinds.create_group && ev.pubkey == o

gather-creators :
    (n : Nostr) (group o : PublicKey) (g : Gathered) (ev : Event)
    → elem o (gather n group g ev).creators ≡ true
    → (elem o g.creators ≡ true) ⊎ (founds n group o ev ≡ true)
unfolding gather founds
gather-creators n group o g ev h = ground (arith, elem-add ev.pubkey o g.creators)

gathered_from :
    (n : Nostr) (group o : PublicKey) (g : Gathered) (events : List Event)
    → elem o (fold (gather n group) g events).creators ≡ true
    → (elem o g.creators ≡ true) ⊎ (any (founds n group o) events ≡ true)
gathered_from n group o g [] h = inl h
gathered_from n group o g (ev ∷ events) h =
    elim (gathered_from n group o (gather n group g ev) events h) [
      | inl before ↦ elim (gather-creators n group o g ev before) [
        | inl first ↦ inl first
        | inr found ↦ inr (ground arith)
      ]
      | inr later ↦ inr (ground arith)
    ]

proven-elem :
    (named : Option PublicKey) (creators : Set PublicKey) (o : PublicKey)
    → proven named creators ≡ some o
    → (named ≡ some o) × (elem o creators ≡ true)
unfolding proven
proven-elem none creators o e = absurd (ground arith)
proven-elem (some p) creators o e = elim (Bool-cases (elem p creators)) [
  | inl signed ↦ let same : p ≡ o = ground arith in (rw same refl, rw (← same) signed)
  | inr unsigned ↦ absurd (ground arith)
]

start-owner :
    (n : Nostr) (group o : PublicKey) (g : Gathered) (s : GroupState)
    → start n group g ≡ some s
    → s.owner ≡ some o
    → (s.named_owner ≡ some o) × (elem o g.creators ≡ true)
unfolding start settle_snapshot with_invites
start-owner n group o g s e own =
    elim (Option-cases (load n g.pieces (unloaded group) Kinds.state_kinds)) [
      | inl missing ↦ absurd (ground arith)
      | inr (l, loaded) ↦
          let same : with_invites n g.actions (settle_snapshot l g.creators) ≡ s = ground arith in
          let proved = proven-elem l.named g.creators o (rw (← same) at own) in
          (rw (← same) proved.0, proved.1)
    ]

-- The owner of a folded group is the person that its snapshot names, and one of the events is a
-- `9007` of the group that this person signed.
pub fold_group-owner :
    (n : Nostr) (group o : PublicKey) (events : List Event) {t : GroupState}
    → fold_group n group events ≡ some t
    → t.owner ≡ some o
    → (t.named_owner ≡ some o) × (any (founds n group o) events ≡ true)
unfolding fold_group gathered
fold_group-owner n group o events {t} e own =
    let g = gathered n group events in
    elim (Option-cases (start n group g)) [
      | inl missing ↦ absurd (ground arith)
      | inr (s, started) ↦
          let live = retain (is_live s.cutoff) (sort g.actions) in
          let same : run_live n s [] live ≡ t = ground arith in
          let steps : Reaches n s t = rw (← same) (run_live-Reaches n s s [] live unmoved) in
          let (_, _, _, kept, kept_named) = Reaches-Same n s t steps in
          let (named, created) = start-owner n group o g s started (sym kept ∙ own) in
          let found =
            gathered_from n group o (record { pieces = []; creators = []; actions = [] }) events
              created in
          (kept_named ∙ named, ground arith)
    ]
